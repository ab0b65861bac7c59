-- ===== src/Sampler.antt =====
-- src/sample.h and sample.cpp: the priority sampler, whose rates the agent sends, and the rules
-- sampler, whose rules the user configures.
pub mod Kept
pub mod Hash
pub mod Priority
pub mod Rules
use dd_opentracing_cpp.Prelude.{
  ℕ, ◌+◌, ◌*◌, ◌%◌, Bool, true, false, Option, none, some, List, [], ◌∷◌, ◌++◌, ltb, leb,
  if◌then◌else◌, Text, codes, same, text_eq, find, assign,
}
use dd_opentracing_cpp.Floats.{Floats, u64_mod, u64_max}
use dd_opentracing_cpp.Limiter.{Limiter, allow}
use dd_opentracing_cpp.SamplingPriority.{
  SamplingPriority, user_drop, sampler_drop, sampler_keep, user_keep, SamplingMechanism, default,
  agent_rate, rule,
}

pub record SampleResult (D : Type 0) : Type 0 where
  pub rule_rate : D
  pub limiter_rate : D
  pub priority_rate : D
  pub applied_rate : D
  pub sampling_priority : Option SamplingPriority
  pub sampling_mechanism : Option SamplingMechanism

pub record SamplingRate (D : Type 0) : Type 0 where
  pub rate : D
  pub max_hash : ℕ

pub record PrioritySampler (D : Type 0) : Type 0 where
  pub agent_sampling_rates : List (Text × SamplingRate D)
  pub default_sample_rate : SamplingRate D

pub record RuleResult (D : Type 0) : Type 0 where
  pub matched : Bool
  pub rate : D

-- `std::function<RuleResult(const std::string&, const std::string&)>`: service and operation name.
abbrev pub RuleFunc : Type 0 → Type 0
RuleFunc D = Text → Text → RuleResult D

pub record RulesSampler (D : Type 0) : Type 0 where
  pub sampling_limiter : Limiter D
  pub sampling_rules : List (RuleFunc D)
  pub priority_sampler : PrioritySampler D

-- "Constants used for the Knuth hashing, same constants as the Agent."
abbrev pub constant_rate_hash_factor : ℕ
constant_rate_hash_factor = 1111111111111111111

-- `id * constant_rate_hash_factor` on `uint64_t`.
unfoldable pub hashed_id : ℕ → ℕ
hashed_id id = (id * constant_rate_hash_factor) % u64_mod

abbrev pub priority_sampler_default_rate_key : Text
priority_sampler_default_rate_key = codes "service:,env:"

-- The key under which the agent sends the rate of a service in an environment.
unfoldable pub rate_key : Text → Text → Text
rate_key environment service = codes "service:" ++ (service ++ (codes ",env:" ++ environment))

module _ {D : Type 0} (fl : Floats D) where
  -- A default constructed `SampleResult`.
  abbrev pub no_result : SampleResult D
  no_result = record {
    rule_rate = fl.nan;
    limiter_rate = fl.nan;
    priority_rate = fl.nan;
    applied_rate = fl.nan;
    sampling_priority = none;
    sampling_mechanism = none;
  }

  unfoldable pub max_id_from_sample_rate : D → ℕ
  max_id_from_sample_rate rate =
      if fl.eq rate fl.rate_one
      then u64_max
      else if fl.lt fl.rate_zero rate
      then fl.scale rate
      else 0

  -- `PrioritySampler()`.
  abbrev pub new_priority_sampler : PrioritySampler D
  new_priority_sampler = record {
    agent_sampling_rates = [];
    default_sample_rate = record { rate = fl.rate_one; max_hash = u64_max };
  }

  -- The rate that applies, and why.
  unfoldable pub applied : PrioritySampler D → Text → Text → SamplingRate D × SamplingMechanism
  applied s environment service =
      elim (find (rate_key environment service) s.agent_sampling_rates) [
        | none ↦ (s.default_sample_rate, default)
        | some rate ↦ (rate, agent_rate)
      ]

  -- `PrioritySampler::sample`.
  unfoldable pub priority_sample : PrioritySampler D → Text → Text → ℕ → SampleResult D
  priority_sample s environment service trace_id =
      let rate = (applied s environment service).0 in
      record no_result {
        priority_rate = rate.rate;
        applied_rate = rate.rate;
        sampling_priority =
            some (if leb rate.max_hash (hashed_id trace_id) then sampler_drop else sampler_keep);
        sampling_mechanism = some (applied s environment service).1;
      }

  -- One entry of the agent's JSON object: a key and its rate.
  unfoldable pub configure_entry : Text × D → PrioritySampler D → PrioritySampler D
  configure_entry (key, rate) s =
      let entry : SamplingRate D = record {
        rate = rate;
        max_hash = max_id_from_sample_rate rate;
      } in
      if same key priority_sampler_default_rate_key
      then record s { default_sample_rate = entry }
      else record s { agent_sampling_rates = assign key entry s.agent_sampling_rates }

  -- The loop. A rate that is not a number is `none`: its conversion throws a `type_error`, which
  -- ends the loop with what it has done so far, and the result is false.
  unfoldable pub configure_entries :
      List (Text × Option D) → PrioritySampler D → PrioritySampler D × Bool
  configure_entries [] s = (s, true)
  configure_entries ((key, none) ∷ config) s = (s, false)
  configure_entries ((key, some rate) ∷ config) s =
      configure_entries config (configure_entry (key, rate) s)

  -- `PrioritySampler::configure`; false is the exception.
  unfoldable pub configure : List (Text × Option D) → PrioritySampler D → PrioritySampler D × Bool
  unfolding configure_entries configure_entry
  configure config s = configure_entries config (record s { agent_sampling_rates = [] })

  -- `RulesSampler::addRule`.
  unfoldable pub add_rule : RuleFunc D → RulesSampler D → RulesSampler D
  add_rule f s = record s { sampling_rules = s.sampling_rules ++ f ∷ [] }

  -- The loop of `RulesSampler::match`.
  unfoldable pub match_rules : List (RuleFunc D) → Text → Text → RuleResult D
  match_rules [] service name = record { matched = false; rate = fl.nan }
  match_rules (f ∷ rules) service name =
      let rest = match_rules rules service name in
      if (f service name).matched then f service name else rest

  -- `RulesSampler::updatePrioritySampler`; false is the exception.
  unfoldable pub update_priority_sampler :
      List (Text × Option D) → RulesSampler D → RulesSampler D × Bool
  unfolding configure
  update_priority_sampler config s =
      let (sampler, finished) = configure config s.priority_sampler in
      (record s { priority_sampler = sampler }, finished)

  -- `RulesSampler::sample` where a rule with this rate matched.
  unfoldable pub sample_by_rule : ℕ → RulesSampler D → D → ℕ → RulesSampler D × SampleResult D
  sample_by_rule now s rate trace_id =
      let dropped : SampleResult D = record no_result {
        rule_rate = rate;
        applied_rate = rate;
        sampling_priority = some user_drop;
        sampling_mechanism = some rule;
      } in
      let (limiter, limit_result) = allow fl now s.sampling_limiter in
      if leb (max_id_from_sample_rate rate) (hashed_id trace_id) then (s, dropped) else (
        record s { sampling_limiter = limiter },
        record dropped {
          limiter_rate = limit_result.effective_rate;
          applied_rate = limit_result.effective_rate;
          sampling_priority = some (if limit_result.allowed then user_keep else user_drop);
        },
      )

  -- `RulesSampler::sample`, with what the limiter's clock reads.
  unfoldable pub rules_sample :
      ℕ → RulesSampler D → Text → Text → Text → ℕ → RulesSampler D × SampleResult D
  unfolding sample_by_rule match_rules priority_sample
  rules_sample now s environment service name trace_id =
      let result = match_rules s.sampling_rules service name in
      if result.matched
      then sample_by_rule now s result.rate trace_id
      else (s, priority_sample s.priority_sampler environment service trace_id)
