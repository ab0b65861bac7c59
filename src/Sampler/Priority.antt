-- ===== src/Sampler/Priority.antt =====
-- What the agent's configuration makes the priority sampler do.
use dd_opentracing_cpp.Prelude.{
  ap, ◌∙◌, ℕ, ◌≤◌, ◌≡◌, refl, false, Option, none, some, List, [], ◌∷◌, if◌then◌else◌, arith, Text,
  same, same_iff, text_eq, find, find-assign,
}
use dd_opentracing_cpp.Floats.{Floats}
use dd_opentracing_cpp.SamplingPriority.{sampler_keep, default, agent_rate}
use dd_opentracing_cpp.Sampler.{
  SamplingRate, PrioritySampler, priority_sampler_default_rate_key, rate_key,
  max_id_from_sample_rate, applied, priority_sample, configure_entry, configure_entries, configure,
}

module _ {D : Type 0} (fl : Floats D) where
  -- The rate of the last entry with the key.
  unfoldable pub last_rate : Text → List (Text × D) → Option D
  last_rate key [] = none
  last_rate key ((k, rate) ∷ config) = elim (last_rate key config) [
    | none ↦ if same k key then some rate else none
    | some later ↦ some later
  ]

  abbrev pub entry_of : D → SamplingRate D
  entry_of rate = record { rate = rate; max_hash = max_id_from_sample_rate fl rate }

  -- The new entry if there is one, else the old one.
  abbrev pub or_old : Option D → Option (SamplingRate D) → Option (SamplingRate D)
  or_old none old = old
  or_old (some rate) old = some (entry_of rate)

  abbrev pub or_default : Option D → SamplingRate D → SamplingRate D
  or_default none old = old
  or_default (some rate) old = entry_of rate

  -- The rates that `configure` gets to: those before the first that is not a number.
  abbrev pub rates_read : List (Text × Option D) → List (Text × D)
  rates_read [] = []
  rates_read ((key, none) ∷ config) = []
  rates_read ((key, some rate) ∷ config) = (key, rate) ∷ rates_read config

  unfoldable assign_rates : List (Text × D) → PrioritySampler D → PrioritySampler D
  assign_rates [] s = s
  assign_rates (entry ∷ config) s = assign_rates config (configure_entry fl entry s)

  configure_entries-assign_rates :
      (config : List (Text × Option D)) (s : PrioritySampler D)
      → (configure_entries fl config s).0 ≡ assign_rates (rates_read config) s
  unfolding configure_entries assign_rates
  configure_entries-assign_rates [] s = refl
  configure_entries-assign_rates ((key, none) ∷ config) s = refl
  configure_entries-assign_rates ((key, some rate) ∷ config) s =
      configure_entries-assign_rates config (configure_entry fl (key, rate) s)

  assign_rates-find :
      (config : List (Text × D)) (s : PrioritySampler D) (key : Text)
      → same key priority_sampler_default_rate_key ≡ false
      → find key (assign_rates config s).agent_sampling_rates
        ≡ or_old (last_rate key config) (find key s.agent_sampling_rates)
  unfolding assign_rates configure_entry last_rate
  assign_rates-find [] s key h = refl
  assign_rates-find ((k, rate) ∷ config) s key h = ground (
    arith,
    assign_rates-find config (configure_entry fl (k, rate) s) key h,
    same_iff {A = Text} k key,
    same_iff {A = Text} k priority_sampler_default_rate_key,
    same_iff {A = Text} key priority_sampler_default_rate_key,
    find-assign k key (entry_of rate) s.agent_sampling_rates,
  )

  assign_rates-find_default :
      (config : List (Text × D)) (s : PrioritySampler D)
      → find priority_sampler_default_rate_key s.agent_sampling_rates ≡ none
      → find priority_sampler_default_rate_key (assign_rates config s).agent_sampling_rates ≡ none
  unfolding assign_rates configure_entry
  assign_rates-find_default [] s h = h
  assign_rates-find_default ((k, rate) ∷ config) s h = ground (
    arith,
    assign_rates-find_default config (configure_entry fl (k, rate) s),
    find-assign k priority_sampler_default_rate_key (entry_of rate) s.agent_sampling_rates,
  )

  assign_rates-default :
      (config : List (Text × D)) (s : PrioritySampler D)
      → (assign_rates config s).default_sample_rate
        ≡ or_default (last_rate priority_sampler_default_rate_key config) s.default_sample_rate
  unfolding assign_rates configure_entry last_rate
  assign_rates-default [] s = refl
  assign_rates-default ((k, rate) ∷ config) s =
      ground (arith, assign_rates-default config (configure_entry fl (k, rate) s))

  applied-assign_rates :
      (config : List (Text × D)) (s : PrioritySampler D) (environment service : Text)
      → same (rate_key environment service) priority_sampler_default_rate_key ≡ false
      → applied fl
          (assign_rates config (record s { agent_sampling_rates = [] }))
          environment
          service
        ≡ elim (last_rate (rate_key environment service) config) [
          | none ↦ (
            or_default (last_rate priority_sampler_default_rate_key config) s.default_sample_rate,
            default,
          )
          | some rate ↦ (entry_of rate, agent_rate)
        ]
  unfolding applied find
  applied-assign_rates config s environment service h = ground (
    arith,
    assign_rates-find config (record s { agent_sampling_rates = [] }) (rate_key environment service)
        h,
    assign_rates-default config (record s { agent_sampling_rates = [] }),
  )

  -- For a service and an environment whose key is not the one of the default rate, which belongs to
  -- an empty service and an empty environment: after `configure` their rate is the one that the new
  -- configuration has under its key, whatever older ones had, with the agent's rate as the reason.
  -- Without one it is the default rate: the new configuration's if it has one, else the old
  -- default; the reason is then `default`, also where the agent sent that rate. A rate that is not
  -- a number, which ends `configure` with an exception, and those behind it count as missing.
  pub applied-configure :
      (config : List (Text × Option D)) (s : PrioritySampler D) (environment service : Text)
      → same (rate_key environment service) priority_sampler_default_rate_key ≡ false
      → applied fl (configure fl config s).0 environment service
        ≡ elim (last_rate (rate_key environment service) (rates_read config)) [
          | none ↦ (
            or_default
                (last_rate priority_sampler_default_rate_key (rates_read config))
                s.default_sample_rate,
            default,
          )
          | some rate ↦ (entry_of rate, agent_rate)
        ]
  unfolding configure
  applied-configure config s environment service h =
      ap (λ t. applied fl t environment service)
        (configure_entries-assign_rates config (record s { agent_sampling_rates = [] }))
      ∙ applied-assign_rates (rates_read config) s environment service h

  -- A trace that one priority sampler keeps is kept by every other one whose threshold for it is
  -- not lower, because the decision is made by the hash of the trace
  -- identifier alone.
  priority_sample_mono :
      (s t : PrioritySampler D) (environment service environment' service' : Text) (trace_id : ℕ)
      → (applied fl s environment service).0.max_hash
        ≤ (applied fl t environment' service').0.max_hash
      → (priority_sample fl s environment service trace_id).sampling_priority ≡ some sampler_keep
      → (priority_sample fl t environment' service' trace_id).sampling_priority ≡ some sampler_keep
  unfolding priority_sample
  priority_sample_mono s t environment service environment' service' trace_id h k = ground arith
