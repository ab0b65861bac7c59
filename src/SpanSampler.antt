-- ===== src/SpanSampler.antt =====
-- `SpanSampler` of src/sample.h and sample.cpp: rules that keep single spans of a dropped trace.
pub mod Matching
pub mod Config
use dd_opentracing_cpp.Prelude.{
  ℕ, zero, suc, Bool, true, false, not, ◌&&◌, ◌||◌, Option, none, some, List, [], ◌∷◌, ◌++◌, ltb,
  if◌then◌else◌, Text, codes, same, text_eq, get_elem?, set,
}
use dd_opentracing_cpp.Floats.{Floats}
use dd_opentracing_cpp.Glob.{glob_match}
use dd_opentracing_cpp.Limiter.{Limiter, make_limiter_per_second, allow}
use dd_opentracing_cpp.Sampler.{hashed_id, max_id_from_sample_rate}
use dd_opentracing_cpp.SpanData.{SpanData}

-- `SpanSampler::Rule::Config`.
pub record RuleConfig (D : Type 0) : Type 0 where
  pub service_pattern : Text
  pub operation_name_pattern : Text
  pub sample_rate : D
  pub max_per_second : D
  pub text : Text

-- `SpanSampler::Rule`.
pub record Rule (D : Type 0) : Type 0 where
  pub config : RuleConfig D
  pub limiter : Option (Limiter D)

-- The answer of `glob_match`, which always has one.
abbrev pub answer : Option Bool → Bool
answer none = false
answer (some b) = b

-- "Since "*" is the default pattern, optimize for that case."
unfoldable pub is_match : Text → Text → Bool
is_match pattern_text subject =
    same pattern_text (codes "*") || answer (glob_match pattern_text subject)

module _ {D : Type 0} (fl : Floats D) where
  -- `Config()`.
  abbrev pub default_config : RuleConfig D
  default_config = record {
    service_pattern = codes "*";
    operation_name_pattern = codes "*";
    sample_rate = fl.rate_one;
    max_per_second = fl.nan;
    text = [];
  }

  -- `Rule(config, clock)`.
  unfoldable pub make_rule : RuleConfig D → ℕ → Rule D
  make_rule config now = record {
    config = config;
    limiter =
        if fl.is_nan config.max_per_second
        then none
        else some (make_limiter_per_second fl now config.max_per_second);
  }

  -- `Rule::match`.
  unfoldable pub rule_match : Rule D → SpanData D → Bool
  rule_match rule span =
      is_match rule.config.service_pattern span.service
      && is_match rule.config.operation_name_pattern span.name

  -- `Rule::roll`.
  unfoldable pub roll : Rule D → SpanData D → Bool
  roll rule span = ltb (hashed_id span.span_id) (max_id_from_sample_rate fl rule.config.sample_rate)

  -- `Rule::allow`.
  unfoldable pub rule_allow : ℕ → Rule D → Rule D × Bool
  rule_allow now rule = elim rule.limiter [
    | none ↦ (rule, true)
    | some l ↦ (record rule { limiter = some (allow fl now l).0 }, (allow fl now l).1.allowed)
  ]

  -- `Rule::sample`: `roll(span) && allow()`.
  unfoldable pub rule_sample : ℕ → Rule D → SpanData D → Rule D × Bool
  unfolding roll rule_allow
  rule_sample now rule span = if roll rule span then rule_allow now rule else (rule, false)

  -- `SpanSampler::match`: where the first rule that matches stands.
  unfoldable pub match_span : List (Rule D) → SpanData D → Option ℕ
  match_span [] span = none
  match_span (rule ∷ rules) span =
      let rest : Option ℕ = elim (match_span rules span) [ none ↦ none | some i ↦ some (suc i) ] in
      if rule_match rule span then some zero else rest
