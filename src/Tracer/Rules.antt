-- ===== src/Tracer/Rules.antt =====
-- `Tracer::configureRulesSampler` of src/tracer.cpp: the sampling rules of the options.
pub mod Matched
use dd_opentracing_cpp.Prelude.{
  ℕ, Bool, true, false, not, ◌&&◌, ◌||◌, Option, none, some, List, [], ◌∷◌, ◌++◌, Text, codes,
  if◌then◌else◌, text_eq, same,
}
use dd_opentracing_cpp.Floats.{Floats}
use dd_opentracing_cpp.Json.{Json}
use dd_opentracing_cpp.Sampler.{RuleResult, RuleFunc, RulesSampler, add_rule}

-- What is wrong with an item, or with the whole text.
pub data RuleComplaint : Type 0 where
  unexpected_item missing_sample_rate : RuleComplaint
  invalid_type_for_sample_rate invalid_value_for_sample_rate : RuleComplaint
  unable_to_parse_json : RuleComplaint

-- What a rule's function captures.
pub record TraceRule (D : Type 0) : Type 0 where
  pub service : Option Text
  pub name : Option Text
  pub rate : D

pub data ReadRule (D : Type 0) : Type 0 where
  valid : TraceRule D → ReadRule D
  skipped : RuleComplaint → ReadRule D

module _ {D : Type 0} (fl : Floats D) where
  -- `{true, sample_rate}` and `{false, nan}`.
  abbrev pub hit : D → RuleResult D
  hit rate = record { matched = true; rate = rate }

  abbrev pub miss : RuleResult D
  miss = record { matched = false; rate = fl.nan }

  -- The four lambdas.
  abbrev pub rule_function : Option Text → Option Text → D → RuleFunc D
  rule_function (some svc) (some nm) rate service name =
      if same service svc && same name nm then hit rate else miss
  rule_function (some svc) none rate service name = if same service svc then hit rate else miss
  rule_function none (some nm) rate service name = if same name nm then hit rate else miss
  rule_function none none rate service name = hit rate

  -- The rule for all traces that `sample_rate` of the options makes.
  unfoldable pub add_catch_all : D → RulesSampler D → RulesSampler D
  add_catch_all sample_rate s =
      if not (fl.is_nan sample_rate) then add_rule fl (rule_function none none sample_rate) s else s

module _ {J D : Type 0} (fl : Floats D) (js : Json J D) where
  -- `rule.contains(key) && rule.at(key).is_string()`, and the string.
  abbrev pub text_member : Text → J → Option Text
  text_member key rule = elim (js.member key rule) [ none ↦ none | some v ↦ js.as_string v ]

  -- One pass of the loop.
  unfoldable pub read_trace_rule : J → ReadRule D
  read_trace_rule rule =
      if not (js.is_object rule)
      then skipped unexpected_item
      else elim (js.member (codes "sample_rate") rule) [
        | none ↦ skipped missing_sample_rate
        | some v ↦ elim (js.as_number v) [
          | none ↦ skipped invalid_type_for_sample_rate
          | some rate ↦
              if not (fl.le fl.rate_zero rate && fl.le rate fl.rate_one)
              then skipped invalid_value_for_sample_rate
              else valid (record {
                service = text_member (codes "service") rule;
                name = text_member (codes "name") rule;
                rate = rate;
              })
        ]
      ]

  abbrev pub add_read : ReadRule D → RulesSampler D → RulesSampler D
  add_read (valid r) s = add_rule fl (rule_function fl r.service r.name r.rate) s
  add_read (skipped c) s = s

  unfoldable pub add_trace_rules : List J → RulesSampler D → RulesSampler D
  unfolding read_trace_rule add_rule
  add_trace_rules [] s = s
  add_trace_rules (item ∷ items) s = add_trace_rules items (add_read (read_trace_rule item) s)

  -- The items that are logged.
  unfoldable pub trace_rule_complaints : List J → List RuleComplaint
  trace_rule_complaints [] = []
  trace_rule_complaints (item ∷ items) = elim (read_trace_rule item) [
    | valid r ↦ trace_rule_complaints items
    | skipped c ↦ c ∷ trace_rule_complaints items
  ]

  -- `configureRulesSampler`, for the options `sampling_rules` and `sample_rate`.
  unfoldable pub configure_rules_sampler :
      Text → D → RulesSampler D → RulesSampler D × List RuleComplaint
  unfolding add_trace_rules trace_rule_complaints add_catch_all
  configure_rules_sampler sampling_rules sample_rate s = elim (js.parse sampling_rules) [
    | none ↦ (add_catch_all fl sample_rate s, unable_to_parse_json ∷ [])
    | some config ↦ (
      add_catch_all fl sample_rate (add_trace_rules (js.items config) s),
      trace_rule_complaints (js.items config),
    )
  ]
