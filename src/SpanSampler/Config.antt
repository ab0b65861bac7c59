-- ===== src/SpanSampler/Config.antt =====
-- `SpanSampler::configure`: rules from JSON text. A rule that is not valid is skipped with a line
-- in the log, which is the text before the dump of the element.
pub mod Valid
use dd_opentracing_cpp.Prelude.{
  ℕ, suc, Bool, true, false, not, ◌&&◌, Option, none, some, List, [], ◌∷◌, ◌++◌, if◌then◌else◌,
  Text, codes, length,
}
use dd_opentracing_cpp.Floats.{Floats}
use dd_opentracing_cpp.Json.{Json}
use dd_opentracing_cpp.SpanSampler.{RuleConfig, Rule, default_config, make_rule}

-- What is wrong with an element of the array, or with the whole text.
pub data Complaint : Type 0 where
  unexpected_element_type : Complaint
  service_not_string name_not_string : Complaint
  sample_rate_not_number sample_rate_out_of_range : Complaint
  max_per_second_not_number max_per_second_not_positive : Complaint
  missing_sample_rate : Complaint
  unable_to_parse : Complaint

pub data Checked {ℓ} (A : Type ℓ) : Type ℓ where
  ok : A → Checked A
  invalid : Complaint → Checked A

infixl 5 ◌>>=◌
abbrev pub ◌>>=◌ {ℓ κ} : {A : Type ℓ} {B : Type κ} → Checked A → (A → Checked B) → Checked B
ok a >>= f = f a
invalid e >>= f = invalid e

abbrev pub check {ℓ} : {A : Type ℓ} → Bool → A → Complaint → Checked A
check true a e = ok a
check false a e = invalid e

module _ {J D : Type 0} (fl : Floats D) (js : Json J D) where
  abbrev pub string_of : J → Complaint → Checked Text
  string_of v e = elim (js.as_string v) [ none ↦ invalid e | some s ↦ ok s ]

  abbrev pub number_of : J → Complaint → Checked D
  number_of v e = elim (js.as_number v) [ none ↦ invalid e | some n ↦ ok n ]

  unfoldable pub read_service : J → RuleConfig D → Checked (RuleConfig D)
  read_service rule_json config = elim (js.member (codes "service") rule_json) [
    | none ↦ ok config
    | some v ↦ string_of v service_not_string >>= λ s. ok (record config { service_pattern = s })
  ]

  unfoldable pub read_name : J → RuleConfig D → Checked (RuleConfig D)
  read_name rule_json config = elim (js.member (codes "name") rule_json) [
    | none ↦ ok config
    | some v ↦
        string_of v name_not_string >>= λ s. ok (record config { operation_name_pattern = s })
  ]

  unfoldable pub read_sample_rate : J → RuleConfig D → Checked (RuleConfig D)
  read_sample_rate rule_json config = elim (js.member (codes "sample_rate") rule_json) [
    | none ↦ ok config
    | some v ↦ number_of v sample_rate_not_number >>= λ rate.
        check (fl.le fl.rate_zero rate && fl.le rate fl.rate_one)
          (record config { sample_rate = rate }) sample_rate_out_of_range
  ]

  unfoldable pub read_max_per_second : J → RuleConfig D → Checked (RuleConfig D)
  read_max_per_second rule_json config = elim (js.member (codes "max_per_second") rule_json) [
    | none ↦ ok config
    | some v ↦ number_of v max_per_second_not_number >>= λ limit.
        check (not (fl.le limit fl.rate_zero)) (record config { max_per_second = limit })
          max_per_second_not_positive
  ]

  -- One pass of the loop over the array, up to `emplace_back`.
  unfoldable pub read_rule : J → Checked (RuleConfig D)
  unfolding read_service read_name read_sample_rate read_max_per_second
  read_rule rule_json = do
    object ← check (js.is_object rule_json) (default_config fl) unexpected_element_type
    with_service ← read_service rule_json object
    with_name ← read_name rule_json with_service
    with_rate ← read_sample_rate rule_json with_name
    with_limit ← read_max_per_second rule_json with_rate
    ok (record with_limit { text = js.dump rule_json })

  -- The loop. `clock k` is the reading for the rule that becomes the `k`-th.
  unfoldable pub read_rules :
      (ℕ → ℕ) → List J → List (Rule D) → List Complaint → List (Rule D) × List Complaint
  unfolding read_rule
  read_rules clock [] rules log = (rules, log)
  read_rules clock (item ∷ items) rules log = elim (read_rule item) [
    | ok config ↦
        read_rules clock items (rules ++ make_rule fl config (clock (length rules)) ∷ []) log
    | invalid e ↦ read_rules clock items rules (log ++ e ∷ [])
  ]

  -- `SpanSampler::configure`, whatever the rules were before.
  unfoldable pub configure_spans : (ℕ → ℕ) → Text → List (Rule D) × List Complaint
  unfolding read_rules
  configure_spans clock raw_json = elim (js.parse raw_json) [
    | none ↦ ([], unable_to_parse ∷ [])
    | some config_json ↦ read_rules clock (js.items config_json) [] []
  ]
