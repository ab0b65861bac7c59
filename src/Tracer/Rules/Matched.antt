-- ===== src/Tracer/Rules/Matched.antt =====
-- Which rate the rules of src/tracer.cpp give a trace.
use dd_opentracing_cpp.Prelude.{
  codes, Bool, true, ◌&&◌, Option, none, some, List, [], ◌∷◌, Text, if◌then◌else◌, text_eq, same,
}
use dd_opentracing_cpp.Floats.{Floats}
use dd_opentracing_cpp.Json.{Json}
use dd_opentracing_cpp.Sampler.{RuleResult}
use dd_opentracing_cpp.Tracer.Rules.{text_member, TraceRule, ReadRule, valid, skipped, hit, miss}

-- A rule that names a service or an operation applies to no other.
abbrev pub agrees : Option Text → Text → Bool
agrees none x = true
agrees (some y) x = same x y

abbrev pub applies : {D : Type 0} → TraceRule D → Text → Text → Bool
applies r service name = agrees r.service service && agrees r.name name

module _ {D : Type 0} (fl : Floats D) where
  -- A result, or else another.
  abbrev pub or_rule : RuleResult D → RuleResult D → RuleResult D
  or_rule r q = if r.matched then r else q

module _ {J D : Type 0} (fl : Floats D) (js : Json J D) where
  -- The rate of an item that is an object with a number from 0 to 1 as its `sample_rate`.
  unfoldable pub item_rate : J → Option D
  item_rate item =
      if js.is_object item
      then elim (js.member (codes "sample_rate") item) [
        | none ↦ none
        | some v ↦ elim (js.as_number v) [
          | none ↦ none
          | some rate ↦
              if fl.le fl.rate_zero rate && fl.le rate fl.rate_one then some rate else none
        ]
      ]
      else none

  -- An item that names a service or an operation applies to no other.
  abbrev pub item_applies : J → Text → Text → Bool
  item_applies item service name =
      agrees (text_member fl js (codes "service") item) service
      && agrees (text_member fl js (codes "name") item) name

  abbrev pub rate_if : Bool → Option D → Option D → Option D
  rate_if applies none rest = rest
  rate_if applies (some rate) rest = if applies then some rate else rest

  -- The rate of the first item that has one and applies.
  unfoldable pub first_rate : List J → Text → Text → Option D
  first_rate [] service name = none
  first_rate (item ∷ items) service name =
      rate_if (item_applies item service name) (item_rate item) (first_rate items service name)

  -- The rate of an item that is valid and applies, or else another.
  abbrev first_of : ReadRule D → Text → Text → Option D → Option D
  first_of (valid r) service name rest = if applies r service name then some r.rate else rest
  first_of (skipped c) service name rest = rest

  -- The items of a text; none if it cannot be parsed.
  unfoldable pub rule_items : Text → List J
  rule_items text = elim (js.parse text) [ none ↦ [] | some config ↦ js.items config ]

  abbrev pub found : Option D → RuleResult D
  found (some rate) = hit fl rate
  found none = miss fl

  -- The rate for a trace: that of an item, or else the catch-all rate.
  abbrev pub rate_for : Option D → D → Option D
  rate_for (some rate) sample_rate = some rate
  rate_for none sample_rate = if fl.is_nan sample_rate then none else some sample_rate
