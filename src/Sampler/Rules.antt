-- ===== src/Sampler/Rules.antt =====
-- The order in which the rules sampler of src/sample.cpp consults its rules.
use dd_opentracing_cpp.Prelude.{◌≡◌, refl, List, [], ◌∷◌, ◌++◌, if◌then◌else◌, arith, Text}
use dd_opentracing_cpp.Floats.{Floats}
use dd_opentracing_cpp.Sampler.{RuleFunc, RulesSampler, add_rule, match_rules}

module _ {D : Type 0} (fl : Floats D) where
  pub match_rules-append :
      (rules : List (RuleFunc D)) (f : RuleFunc D) (service name : Text)
      → match_rules fl (rules ++ f ∷ []) service name ≡ (
          if (match_rules fl rules service name).matched
          then match_rules fl rules service name
          else match_rules fl (f ∷ []) service name)
  unfolding match_rules
  match_rules-append [] f service name = refl
  match_rules-append (g ∷ rules) f service name =
      ground (arith, match_rules-append rules f service name)

  -- A rule that `addRule` added last is consulted only where no earlier rule matches.
  match_rules-add_rule :
      (f : RuleFunc D) (s : RulesSampler D) (service name : Text)
      → match_rules fl (add_rule fl f s).sampling_rules service name ≡ (
          if (match_rules fl s.sampling_rules service name).matched
          then match_rules fl s.sampling_rules service name
          else match_rules fl (f ∷ []) service name)
  unfolding add_rule
  match_rules-add_rule f s service name = match_rules-append s.sampling_rules f service name
