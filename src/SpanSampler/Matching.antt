-- ===== src/SpanSampler/Matching.antt =====
-- Which spans a rule matches, and which rule a span gets.
use dd_opentracing_cpp.Prelude.{
  ℕ, zero, suc, ◌<◌, ◌≡◌, refl, ◌↔◌, ◌⊎◌, inl, inr, Bool, true, false, ◌&&◌, ◌||◌, Option, none,
  some, List, [], ◌∷◌, Text, codes, same→eq, text_eq, arith, get_elem?, Bool-cases,
}
use dd_opentracing_cpp.Floats.{Floats}
use dd_opentracing_cpp.Glob.{glob_match}
use dd_opentracing_cpp.Glob.Spec.{Matches, empty, skip, absorb}
use dd_opentracing_cpp.Glob.Decision.{Decides, glob_match-Decides}
use dd_opentracing_cpp.SpanData.{SpanData}
use dd_opentracing_cpp.SpanSampler.{Rule, answer, is_match, rule_match, match_span}

Matches-any : (subject : Text) → Matches (codes "*") subject
Matches-any [] = skip refl empty
Matches-any (x ∷ subject) = absorb refl (Matches-any subject)

answer-Decides : {G : Type 0} (r : Option Bool) → Decides G r → (answer r ≡ true) ↔ G
answer-Decides none h = absurd h
answer-Decides (some true) h = (λ _. h, λ _. refl)
answer-Decides (some false) h = (λ e. cc, λ g. absurd (h g))

or_left : (b c : Bool) → (b || c) ≡ true → (b ≡ true) ⊎ (c ≡ true)
or_left b c h = ground arith

or_true : (b : Bool) → (b || true) ≡ true
or_true true = refl
or_true false = refl

-- The shortcut for the pattern "*" changes nothing: `is_match` holds exactly where the subject
-- matches the glob pattern.
pub is_match_iff :
    (pattern_text subject : Text)
    → (is_match pattern_text subject ≡ true) ↔ Matches pattern_text subject
unfolding is_match
is_match_iff pattern_text subject = (
  λ h. elim (or_left _ _ h) [
    | inl e ↦ rw (same→eq pattern_text (codes "*") e) (Matches-any subject)
    | inr e ↦
        (answer-Decides (glob_match pattern_text subject)
            (glob_match-Decides pattern_text subject)).0
          e
  ],
  λ g.
      rw
        ((answer-Decides (glob_match pattern_text subject)
            (glob_match-Decides pattern_text subject)).1
          g)
        (or_true _),
)

and_iff : (b c : Bool) → ((b && c) ≡ true) ↔ ((b ≡ true) × (c ≡ true))
and_iff true c = (λ e. (refl, e), λ h. h.1)
and_iff false c = (λ e. cc, λ h. cc)

module _ {D : Type 0} (fl : Floats D) where
  -- A rule matches a span exactly if its two glob patterns match the span's service and name.
  rule_match_iff :
      (rule : Rule D) (span : SpanData D)
      → (rule_match fl rule span ≡ true) ↔ (
          Matches rule.config.service_pattern span.service
          × Matches rule.config.operation_name_pattern span.name)
  unfolding rule_match
  rule_match_iff rule span =
      let s = is_match_iff rule.config.service_pattern span.service in
      let n = is_match_iff rule.config.operation_name_pattern span.name in
      let b =
        and_iff (is_match rule.config.service_pattern span.service)
          (is_match rule.config.operation_name_pattern span.name) in
      (λ e. (s.0 (b.0 e).0, n.0 (b.0 e).1), λ h. b.1 (s.1 h.0, n.1 h.1))

  -- No rule before the given place matches.
  abbrev pub NoneBefore : ℕ → List (Rule D) → SpanData D → Type 0
  NoneBefore i rules span =
      (j : ℕ) (rule : Rule D)
      → j < i
      → get_elem? rules j ≡ some rule
      → rule_match fl rule span ≡ false

  match_span-suc :
      (rule : Rule D) (rules : List (Rule D)) (span : SpanData D) (i : ℕ)
      → rule_match fl rule span ≡ false
      → NoneBefore i rules span
      → NoneBefore (suc i) (rule ∷ rules) span
  match_span-suc rule rules span i h n zero r lt e = ground arith
  match_span-suc rule rules span i h n (suc j) r lt e = n j r (omega arith) e

  match_all :
      (rule : Rule D) (rules : List (Rule D)) (span : SpanData D)
      → rule_match fl rule span ≡ false
      → ((j : ℕ) (r : Rule D) → get_elem? rules j ≡ some r → rule_match fl r span ≡ false)
      → (j : ℕ) (r : Rule D) → get_elem? (rule ∷ rules) j ≡ some r
      → rule_match fl r span ≡ false
  match_all rule rules span h n zero r e = ground arith
  match_all rule rules span h n (suc j) r e = n j r e

  -- `match` returns the first rule of the list that matches the span, and none exactly if no rule
  -- matches.
  match_span_first :
      (rules : List (Rule D)) (span : SpanData D)
      → ((match_span fl rules span ≡ none)
          × ((j : ℕ) (rule : Rule D)
              → get_elem? rules j ≡ some rule
              → rule_match fl rule span ≡ false))
        ⊎ ((i : ℕ) × (rule : Rule D) × (match_span fl rules span ≡ some i)
            × (get_elem? rules i ≡ some rule)
            × (rule_match fl rule span ≡ true)
            × NoneBefore i rules span)
  unfolding match_span
  match_span_first [] span = inl (refl, λ j rule e. cc)
  match_span_first (rule ∷ rules) span = elim (Bool-cases (rule_match fl rule span)) [
    | inl h ↦ inr (zero, rule, rw h, refl, h, λ j r lt e. absurd (omega arith))
    | inr h ↦ elim (match_span_first rules span) [
      | inl (e, n) ↦ inl (rw (h, e), match_all rule rules span h n)
      | inr (i, r, e, g, m, n) ↦
          inr (suc i, r, rw (h, e), g, m, match_span-suc rule rules span i h n)
    ]
  ]
