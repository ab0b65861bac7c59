-- ===== src/Glob/Cursor.antt =====
-- One pass of the loop, described by what is left of the pattern and of the subject.
use dd_opentracing_cpp.Prelude.{
  ℕ, zero, suc, ◌≤◌, ◌<◌, ◌≡◌, ◌≢◌, refl, List, [], ◌∷◌, inl, inr, true, none, some, arith, length,
  get_elem?, drop, Option-cases, Text, lt→ltb, ap,
}
use dd_opentracing_cpp.Glob.{star, question, Pass, again, stop, restart, compare_at, pass}
use dd_opentracing_cpp.Glob.Spec.{Accepts, Matches, byte_inv, needs_byte}
use native.Mathlib.Decide.{ℕ_discrete}

module _ {ℓ} {A : Type ℓ} where
  pub drop-some :
      (xs : List A) (i : ℕ) {x : A} → get_elem? xs i ≡ some x → drop i xs ≡ x ∷ drop (suc i) xs
  drop-some [] i h = cc
  drop-some (y ∷ xs) zero h = ground arith
  drop-some (y ∷ xs) (suc i) h = drop-some xs i h

  pub drop-none : (xs : List A) (i : ℕ) → get_elem? xs i ≡ none → drop i xs ≡ []
  drop-none [] zero h = refl
  drop-none [] (suc i) h = refl
  drop-none (y ∷ xs) zero h = cc
  drop-none (y ∷ xs) (suc i) h = drop-none xs i h

  pub in_range : (xs : List A) (i : ℕ) {x : A} → get_elem? xs i ≡ some x → i < length xs
  in_range [] i h = cc
  in_range (y ∷ xs) zero h = omega arith
  in_range (y ∷ xs) (suc i) h = omega (arith, in_range xs i h)

  pub out_of_range : (xs : List A) (i : ℕ) → get_elem? xs i ≡ none → length xs ≤ i
  out_of_range [] i h = omega arith
  out_of_range (y ∷ xs) zero h = cc
  out_of_range (y ∷ xs) (suc i) h = omega (arith, out_of_range xs i h)

  pub past_end : (xs : List A) (i : ℕ) → length xs ≤ i → get_elem? xs i ≡ none
  past_end [] i h = refl
  past_end (y ∷ xs) zero h = absurd (omega arith)
  past_end (y ∷ xs) (suc i) h = past_end xs i (omega arith)

module _ (pattern_text subject : Text) where
  -- The four things that a pass can do.
  pub data View (p s next_p next_s : ℕ) (r : Pass) : Type 0 where
    finish :
        drop p pattern_text ≡ [] → drop s subject ≡ [] → r ≡ stop true → View p s next_p next_s r
    at_star :
        get_elem? pattern_text p ≡ some star
        → r ≡ again (suc p) s p (suc s)
        → View p s next_p next_s r
    advance :
        (c x : ℕ)
        → get_elem? pattern_text p ≡ some c
        → get_elem? subject s ≡ some x
        → Accepts c x
        → r ≡ again (suc p) (suc s) next_p next_s
        → View p s next_p next_s r
    mismatch :
        ¬ Matches (drop p pattern_text) (drop s subject)
        → r ≡ restart subject next_p next_s
        → View p s next_p next_s r

  no_byte :
      (p s : ℕ) (c : ℕ)
      → get_elem? pattern_text p ≡ some c
      → get_elem? subject s ≡ none
      → c ≢ star
      → ¬ Matches (drop p pattern_text) (drop s subject)
  no_byte p s c hp hs n =
      rw (drop-some pattern_text p hp, drop-none subject s hs) λ d. needs_byte d n

  other_byte :
      (p s : ℕ) (c x : ℕ)
      → get_elem? pattern_text p ≡ some c
      → get_elem? subject s ≡ some x
      → c ≢ star
      → ¬ Accepts c x
      → ¬ Matches (drop p pattern_text) (drop s subject)
  other_byte p s c x hp hs n r =
      rw (drop-some pattern_text p hp, drop-some subject s hs) λ d. r (byte_inv d n).0

  no_pattern :
      (p s : ℕ) (x : ℕ)
      → get_elem? pattern_text p ≡ none
      → get_elem? subject s ≡ some x
      → ¬ Matches (drop p pattern_text) (drop s subject)
  no_pattern p s x hp hs = rw (drop-none pattern_text p hp, drop-some subject s hs) λ d. elim d [ ]

  compare_at-View :
      (p s next_p next_s c : ℕ)
      → get_elem? pattern_text p ≡ some c
      → View p s next_p next_s (compare_at pattern_text subject c p s next_p next_s)
  unfolding compare_at
  compare_at-View p s next_p next_s c hp = elim (ℕ_discrete c star) [
    | yes e ↦ at_star (rw hp (ap some e)) (ground arith)
    | no n ↦ elim (Option-cases (get_elem? subject s)) [
      | inl hs ↦ mismatch (no_byte p s c hp hs n) (ground (arith, out_of_range subject s hs))
      | inr (x, hs) ↦ elim (ℕ_discrete c question) [
        | yes q ↦ advance c x hp hs (n, inl q) (ground (arith, in_range subject s hs))
        | no m ↦ elim (ℕ_discrete x c) [
          | yes w ↦ advance c x hp hs (n, inr w) (ground arith)
          | no w ↦ mismatch (other_byte p s c x hp hs n (ground arith)) (ground arith)
        ]
      ]
    ]
  ]

  pub pass-View :
      (p s next_p next_s : ℕ) → View p s next_p next_s (pass pattern_text subject p s next_p next_s)
  unfolding pass
  pass-View p s next_p next_s = elim (Option-cases (get_elem? pattern_text p)) [
    | inr (c, hp) ↦
        rw (hp, pass, lt→ltb _ _ (in_range pattern_text p hp))
          (compare_at-View p s next_p next_s c hp)
    | inl hp ↦ elim (Option-cases (get_elem? subject s)) [
      | inl hs ↦
          finish (drop-none pattern_text p hp) (drop-none subject s hs)
            (ground (arith, out_of_range pattern_text p hp, out_of_range subject s hs))
      | inr (x, hs) ↦ mismatch (no_pattern p s x hp hs) (ground (arith, in_range subject s hs))
    ]
  ]

  pub pass_at_star :
      (p s next_p next_s : ℕ)
      → get_elem? pattern_text p ≡ some star
      → pass pattern_text subject p s next_p next_s ≡ again (suc p) s p (suc s)
  unfolding pass compare_at
  pass_at_star p s next_p next_s e =
      rw (e, pass, lt→ltb _ _ (in_range pattern_text p e)) (ground arith)
