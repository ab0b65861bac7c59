-- ===== src/Glob/Decision.antt =====
-- The search of `glob_match` in src/glob.cpp: its invariant, and its answer.
use dd_opentracing_cpp.Prelude.{
  ℕ, zero, suc, ◌+◌, ◌-◌, ◌*◌, ◌≤◌, ◌<◌, ◌≡◌, refl, ◌∷◌, ◌↔◌, ◌⊎◌, inl, inr, Bool, true, false,
  Option, none, some, arith, length, get_elem?, drop, Text, Option-cases,
}
use native.Mathlib.Decide.{dec_lt}
use dd_opentracing_cpp.Glob.{star, again, stop, restart, loop, glob_match}
use dd_opentracing_cpp.Glob.Spec.{
  Accepts, Matches, empty, byte, skip, absorb, byte_inv, star_at_end, must_absorb, merge_stars,
  drop_byte,
}
use dd_opentracing_cpp.Glob.Cursor.{
  drop-some, drop-none, in_range, out_of_range, past_end, pass_at_star, finish, at_star, advance,
  mismatch, pass-View,
}

-- The run ended with an answer, and the answer is right about `G`.
abbrev pub Decides : Type 0 → Option Bool → Type 0
Decides G none = ⊥
Decides G (some true) = G
Decides G (some false) = ¬ G

module _ (pattern_text subject : Text) where
  abbrev Left : ℕ → ℕ → Type 0
  Left p s = Matches (drop p pattern_text) (drop s subject)

  -- `G` is the question asked at the start.
  module _ (G : Type 0) where
    -- What the saved position means: the star at `next_p` last began to match at `next_s - 1`.
    -- `m` bounds the subject that is left to that star.
    abbrev Saved : ℕ → ℕ → ℕ → ℕ → ℕ → Type 0
    Saved m p s next_p zero = G → Left p s
    Saved m p s next_p (suc b) =
        (get_elem? pattern_text next_p ≡ some star)
        × (G ↔ Left next_p b)
        × (Left (suc next_p) b → Left p s)
        × (b ≤ length subject)
        × (length subject ≤ b + m)

    record Inv (fuel m q p s next_p next_s : ℕ) : Type 0 where
      now : Left p s → G
      later : G → Matches (star ∷ drop p pattern_text) (drop s subject)
      saved : Saved m p s next_p next_s
      text_bound : length subject ≤ s + m
      within : s ≤ length subject
      pattern_bound : length pattern_text ≤ p + q
      enough : m * (length pattern_text + 2) + q < fuel

    Left-star :
        (p s : ℕ)
        → get_elem? pattern_text p ≡ some star
        → Left p s
        → Matches (star ∷ drop (suc p) pattern_text) (drop s subject)
    Left-star p s e d = rw (drop-some pattern_text p e) at d

    -- A start at the star at `p` when the question is whether what is left there matches.
    Inv-star :
        (fuel m q p s : ℕ)
        → get_elem? pattern_text p ≡ some star
        → G ↔ Left p s
        → length subject ≤ s + m
        → s ≤ length subject
        → length pattern_text ≤ suc p + q
        → m * (length pattern_text + 2) + q < fuel
        → Inv fuel m q (suc p) s p (suc s)
    Inv-star fuel m q p s e g ht hw hp hf = record {
      now = λ d. g.1 (rw (drop-some pattern_text p e) (skip refl d));
      later = λ x. Left-star p s e (g.0 x);
      saved = (e, g, λ d. d, hw, ht);
      text_bound = ht;
      within = hw;
      pattern_bound = hp;
      enough = hf;
    }

    module _ (p s c x : ℕ) (hp : get_elem? pattern_text p ≡ some c)
        (hs : get_elem? subject s ≡ some x) (a : Accepts c x) where
      Left-byte : Left p s → Left (suc p) (suc s)
      Left-byte d = (byte_inv (rw (drop-some pattern_text p hp, drop-some subject s hs) at d) a.0).1

      Saved-advance :
          (m next_p next_s : ℕ) → Saved m p s next_p next_s → Saved m (suc p) (suc s) next_p next_s
      Saved-advance m next_p zero h = λ g. Left-byte (h g)
      Saved-advance m next_p (suc b) (e, g, down, hb, hm) = (e, g, λ d. Left-byte (down d), hb, hm)

      Inv-advance :
          (fuel m q next_p next_s : ℕ)
          → Inv (suc fuel) m q p s next_p next_s
          → Inv fuel m (q - 1) (suc p) (suc s) next_p next_s
      Inv-advance fuel m q next_p next_s i = record {
        now = λ d. i.now (rw (drop-some pattern_text p hp, drop-some subject s hs) (byte a d));
        later = λ g.
            drop_byte (drop (suc s) subject) refl a.0
              (rw (drop-some pattern_text p hp, drop-some subject s hs) at (i.later g));
        saved = Saved-advance m next_p next_s i.saved;
        text_bound = omega (arith, i.text_bound);
        within = omega (arith, in_range subject s hs);
        pattern_bound = omega (arith, in_range pattern_text p hp);
        enough = omega (arith, in_range pattern_text p hp);
      }

    -- Just after a restart: the question is whether the star at `p` matches from `s` on.
    record Fresh (fuel m p s : ℕ) : Type 0 where
      starred : get_elem? pattern_text p ≡ some star
      asks : G ↔ Left p s
      text_bound : length subject ≤ s + m
      within : s ≤ length subject
      enough : m * (length pattern_text + 2) + length pattern_text + 1 < fuel

    Inv-pred :
        (fuel m q p s next_p b : ℕ)
        → Inv fuel m q p s next_p (suc b)
        → b < length subject
        → Inv fuel (suc (m - 1)) q p s next_p (suc b)
    Inv-pred fuel m q p s next_p b i h =
        let (_, _, _, _, hm) = i.saved in let e : m ≡ suc (m - 1) = omega arith in rw (← e) i

    Fresh-restart :
        (fuel m q p s next_p b : ℕ)
        → Inv (suc fuel) (suc m) q p s next_p (suc b)
        → ¬ Left p s
        → b < length subject
        → Fresh fuel m next_p (suc b)
    Fresh-restart fuel m q p s next_p b i n h = elim (Option-cases (get_elem? subject b)) [
      | inl hs ↦ absurd (omega (arith, out_of_range subject b hs))
      | inr (x, hs) ↦
          let (e, g, down, _, hm) = i.saved in
          record {
            starred = e;
            asks = (
              λ y. rw (drop-some pattern_text next_p e) (
                  must_absorb refl
                    (rw (drop-some pattern_text next_p e, drop-some subject b hs) at (g.0 y))
                    (λ d. n (down (rw (drop-some subject b hs) d)))),
              λ d. g.1 (
                  rw (drop-some pattern_text next_p e, drop-some subject b hs)
                    (absorb refl (Left-star next_p (suc b) e d))),
            );
            text_bound = omega arith;
            within = h;
            enough = omega (arith, i.enough);
          }
    ]

    exhausted :
        (fuel m q p s next_p b : ℕ)
        → Inv fuel m q p s next_p (suc b)
        → ¬ Left p s
        → length subject ≤ b
        → ¬ G
    exhausted fuel m q p s next_p b i n h y =
        let (e, g, down, _, _) = i.saved in
        let none_left : get_elem? subject b ≡ none = past_end subject b h in
        n (
          down (
            rw (drop-none subject b none_left) (
              star_at_end
                (rw (drop-some pattern_text next_p e, drop-none subject b none_left) at (g.0 y)))))

    -- A restart after a mismatch either gives up, rightly, or asks the same of less text.
    restart_cases :
        (fuel m q p s next_p next_s : ℕ)
        → Inv (suc fuel) m q p s next_p next_s
        → ¬ Left p s
        → ((restart subject next_p next_s ≡ stop false) × ¬ G)
          ⊎ ((m' : ℕ) × (restart subject next_p next_s ≡ again next_p next_s next_p next_s)
              × Fresh fuel m' next_p next_s)
    unfolding restart
    restart_cases fuel m q p s next_p zero i n = inl (refl, λ y. n (i.saved y))
    restart_cases fuel m q p s next_p (suc b) i n = elim (dec_lt b (length subject)) [
      | no h ↦ inl (ground arith, exhausted (suc fuel) m q p s next_p b i n (omega arith))
      | yes h ↦ inr (
        m - 1,
        ground arith,
        Fresh-restart fuel (m - 1) q p s next_p b (Inv-pred (suc fuel) m q p s next_p b i h) n h,
      )
    ]

    -- At a star the greedy choice asks no more than the start did.
    asked :
        {fuel : ℕ} (m q p s next_p next_s : ℕ)
        → get_elem? pattern_text p ≡ some star
        → Inv fuel m q p s next_p next_s
        → G ↔ Left p s
    asked m q p s next_p next_s e i = (
      λ y.
          rw (drop-some pattern_text p e)
            (merge_stars refl refl (rw (drop-some pattern_text p e) at (i.later y))),
      i.now,
    )

    loop-Decides :
        (fuel m q p s next_p next_s : ℕ)
        → Inv fuel m q p s next_p next_s ⊎ Fresh fuel m p s
        → Decides G (loop pattern_text subject fuel p s next_p next_s)
    unfolding loop
    loop-Decides zero m q p s next_p next_s (inl i) = absurd (omega (arith, i.enough))
    loop-Decides zero m q p s next_p next_s (inr i) = absurd (omega (arith, i.enough))
    loop-Decides (suc fuel) m q p s next_p next_s (inl i) =
        elim (pass-View pattern_text subject p s next_p next_s) [
          | finish ep es e ↦ rw (e, loop) (i.now (rw (ep, es) empty))
          | at_star e r ↦
              rw (r, loop)
                (loop-Decides fuel m (q - 1) (suc p) s p (suc s) (
                  inl (
                    Inv-star fuel m (q - 1) p s e (asked m q p s next_p next_s e i) i.text_bound
                      i.within (omega (arith, in_range pattern_text p e))
                      (omega (arith, in_range pattern_text p e, i.enough)))))
          | advance c x hp hs a r ↦
              rw (r, loop)
                (loop-Decides fuel m (q - 1) (suc p) (suc s) next_p next_s
                  (inl (Inv-advance p s c x hp hs a fuel m q next_p next_s i)))
          | mismatch n r ↦
              rw (r, loop)
                (elim (restart_cases fuel m q p s next_p next_s i n) [
                  | inl (e, none_left) ↦ rw e none_left
                  | inr (m', e, fresh) ↦
                      rw e (loop-Decides fuel m' q next_p next_s next_p next_s (inr fresh))
                ])
        ]
    loop-Decides (suc fuel) m q p s next_p next_s (inr i) =
        rw (pass_at_star pattern_text subject p s next_p next_s i.starred, loop)
          (loop-Decides fuel m (length pattern_text) (suc p) s p (suc s) (
            inl (
              Inv-star fuel m (length pattern_text) p s i.starred i.asks i.text_bound i.within
                (omega arith) (omega (arith, i.enough)))))

-- `glob_match` stops within its fuel, and returns `true` if the subject matches the pattern and
-- `false` if it does not.
pub glob_match-Decides :
    (pattern_text subject : Text)
    → Decides (Matches pattern_text subject) (glob_match pattern_text subject)
unfolding glob_match
glob_match-Decides pattern_text subject =
    loop-Decides pattern_text subject (Matches pattern_text subject) _ (length subject)
      (length pattern_text) 0 0 0 0
      (inl (record {
        now = λ d. d;
        later = λ d. skip refl d;
        saved = λ d. d;
        text_bound = omega arith;
        within = omega arith;
        pattern_bound = omega arith;
        enough = omega arith;
      }))
