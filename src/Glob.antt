-- ===== src/Glob.antt =====
-- src/glob.cpp: glob patterns with `*` and `?` and no escapes, matched by indices that go back to
-- the last star only.
pub mod Spec
pub mod Cursor
pub mod Decision
use dd_opentracing_cpp.Prelude.{
  ℕ, zero, suc, ◌+◌, ◌*◌, Bool, true, false, ◌&&◌, ◌||◌, Option, none, some, ltb, leb, ◌==◌,
  if◌then◌else◌, length, get_elem?, Text,
}

abbrev pub star : ℕ
star = b'*'

abbrev pub question : ℕ
question = b'?'

-- What one pass of the `while` loop does: `continue` with new values of `p`, `s`, `next_p` and
-- `next_s`, or `return`.
pub data Pass : Type 0 where
  again : ℕ → ℕ → ℕ → ℕ → Pass
  stop : Bool → Pass

-- "Mismatch. Maybe restart."
unfoldable pub restart : Text → ℕ → ℕ → Pass
restart subject next_p next_s =
    if ltb 0 next_s && leb next_s (length subject)
    then again next_p next_s next_p next_s
    else stop false

module _ (pattern_text subject : Text) where
  -- The `switch` on `pattern[p]`, and the restart behind it.
  unfoldable pub compare_at : ℕ → ℕ → ℕ → ℕ → ℕ → Pass
  unfolding restart
  compare_at c p s next_p next_s =
      if c == star
      then again (suc p) s p (suc s)
      else if c == question
      then (if ltb s (length subject)
          then again (suc p) (suc s) next_p next_s
          else restart subject next_p next_s)
      else elim (get_elem? subject s) [
        | none ↦ restart subject next_p next_s
        | some x ↦
            if x == c then again (suc p) (suc s) next_p next_s else restart subject next_p next_s
      ]

  -- The loop's condition and its body. `get_elem?` is `none` just where the index is out of range.
  unfoldable pub pass : ℕ → ℕ → ℕ → ℕ → Pass
  unfolding compare_at
  pass p s next_p next_s =
      if ltb p (length pattern_text) || ltb s (length subject)
      then elim (get_elem? pattern_text p) [
        | none ↦ restart subject next_p next_s
        | some c ↦ compare_at c p s next_p next_s
      ]
      else stop true

  -- `none` means that the fuel ran out.
  unfoldable pub loop : ℕ → ℕ → ℕ → ℕ → ℕ → Option Bool
  loop zero p s next_p next_s = none
  loop (suc fuel) p s next_p next_s = elim (pass p s next_p next_s) [
    | again p' s' next_p' next_s' ↦ loop fuel p' s' next_p' next_s'
    | stop answer ↦ some answer
  ]

  unfoldable pub glob_match : Option Bool
  unfolding loop pass
  glob_match = loop ((length subject + 1) * (length pattern_text + 2)) 0 0 0 0
