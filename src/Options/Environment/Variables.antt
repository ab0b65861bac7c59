-- ===== src/Options/Environment/Variables.antt =====
-- What it means that a variable of the environment decides an option.
use dd_opentracing_cpp.Prelude.{◌≡◌, refl, Bool, true, false, Option, none, some, [], ◌∷◌, Text}
use dd_opentracing_cpp.Floats.{Floats}
use dd_opentracing_cpp.Options.{Outside, non_empty}
use dd_opentracing_cpp.Options.Environment.{replaced, is_given}

-- A variable that is not set, or empty, leaves the option.
abbrev pub decided_by : Option Text → Text → Text
decided_by none old = old
decided_by (some []) old = old
decided_by (some (c ∷ value)) old = c ∷ value

-- A variable is set, and not empty.
abbrev pub is_set_to_text : Option Text → Bool
is_set_to_text none = false
is_set_to_text (some []) = false
is_set_to_text (some (c ∷ value)) = true

module _ {D : Type 0} (fl : Floats D) (out : Outside D) where
  pub replaced-decided_by :
      (name old : Text) → replaced fl out name old ≡ decided_by (out.getenv name) old
  unfolding non_empty
  replaced-decided_by name old = by_value (out.getenv name)
    where
      by_value :
          (v : Option Text)
          → (elim (non_empty v) [ none ↦ old | some value ↦ value ]) ≡ decided_by v old
      by_value none = refl
      by_value (some []) = refl
      by_value (some (c ∷ value)) = refl

  pub is_given-is_set_to_text :
      (name : Text) → is_given fl out name ≡ is_set_to_text (out.getenv name)
  unfolding non_empty
  is_given-is_set_to_text name = by_value (out.getenv name)
    where
      by_value :
          (v : Option Text)
          → (elim (non_empty v) [ none ↦ false | some _ ↦ true ]) ≡ is_set_to_text v
      by_value none = refl
      by_value (some []) = refl
      by_value (some (c ∷ value)) = refl
