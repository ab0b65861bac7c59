-- ===== src/Tribool.antt =====
-- src/bool.cpp: the texts that stand for Booleans.
use dd_opentracing_cpp.Prelude.{
  ◌≡◌, ◌↔◌, Bool, true, false, none, some, List, [], ◌∷◌, Text, codes, find, text_eq, arith,
}

pub data Tribool : Type 0 where
  truthy falsy neither : Tribool

-- The table `conversions`.
abbrev pub conversions : List (Text × Bool)
conversions =
    (codes "1", true)
    ∷ (codes "t", true)
    ∷ (codes "T", true)
    ∷ (codes "true", true)
    ∷ (codes "TRUE", true)
    ∷ (codes "True", true)
    ∷ (codes "0", false)
    ∷ (codes "f", false)
    ∷ (codes "F", false)
    ∷ (codes "false", false)
    ∷ (codes "FALSE", false)
    ∷ (codes "False", false)
    ∷ []

-- `tribool(bool)`.
unfoldable pub tribool_of_bool : Bool → Tribool
tribool_of_bool true = truthy
tribool_of_bool false = falsy

-- `tribool(const std::string&)`.
unfoldable pub tribool : Text → Tribool
unfolding tribool_of_bool find
tribool text = elim (find text conversions) [ none ↦ neither | some value ↦ tribool_of_bool value ]

unfoldable pub stob : Text → Bool → Bool
stob text fallback = elim (tribool text) [ truthy ↦ true | falsy ↦ false | neither ↦ fallback ]

unfoldable pub isbool : Text → Bool
isbool text = elim (tribool text) [ neither ↦ false | truthy ↦ true | falsy ↦ true ]

-- `isbool` says just when `stob` does not depend on its fallback.
isbool_iff : (text : Text) → (isbool text ≡ true) ↔ (stob text true ≡ stob text false)
unfolding isbool stob
isbool_iff text = ground arith
