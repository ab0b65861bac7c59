-- ===== src/Options/Styles.antt =====
-- Propagation styles in src/tracer_options.cpp: the words of an environment variable, and
-- `asPropagationStyle`.
pub mod Words
use dd_opentracing_cpp.Prelude.{
  ℕ, ◌≡◌, refl, ap, sym, ◌∙◌, inl, inr, ◌↔◌, Bool, true, false, not, ◌&&◌, ◌||◌, Option, none, some,
  List, [], ◌∷◌, ◌++◌, ◌==◌, if◌then◌else◌, Bool-cases, Option-cases, Text, codes, is_empty,
  text_eq, same, arith,
}
use dd_opentracing_cpp.Integers.{is_space}
use dd_opentracing_cpp.Propagation.{PropagationStyle, datadog, b3}

-- A character of the expression `[\s,]+`.
abbrev pub is_separator : ℕ → Bool
is_separator c = is_space c || (c == b',')

-- A token goes to the result if it is not empty.
abbrev pub keep_token : Text → List Text → List Text
keep_token [] result = result
keep_token (c ∷ word) result = (c ∷ word) ∷ result

-- `tokenize_propagation_style`, with the token that is being read. An iteration over what lies
-- between the separators gives the same tokens and empty ones, which `copy_if` leaves out.
unfoldable pub tokens_from : Text → Text → List Text
tokens_from word [] = keep_token word []
tokens_from word (c ∷ input) =
    let fresh = tokens_from [] input in
    let longer = tokens_from (word ++ c ∷ []) input in
    if is_separator c then keep_token word fresh else longer

unfoldable pub tokenize_propagation_style : Text → List Text
unfolding tokens_from
tokenize_propagation_style input = tokens_from [] input

-- `std::set<PropagationStyle>::insert`: the set is in the order of the enumeration.
unfoldable pub insert_style : PropagationStyle → List PropagationStyle → List PropagationStyle
insert_style datadog [] = datadog ∷ []
insert_style datadog (datadog ∷ s) = datadog ∷ s
insert_style datadog (b3 ∷ s) = datadog ∷ b3 ∷ s
insert_style b3 [] = b3 ∷ []
insert_style b3 (datadog ∷ s) = datadog ∷ insert_style b3 s
insert_style b3 (b3 ∷ s) = b3 ∷ s

-- The style of a name.
unfoldable pub style_named : Text → Option PropagationStyle
style_named style =
    if same style (codes "Datadog")
    then some datadog
    else if same style (codes "B3")
    then some b3
    else none

-- The loop of `asPropagationStyle`; `none` is `std::errc::invalid_argument`.
unfoldable pub add_styles : List Text → List PropagationStyle → Option (List PropagationStyle)
unfolding insert_style
add_styles [] styles = some styles
add_styles (style ∷ rest) styles = elim (style_named style) [
  | none ↦ none
  | some p ↦ add_styles rest (insert_style p styles)
]

unfoldable pub as_propagation_style : List Text → Option (List PropagationStyle)
unfolding add_styles
as_propagation_style styles = elim (add_styles styles []) [
  | none ↦ none
  | some found ↦ if is_empty found then none else some found
]
