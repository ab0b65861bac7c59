-- ===== src/Options/Styles/Words.antt =====
-- The words that `tokenize_propagation_style` of src/tracer_options.cpp finds, and which lists of
-- names `asPropagationStyle` refuses.
use dd_opentracing_cpp.Prelude.{
  ◌≡◌, refl, ap, ◌∙◌, inl, inr, Bool, true, false, not, ◌&&◌, ◌||◌, Option, none, some, List, [],
  ◌∷◌, ◌++◌, append-nil, append_assoc, if◌then◌else◌, Bool-cases, Option-cases, Text, codes,
  is_empty, text_eq, same, arith,
}
use dd_opentracing_cpp.Propagation.{PropagationStyle, datadog, b3}
use dd_opentracing_cpp.Options.Styles.{
  is_separator, keep_token, tokens_from, tokenize_propagation_style, insert_style, style_named,
  add_styles, as_propagation_style,
}

-- No character of the text separates words, or all do.
abbrev pub is_word : Text → Bool
is_word [] = true
is_word (c ∷ text) = not (is_separator c) && is_word text

abbrev pub is_gap : Text → Bool
is_gap [] = true
is_gap (c ∷ text) = is_separator c && is_gap text

abbrev pub are_words : List Text → Bool
are_words [] = true
are_words (w ∷ words) = (not (is_empty w) && is_word w) && are_words words

-- The words, each with the gap behind it.
abbrev pub joined : Text → List Text → Text
joined gap [] = []
joined gap (w ∷ words) = w ++ (gap ++ joined gap words)

tokens_from-word :
    (w acc rest : Text)
    → is_word w ≡ true
    → tokens_from acc (w ++ rest) ≡ tokens_from (acc ++ w) rest
unfolding tokens_from
tokens_from-word [] acc rest h = rw append-nil refl
tokens_from-word (c ∷ w) acc rest h = elim (Bool-cases (is_separator c)) [
  | inl s ↦ absurd (ground (arith, s, h))
  | inr s ↦ rw s (
      tokens_from-word w (acc ++ c ∷ []) rest (ground (arith, s, h))
      ∙ ap (λ t. tokens_from t rest) (append_assoc acc (c ∷ []) w))
]

skip_gap :
    (gap rest : Text) → is_gap gap ≡ true → tokens_from [] (gap ++ rest) ≡ tokens_from [] rest
unfolding tokens_from
skip_gap [] rest h = refl
skip_gap (c ∷ gap) rest h = elim (Bool-cases (is_separator c)) [
  | inl s ↦ rw s (skip_gap gap rest (ground (arith, s, h)))
  | inr s ↦ absurd (ground (arith, s, h))
]

tokens_from-gap :
    (gap acc rest : Text)
    → is_gap gap ≡ true
    → is_empty gap ≡ false
    → tokens_from acc (gap ++ rest) ≡ keep_token acc (tokens_from [] rest)
unfolding tokens_from
tokens_from-gap [] acc rest h n = absurd (ground arith)
tokens_from-gap (c ∷ gap) acc rest h n = elim (Bool-cases (is_separator c)) [
  | inl s ↦ rw s (ap (keep_token acc) (skip_gap gap rest (ground (arith, s, h))))
  | inr s ↦ absurd (ground (arith, s, h))
]

keep-word : (w : Text) (ws : List Text) → is_empty w ≡ false → keep_token w ws ≡ w ∷ ws
keep-word [] ws h = absurd (ground arith)
keep-word (c ∷ w) ws h = refl

tokens_from-joined :
    (gap : Text) (words : List Text)
    → is_gap gap ≡ true
    → is_empty gap ≡ false
    → are_words words ≡ true
    → tokens_from [] (joined gap words) ≡ words
unfolding tokens_from
tokens_from-joined gap [] g n h = refl
tokens_from-joined gap (w ∷ words) g n h =
    let full : is_empty w ≡ false = ground (arith, h) in
    tokens_from-word w [] (gap ++ joined gap words) (ground (arith, h))
    ∙ tokens_from-gap gap w (joined gap words) g n
    ∙ keep-word w (tokens_from [] (joined gap words)) full
    ∙ ap (λ t. w ∷ t) (tokens_from-joined gap words g n (ground (arith, h)))

-- The words of a text come out as they are and in order, where they are not empty and hold neither
-- a comma nor white space, and each is followed by the same gap of one or more of these.
pub tokenize-joined :
    (gap : Text) (words : List Text)
    → is_gap gap ≡ true
    → is_empty gap ≡ false
    → are_words words ≡ true
    → tokenize_propagation_style (joined gap words) ≡ words
unfolding tokenize_propagation_style
tokenize-joined = tokens_from-joined

-- Every name is that of a style.
abbrev pub all_known : List Text → Bool
all_known [] = true
all_known (s ∷ styles) = (same s (codes "Datadog") || same s (codes "B3")) && all_known styles

insert_style-some :
    (p : PropagationStyle) (s : List PropagationStyle) → is_empty (insert_style p s) ≡ false
unfolding insert_style
insert_style-some datadog [] = refl
insert_style-some datadog (datadog ∷ s) = refl
insert_style-some datadog (b3 ∷ s) = refl
insert_style-some b3 [] = refl
insert_style-some b3 (datadog ∷ s) = refl
insert_style-some b3 (b3 ∷ s) = refl

-- `none`.
abbrev pub is_refused {ℓ} : {A : Type ℓ} → Option A → Bool
is_refused none = true
is_refused (some a) = false

style_named-refused :
    (style : Text)
    → is_refused (style_named style) ≡ not (same style (codes "Datadog") || same style (codes "B3"))
unfolding style_named
style_named-refused style = ground arith

add_styles-refused :
    (styles : List Text) (s : List PropagationStyle)
    → is_refused (add_styles styles s) ≡ not (all_known styles)
unfolding add_styles
add_styles-refused [] s = refl
add_styles-refused (style ∷ rest) s = elim (Option-cases (style_named style)) [
  | inl n ↦ rw (n, add_styles) (ground (arith, ap is_refused n, style_named-refused style))
  | inr (p, n) ↦
      rw (n, add_styles)
        (ground (
          arith,
          ap is_refused n,
          style_named-refused style,
          add_styles-refused rest (insert_style p s),
        ))
]

-- Once a style is there the set is not empty.
add_styles-some :
    (styles : List Text) (s f : List PropagationStyle)
    → is_empty s ≡ false
    → add_styles styles s ≡ some f
    → is_empty f ≡ false
unfolding add_styles
add_styles-some [] s f h e = ground arith
add_styles-some (style ∷ rest) s f h e = elim (Option-cases (style_named style)) [
  | inl n ↦ absurd (ground (arith, n, e))
  | inr (p, n) ↦
      add_styles-some rest (insert_style p s) f (insert_style-some p s) (ground (arith, n, e))
]

first_style :
    (style : Text) (rest : List Text) (f : List PropagationStyle)
    → add_styles (style ∷ rest) [] ≡ some f
    → is_empty f ≡ false
unfolding add_styles
first_style style rest f e = elim (Option-cases (style_named style)) [
  | inl n ↦ absurd (ground (arith, n, e))
  | inr (p, n) ↦
      add_styles-some rest (insert_style p []) f (insert_style-some p []) (ground (arith, n, e))
]

-- A result of the loop that is empty would be refused as well.
refused_at_end :
    (o : Option (List PropagationStyle))
    → ((f : List PropagationStyle) → o ≡ some f → is_empty f ≡ false)
    → is_refused (elim o [ none ↦ none | some f ↦ if is_empty f then none else some f ])
      ≡ is_refused o
refused_at_end none h = refl
refused_at_end (some f) h = rw (h f refl) refl

-- `asPropagationStyle` refuses a list of names just where it is empty or holds a name that is
-- neither "Datadog" nor "B3".
pub as_propagation_style-refused :
    (styles : List Text)
    → is_refused (as_propagation_style styles) ≡ (is_empty styles || not (all_known styles))
unfolding as_propagation_style add_styles
as_propagation_style-refused [] = refl
as_propagation_style-refused (style ∷ rest) =
    refused_at_end (add_styles (style ∷ rest) []) (first_style style rest)
    ∙ add_styles-refused (style ∷ rest) []

-- What is not refused is not empty.
pub as_propagation_style-some :
    (styles : List Text) (f : List PropagationStyle)
    → as_propagation_style styles ≡ some f
    → is_empty f ≡ false
unfolding as_propagation_style
as_propagation_style-some styles f e = elim (Option-cases (add_styles styles [])) [
  | inl n ↦ absurd (ground (arith, n, e))
  | inr (g, n) ↦ ground (arith, n, e)
]
