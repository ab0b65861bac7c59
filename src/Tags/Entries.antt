-- ===== src/Tags/Entries.antt =====
-- `deserializeTags` of src/tag_propagation.cpp against a description without its loop.
use dd_opentracing_cpp.Prelude.{
  ap, ◌∙◌, assign, text_eq, ℕ, zero, suc, ◌<◌, ◌≡◌, ◌≢◌, refl, inl, inr, Option, none, some, ◌==◌,
  if◌then◌else◌, List, [], ◌∷◌, Text, is_empty, length, arith, Option-cases,
}
use dd_opentracing_cpp.Tags.{
  TagMap, comma, equals_sign, Decoded, decoded, invalid_argument, out_of_fuel, split_at,
  deserialize_tag, deserialize_loop, deserialize_tags,
}

abbrev pub onto_first : ℕ → List Text → List Text
onto_first x [] = (x ∷ []) ∷ []
onto_first x (entry ∷ entries) = (x ∷ entry) ∷ entries

abbrev pub onto_key : ℕ → Option (Text × Text) → Option (Text × Text)
onto_key x none = none
onto_key x (some (key, value)) = some (x ∷ key, value)

-- The pieces of a text between its bytes `c`.
pub pieces : ℕ → Text → List Text
pieces c [] = [] ∷ []
pieces c (x ∷ text) = let rest = pieces c text in if x == c then [] ∷ rest else onto_first x rest

-- The key of an entry, which ends before its first equals sign, and the value behind that; none
-- without an equals sign.
pub key_and_value : Text → Option (Text × Text)
key_and_value [] = none
key_and_value (x ∷ entry) =
    let rest = key_and_value entry in if x == b'=' then some ([], entry) else onto_key x rest

-- What a list of entries stands for: the tags, or the first entry that has no equals sign.
pub decode_entries : TagMap → List Text → Decoded
decode_entries tags [] = decoded tags
decode_entries tags (entry ∷ entries) = elim (key_and_value entry) [
  | none ↦ invalid_argument entry
  | some (key, value) ↦ decode_entries (assign key value tags) entries
]

abbrev pieces_behind : ℕ → Option Text → List Text
pieces_behind c none = []
pieces_behind c (some text) = pieces c text

pieces-split_at :
    (c : ℕ) (text : Text)
    → pieces c text ≡ (split_at c text).0 ∷ pieces_behind c (split_at c text).1
unfolding pieces split_at
pieces-split_at c [] = refl
pieces-split_at c (x ∷ text) = ground (arith, pieces-split_at c text)

length-split_at :
    (c : ℕ) (text behind : Text) → (split_at c text).1 ≡ some behind → length behind < length text
unfolding split_at
length-split_at c [] behind h = cc
length-split_at c (x ∷ text) behind h = ground (arith, length-split_at c text behind)

-- How the source finds the two parts.
abbrev paired : Text × Option Text → Option (Text × Text)
paired (key, none) = none
paired (key, some value) = some (key, value)

paired-split_at : (entry : Text) → paired (split_at equals_sign entry) ≡ key_and_value entry
unfolding split_at key_and_value
paired-split_at [] = refl
paired-split_at (x ∷ entry) = ground (arith, paired-split_at entry)

abbrev decode_with : TagMap → Text → Option (Text × Text) → Decoded
decode_with tags entry none = invalid_argument entry
decode_with tags entry (some (key, value)) = decoded (assign key value tags)

deserialize_tag-decode_with :
    (tags : TagMap) (entry : Text)
    → deserialize_tag tags entry ≡ decode_with tags entry (key_and_value entry)
unfolding deserialize_tag
deserialize_tag-decode_with tags entry =
    with_parts (split_at equals_sign entry) ∙ ap (decode_with tags entry) (paired-split_at entry)
  where
    with_parts :
        (r : Text × Option Text)
        → (elim r.1 [
          | none ↦ invalid_argument entry
          | some value ↦ decoded (assign r.0 value tags)
        ])
          ≡ decode_with tags entry (paired r)
    with_parts (key, none) = refl
    with_parts (key, some value) = refl

deserialize_loop-entries :
    (fuel : ℕ) (tags : TagMap) (text : Text)
    → length text < fuel
    → deserialize_loop fuel tags text ≡ decode_entries tags (pieces comma text)
unfolding deserialize_loop decode_entries
deserialize_loop-entries zero tags text h = elim h [ ]
deserialize_loop-entries (suc fuel) tags text h =
    let entry = (split_at comma text).0 in
    rw (pieces-split_at comma text) (elim (Option-cases (key_and_value entry)) [
      | inl e ↦ rw (deserialize_loop, deserialize_tag-decode_with tags entry, decode_entries, e)
      | inr ((key, value), e) ↦
          rw (deserialize_loop, deserialize_tag-decode_with tags entry, decode_entries, e)
            (elim (Option-cases (split_at comma text).1) [
              | inl f ↦ rw f
              | inr (behind, f) ↦ rw f (
                  deserialize_loop-entries fuel (assign key value tags) behind
                    (omega (arith, length-split_at comma text behind f)))
            ])
    ])

-- For `deserializeTags` an empty text has no tags; any other is cut at each comma, and each of its
-- pieces at its first equals sign, and the values are assigned to their keys from the first piece
-- to the last, each over what came before, up to the first piece without an equals sign, which is
-- the error.
pub deserialize_tags-entries :
    (text : Text)
    → deserialize_tags text
      ≡ (if is_empty text then decoded [] else decode_entries [] (pieces b',' text))
unfolding deserialize_tags
deserialize_tags-entries [] = refl
deserialize_tags-entries (x ∷ text) =
    deserialize_loop-entries (suc (length (x ∷ text))) [] (x ∷ text) (omega arith)

decode_entries-total :
    (tags : TagMap) (entries : List Text) → decode_entries tags entries ≢ out_of_fuel
unfolding decode_entries
decode_entries-total tags [] h = ground arith
decode_entries-total tags (entry ∷ entries) h = elim (Option-cases (key_and_value entry)) [
  | inl e ↦ ground arith
  | inr ((key, value), e) ↦ decode_entries-total (assign key value tags) entries (ground arith)
]

-- The loop of `deserializeTags` ends on every text: it never needs more passes than the text has
-- bytes, and one.
pub deserialize_tags-total : (text : Text) → deserialize_tags text ≢ out_of_fuel
deserialize_tags-total [] = rw deserialize_tags-entries (ground arith)
deserialize_tags-total (x ∷ text) =
    rw deserialize_tags-entries (decode_entries-total [] (pieces comma (x ∷ text)))
