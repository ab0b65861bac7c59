-- ===== src/Tags.antt =====
-- src/tag_propagation.cpp: the "key=value,key=value" encoding of trace tags.
pub mod RoundTrip
pub mod Entries
use dd_opentracing_cpp.Prelude.{
  ℕ, zero, suc, ◌≡◌, Bool, true, false, Option, none, some, ◌==◌, if◌then◌else◌, List, [], ◌∷◌,
  ◌++◌, Text, is_empty, length, assign, text_eq,
}

-- `std::unordered_map<std::string, std::string>`.
abbrev pub TagMap : Type 0
TagMap = List (Text × Text)

abbrev pub comma : ℕ
comma = b','

abbrev pub equals_sign : ℕ
equals_sign = b'='

-- The decoded tags, or `std::invalid_argument` about the entry that its message names.
-- `out_of_fuel` belongs to the model only.
pub data Decoded : Type 0 where
  decoded : TagMap → Decoded
  invalid_argument : Text → Decoded
  out_of_fuel : Decoded

-- `std::find(begin, end, c)`: what lies before the first `c`, and what lies behind it if there is
-- one.
unfoldable pub split_at : ℕ → Text → Text × Option Text
split_at c [] = ([], none)
split_at c (x ∷ text) =
    let (before, behind) = split_at c text in
    if x == c then ([], some text) else (x ∷ before, behind)

unfoldable pub deserialize_tag : TagMap → Text → Decoded
deserialize_tag destination entry = elim (split_at equals_sign entry).1 [
  | none ↦ invalid_argument entry
  | some value ↦ decoded (assign (split_at equals_sign entry).0 value destination)
]

-- The `do … while (next != end)` loop, over the text from `iter` on.
unfoldable pub deserialize_loop : ℕ → TagMap → Text → Decoded
deserialize_loop zero tags text = out_of_fuel
deserialize_loop (suc fuel) tags text = elim (deserialize_tag tags (split_at comma text).0) [
  | decoded tags' ↦ elim (split_at comma text).1 [
    | none ↦ decoded tags'
    | some behind ↦ deserialize_loop fuel tags' behind
  ]
  | invalid_argument entry ↦ invalid_argument entry
  | out_of_fuel ↦ out_of_fuel
]

unfoldable pub deserialize_tags : Text → Decoded
unfolding deserialize_loop deserialize_tag split_at assign
deserialize_tags header_value =
    if is_empty header_value
    then decoded []
    else deserialize_loop (suc (length header_value)) [] header_value

unfoldable pub append_tag : Text → Text → Text → Text
append_tag serialized_tags tag_key tag_value =
    (if is_empty serialized_tags then serialized_tags else serialized_tags ++ comma ∷ [])
    ++ (tag_key ++ equals_sign ∷ tag_value)
