-- ===== src/Tags/RoundTrip.antt =====
-- `deserializeTags` of src/tag_propagation.cpp on what `appendTag` writes.
use dd_opentracing_cpp.Prelude.{
  ℕ, zero, suc, ◌<◌, ◌≡◌, ◌≢◌, refl, sym, ap, ◌∙◌, false, none, some, arith, [], ◌∷◌, ◌++◌,
  append-nil, append_assoc, Text, length, length-append, is_empty, assign, find, text_eq, same_iff,
}
use dd_opentracing_cpp.Tags.{
  TagMap, comma, equals_sign, decoded, split_at, deserialize_tag, deserialize_loop,
  deserialize_tags, append_tag,
}

-- No byte of the text is `c`.
abbrev pub Free : ℕ → Text → Type 0
Free c [] = Unit {0}
Free c (x ∷ text) = (x ≢ c) × Free c text

split_at-behind : (c : ℕ) (x y : Text) → Free c x → split_at c (x ++ c ∷ y) ≡ (x, some y)
unfolding split_at
split_at-behind c [] y h = ground arith
split_at-behind c (b ∷ x) y h = ground (arith, split_at-behind c x y h.1)

split_at_end : (c : ℕ) (x : Text) → Free c x → split_at c x ≡ (x, none)
unfolding split_at
split_at_end c [] h = refl
split_at_end c (b ∷ x) h = ground (arith, split_at_end c x h.1)

-- One encoded tag.
abbrev pub render : Text × Text → Text
render (key, value) = key ++ equals_sign ∷ value

-- A tag that the encoding can carry.
abbrev pub IsPlain : Text × Text → Type 0
IsPlain (key, value) = Free equals_sign key × Free comma key × Free comma value

Free-append : (c : ℕ) (x y : Text) → Free c x → Free c y → Free c (x ++ y)
Free-append c [] y h k = k
Free-append c (b ∷ x) y h k = (h.0, Free-append c x y h.1 k)

render-Free : (t : Text × Text) → IsPlain t → Free comma (render t)
render-Free (key, value) (_, hk, hv) =
    Free-append comma key (equals_sign ∷ value) hk (omega arith, hv)

deserialize_tag-render :
    (tags : TagMap) (t : Text × Text)
    → IsPlain t
    → deserialize_tag tags (render t) ≡ decoded (assign t.0 t.1 tags)
unfolding deserialize_tag
deserialize_tag-render tags (key, value) h =
    let e = split_at-behind equals_sign key value h.0 in rw (deserialize_tag, e, e)

-- The tags behind the first one, as they stand in the header.
abbrev pub tail_text : TagMap → Text
tail_text [] = []
tail_text (t ∷ ts) = comma ∷ render t ++ tail_text ts

abbrev pub AllPlain : TagMap → Type 0
AllPlain [] = Unit {0}
AllPlain (t ∷ ts) = IsPlain t × AllPlain ts

abbrev pub assign_all : TagMap → TagMap → TagMap
assign_all tags [] = tags
assign_all tags (t ∷ ts) = assign_all (assign t.0 t.1 tags) ts

-- The header ends, or an entry without an equals sign follows.
deserialize_loop-render :
    (fuel : ℕ) (tags : TagMap) (t : Text × Text) (ts : TagMap)
    → length (render t ++ tail_text ts) < fuel
    → IsPlain t
    → AllPlain ts
    → deserialize_loop fuel tags (render t ++ tail_text ts) ≡ decoded (assign_all tags (t ∷ ts))
unfolding deserialize_loop
deserialize_loop-render zero tags t ts f h hs = absurd (omega arith)
deserialize_loop-render (suc fuel) tags t [] f h hs =
    let e = split_at_end comma (render t) (render-Free t h) in
    rw (append-nil, deserialize_loop, e, deserialize_tag-render tags t h, append-nil, e)
deserialize_loop-render (suc fuel) tags t (u ∷ ts) f h hs =
    let e = split_at-behind comma (render t) (render u ++ tail_text ts) (render-Free t h) in
    rw (deserialize_loop, e, deserialize_tag-render tags t h, e)
      (deserialize_loop-render fuel (assign t.0 t.1 tags) u ts
        (omega (arith, length-append (render t) (comma ∷ render u ++ tail_text ts))) hs.0 hs.1)

-- The header that `SpanBuffer::serializeTraceTags` builds: `appendTag` for each tag in turn.
abbrev pub append_tags : Text → TagMap → Text
append_tags serialized [] = serialized
append_tags serialized (t ∷ ts) = append_tags (append_tag serialized t.0 t.1) ts

is_empty-append : (x : Text) (b : ℕ) (y : Text) → is_empty (x ++ b ∷ y) ≡ false
is_empty-append [] b y = refl
is_empty-append (a ∷ x) b y = refl

append_tag-render :
    (s : Text) (t : Text × Text) → is_empty s ≡ false → append_tag s t.0 t.1 ≡ s ++ comma ∷ render t
unfolding append_tag
append_tag-render s t h = rw (append_tag, h) (append_assoc s (comma ∷ []) (render t))

append_tags-tail :
    (s : Text) (ts : TagMap) → is_empty s ≡ false → append_tags s ts ≡ s ++ tail_text ts
append_tags-tail s [] h = sym (append-nil s)
append_tags-tail s (t ∷ ts) h = rw (append_tag-render s t h) (
    append_tags-tail (s ++ comma ∷ render t) ts (is_empty-append s comma (render t))
    ∙ append_assoc s (comma ∷ render t) (tail_text ts))

append_tags-cons :
    (t : Text × Text) (ts : TagMap) → append_tags [] (t ∷ ts) ≡ render t ++ tail_text ts
unfolding append_tag
append_tags-cons (key, value) ts =
    append_tags-tail (render (key, value)) ts (is_empty-append key equals_sign value)

not_empty : (x : Text) (b : ℕ) (y z : Text) → is_empty ((x ++ b ∷ y) ++ z) ≡ false
not_empty [] b y z = refl
not_empty (a ∷ x) b y z = refl

-- Decoding what `append_tag` wrote, tag by tag, assigns these tags in order.
deserialize-append_tags :
    (ts : TagMap) → AllPlain ts → deserialize_tags (append_tags [] ts) ≡ decoded (assign_all [] ts)
unfolding deserialize_tags
deserialize-append_tags [] h = refl
deserialize-append_tags (t ∷ ts) h =
    rw (append_tags-cons t ts, not_empty t.0 equals_sign t.1 (tail_text ts))
      (deserialize_loop-render (suc (length (render t ++ tail_text ts))) [] t ts (omega arith) h.0
        h.1)

-- No key stands twice.
abbrev pub Distinct : TagMap → Type 0
Distinct [] = Unit {0}
Distinct (t ∷ ts) = (find t.0 ts ≡ none) × Distinct ts

assign_new : (k v : Text) (m : TagMap) → find k m ≡ none → assign k v m ≡ m ++ (k, v) ∷ []
unfolding find assign
assign_new k v [] h = refl
assign_new k v ((j, w) ∷ m) h = ground (arith, assign_new k v m)

find-append : (k : Text) (m n : TagMap) → find k m ≡ none → find k (m ++ n) ≡ find k n
unfolding find
find-append k [] n h = refl
find-append k ((j, w) ∷ m) n h = ground (arith, find-append k m n)

-- No key of the second map is in the first.
abbrev pub Apart : TagMap → TagMap → Type 0
Apart m [] = Unit {0}
Apart m (t ∷ ts) = (find t.0 m ≡ none) × Apart m ts

pub Apart-nil : (ts : TagMap) → Apart [] ts
unfolding find
Apart-nil [] = tt
Apart-nil (t ∷ ts) = (refl, Apart-nil ts)

pub Apart-append :
    (m : TagMap) (t : Text × Text) (ts : TagMap)
    → Apart m ts
    → find t.0 ts ≡ none
    → Apart (m ++ t ∷ []) ts
unfolding find
Apart-append m t [] a h = tt
Apart-append m t (u ∷ ts) a h = (
  rw (find-append u.0 m (t ∷ []) a.0)
      (ground (arith, same_iff {A = Text} t.0 u.0, same_iff {A = Text} u.0 t.0)),
  Apart-append m t ts a.1 (ground (arith, same_iff {A = Text} u.0 t.0)),
)

assign_all-Distinct : (m ts : TagMap) → Apart m ts → Distinct ts → assign_all m ts ≡ m ++ ts
assign_all-Distinct m [] a d = sym (append-nil m)
assign_all-Distinct m (t ∷ ts) a d = rw (assign_new t.0 t.1 m a.0) (
    assign_all-Distinct (m ++ t ∷ []) ts (Apart-append m t ts a.1 d.0) d.1
    ∙ append_assoc m (t ∷ []) ts)

-- A map whose keys hold no comma and no equals sign, and whose values hold no comma, comes back
-- from its encoding unchanged.
pub deserialize_tags-append_tags :
    (ts : TagMap) → AllPlain ts → Distinct ts → deserialize_tags (append_tags [] ts) ≡ decoded ts
deserialize_tags-append_tags ts h d =
    deserialize-append_tags ts h ∙ ap decoded (assign_all-Distinct [] ts (Apart-nil ts) d)
