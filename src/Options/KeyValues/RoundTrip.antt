-- ===== src/Options/KeyValues/RoundTrip.antt =====
-- `keyvalues` of src/tracer_options.cpp on a text that was written from a list of pairs.
use dd_opentracing_cpp.Prelude.{
  ℕ, ◌≡◌, refl, ap, sym, ◌∙◌, ◌≢◌, Bool, true, false, not, ◌&&◌, ◌||◌, List, [], ◌∷◌, ◌++◌,
  append-nil, append_assoc, ◌==◌, if◌then◌else◌, Text, text_eq, is_empty, assign, arith,
}
use dd_opentracing_cpp.Tags.{TagMap}
use dd_opentracing_cpp.Options.KeyValues.{
  Separators, Scan, scan_start, assign_char, add_kv, scan_char, scan_all, scan_end, keyvalues,
}

-- The three separators are different characters.
pub record Distinct (seps : Separators) : Type 0 where
  pub item_token : seps.itemsep ≢ seps.tokensep
  pub item_escape : seps.itemsep ≢ seps.escape
  pub token_escape : seps.tokensep ≢ seps.escape

-- A text with an escape character before each separator in it.
abbrev pub is_special : Separators → ℕ → Bool
is_special seps c = (c == seps.itemsep) || ((c == seps.tokensep) || (c == seps.escape))

unfoldable pub escaped : Separators → Text → Text
escaped seps [] = []
escaped seps (c ∷ text) =
    let rest = escaped seps text in if is_special seps c then seps.escape ∷ c ∷ rest else c ∷ rest

-- A pair as it is written, and a list of them.
unfoldable pub written_pair : Separators → Text × Text → Text
written_pair seps (k, v) = escaped seps k ++ seps.itemsep ∷ escaped seps v

unfoldable pub written_pairs : Separators → List (Text × Text) → Text
written_pairs seps [] = []
written_pairs seps (p ∷ []) = written_pair seps p
written_pairs seps (p ∷ q ∷ ps) = written_pair seps p ++ seps.tokensep ∷ written_pairs seps (q ∷ ps)

-- The pairs without an empty part.
abbrev pub is_full : Text × Text → Bool
is_full (k, v) = not (is_empty k) && not (is_empty v)

abbrev pub full_pairs : List (Text × Text) → List (Text × Text)
full_pairs [] = []
full_pairs (p ∷ ps) = if is_full p then p ∷ full_pairs ps else full_pairs ps

-- The map that pairs make: a later value of a key replaces an earlier one.
abbrev pub assign_pairs : List (Text × Text) → TagMap → TagMap
assign_pairs [] m = m
assign_pairs ((k, v) ∷ ps) m = assign_pairs ps (assign k v m)

-- What the scanner makes of the pairs.
abbrev add_pairs : List (Text × Text) → TagMap → TagMap
add_pairs [] m = m
add_pairs ((k, v) ∷ ps) m = add_pairs ps (add_kv k v m)

assign_pairs-cons :
    (c : Bool) (k v : Text) (ps : List (Text × Text)) (m : TagMap)
    → assign_pairs ps (if c then assign k v m else m)
      ≡ assign_pairs (if c then (k, v) ∷ ps else ps) m
assign_pairs-cons true k v ps m = refl
assign_pairs-cons false k v ps m = refl

add_kv-assign :
    (k v : Text) (m : TagMap) → add_kv k v m ≡ (if is_full (k, v) then assign k v m else m)
unfolding add_kv
add_kv-assign k v m = ground arith

add_pairs-assign_pairs :
    (ps : List (Text × Text)) (m : TagMap) → add_pairs ps m ≡ assign_pairs (full_pairs ps) m
add_pairs-assign_pairs [] m = refl
add_pairs-assign_pairs ((k, v) ∷ ps) m =
    add_pairs-assign_pairs ps (add_kv k v m)
    ∙ ap (assign_pairs (full_pairs ps)) (add_kv-assign k v m)
    ∙ assign_pairs-cons (is_full (k, v)) k v (full_pairs ps) m

module _ (seps : Separators) (d : Distinct seps) where
  -- The scanner inside a key and inside a value.
  abbrev in_key : TagMap → Text → Scan
  in_key m k = record { esc = false; kvp = m; key = k; val = []; keyfound = false }

  abbrev in_val : TagMap → Text → Text → Scan
  in_val m k v = record { esc = false; kvp = m; key = k; val = v; keyfound = true }

  scan_one_val :
      (c : ℕ) (tail rest : Text) (m : TagMap) (k v : Text)
      → scan_all seps
          ((if is_special seps c then seps.escape ∷ c ∷ tail else c ∷ tail) ++ rest)
          (in_val m k v)
        ≡ scan_all seps (tail ++ rest) (in_val m k (v ++ c ∷ []))
  unfolding scan_all scan_char assign_char
  scan_one_val c tail rest m k v = ground (arith, d.token_escape)

  scan_one_key :
      (c : ℕ) (tail rest : Text) (m : TagMap) (k : Text)
      → scan_all seps
          ((if is_special seps c then seps.escape ∷ c ∷ tail else c ∷ tail) ++ rest)
          (in_key m k)
        ≡ scan_all seps (tail ++ rest) (in_key m (k ++ c ∷ []))
  unfolding scan_all scan_char assign_char
  scan_one_key c tail rest m k = ground (arith, d.token_escape)

  scan_val :
      (text rest : Text) (m : TagMap) (k v : Text)
      → scan_all seps (escaped seps text ++ rest) (in_val m k v)
        ≡ scan_all seps rest (in_val m k (v ++ text))
  unfolding escaped
  scan_val [] rest m k v = rw append-nil refl
  scan_val (c ∷ text) rest m k v =
      scan_one_val c (escaped seps text) rest m k v
      ∙ scan_val text rest m k (v ++ c ∷ [])
      ∙ ap (λ t. scan_all seps rest (in_val m k t)) (append_assoc v (c ∷ []) text)

  scan_key :
      (text rest : Text) (m : TagMap) (k : Text)
      → scan_all seps (escaped seps text ++ rest) (in_key m k)
        ≡ scan_all seps rest (in_key m (k ++ text))
  unfolding escaped
  scan_key [] rest m k = rw append-nil refl
  scan_key (c ∷ text) rest m k =
      scan_one_key c (escaped seps text) rest m k
      ∙ scan_key text rest m (k ++ c ∷ [])
      ∙ ap (λ t. scan_all seps rest (in_key m t)) (append_assoc k (c ∷ []) text)

  scan_itemsep :
      (rest : Text) (m : TagMap) (k : Text)
      → scan_all seps (seps.itemsep ∷ rest) (in_key m k) ≡ scan_all seps rest (in_val m k [])
  unfolding scan_all scan_char
  scan_itemsep rest m k = ground (arith, d.item_escape, d.item_token)

  scan_tokensep :
      (rest : Text) (m : TagMap) (k v : Text)
      → scan_all seps (seps.tokensep ∷ rest) (in_val m k v)
        ≡ scan_all seps rest (in_key (add_kv k v m) [])
  unfolding scan_all scan_char
  scan_tokensep rest m k v = ground (arith, d.token_escape)

  -- One pair.
  scan_pair :
      (p : Text × Text) (rest : Text) (m : TagMap)
      → scan_all seps (written_pair seps p ++ rest) (in_key m [])
        ≡ scan_all seps rest (in_val m p.0 p.1)
  unfolding written_pair scan_all scan_char
  scan_pair (k, v) rest m =
      ap (λ t. scan_all seps t (in_key m []))
        (append_assoc (escaped seps k) (seps.itemsep ∷ escaped seps v) rest)
      ∙ scan_key k (seps.itemsep ∷ escaped seps v ++ rest) m []
      ∙ scan_itemsep (escaped seps v ++ rest) m k
      ∙ scan_val v rest m k []

  scan_end-in_val : (m : TagMap) (k v : Text) → scan_end (in_val m k v) ≡ add_kv k v m
  unfolding scan_end add_kv
  scan_end-in_val m k v = ground arith

  scan_pairs :
      (p : Text × Text) (ps : List (Text × Text)) (m : TagMap)
      → scan_end (scan_all seps (written_pairs seps (p ∷ ps)) (in_key m [])) ≡ add_pairs (p ∷ ps) m
  unfolding written_pairs
  scan_pairs p [] m =
      ap (λ t. scan_end (scan_all seps t (in_key m []))) (sym (append-nil (written_pair seps p)))
      ∙ ap scan_end (scan_pair p [] m)
      ∙ unfold scan_all in scan_end-in_val m p.0 p.1
  scan_pairs p (q ∷ ps) m =
      ap scan_end (
        scan_pair p (seps.tokensep ∷ written_pairs seps (q ∷ ps)) m
        ∙ scan_tokensep (written_pairs seps (q ∷ ps)) m p.0 p.1)
      ∙ scan_pairs q ps (add_kv p.0 p.1 m)

  -- The early return agrees with the loop.
  keyvalues-scan : (text : Text) → keyvalues seps text ≡ scan_end (scan_all seps text scan_start)
  unfolding keyvalues scan_all scan_end
  keyvalues-scan [] = refl
  keyvalues-scan (c ∷ text) = refl

  -- `keyvalues` reads back the text that is written for a list of pairs, with an escape character
  -- before each separator inside a key or a value, where the three separators are different
  -- characters: the result is the map of the pairs, in which those with an empty key or an empty
  -- value are left out and a later value of a key replaces an earlier one.
  pub keyvalues-written_pairs :
      (ps : List (Text × Text))
      → keyvalues seps (written_pairs seps ps) ≡ assign_pairs (full_pairs ps) []
  unfolding keyvalues written_pairs
  keyvalues-written_pairs [] = refl
  keyvalues-written_pairs (p ∷ ps) =
      keyvalues-scan (written_pairs seps (p ∷ ps))
      ∙ scan_pairs p ps []
      ∙ add_pairs-assign_pairs (p ∷ ps) []
