-- ===== src/Options/KeyValues.antt =====
-- `keyvalues` of src/tracer_options.cpp: the text of DD_TAGS as a map, by a scanner with an escape
-- character. Its lambda `addkv` is `add_kv`, and `assignchar` is `assign_char`.
pub mod RoundTrip
use dd_opentracing_cpp.Prelude.{
  ℕ, Bool, true, false, not, ◌&&◌, ◌||◌, List, [], ◌∷◌, ◌++◌, ◌==◌, if◌then◌else◌, Text, is_empty,
  text_eq, assign,
}
use dd_opentracing_cpp.Tags.{TagMap}

-- The separators, which are arguments of `keyvalues`.
pub record Separators : Type 0 where
  pub itemsep : ℕ
  pub tokensep : ℕ
  pub escape : ℕ

-- The variables of the loop.
pub record Scan : Type 0 where
  pub esc : Bool
  pub kvp : TagMap
  pub key : Text
  pub val : Text
  pub keyfound : Bool

abbrev pub scan_start : Scan
scan_start = record { esc = false; kvp = []; key = []; val = []; keyfound = false }

unfoldable pub assign_char : ℕ → Scan → Scan
assign_char c s =
    if s.keyfound
    then record s { val = s.val ++ c ∷ []; esc = false }
    else record s { key = s.key ++ c ∷ []; esc = false }

unfoldable pub add_kv : Text → Text → TagMap → TagMap
add_kv key val kvp = if is_empty key then kvp else if is_empty val then kvp else assign key val kvp

-- One pass of the loop.
unfoldable pub scan_char : Separators → ℕ → Scan → Scan
unfolding assign_char add_kv
scan_char seps ch s =
    if s.esc
    then assign_char ch s
    else if ch == seps.escape
    then record s { esc = true }
    else if ch == seps.tokensep
    then record s { kvp = add_kv s.key s.val s.kvp; key = []; val = []; keyfound = false }
    else if (ch == seps.itemsep) && not s.keyfound
    then record s { keyfound = true }
    else assign_char ch s

unfoldable pub scan_all : Separators → Text → Scan → Scan
unfolding scan_char
scan_all seps [] s = s
scan_all seps (ch ∷ text) s = scan_all seps text (scan_char seps ch s)

-- What is done behind the loop.
unfoldable pub scan_end : Scan → TagMap
unfolding add_kv
scan_end s = if is_empty s.key then s.kvp else add_kv s.key s.val s.kvp

unfoldable pub keyvalues : Separators → Text → TagMap
unfolding scan_all scan_end
keyvalues seps text = if is_empty text then [] else scan_end (scan_all seps text scan_start)
