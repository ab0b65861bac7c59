-- ===== src/Span/Values.antt =====
-- The `VariantVisitor` of src/span.cpp: the text of a tag's value. `ot::Value` is OpenTracing's
-- variant; the JSON library and `std::to_string(double)` are parameters.
use dd_opentracing_cpp.Prelude.{ℕ, ℤ, Bool, Text, codes, if◌then◌else◌}
use dd_opentracing_cpp.Integers.{to_text, int_to_text}

mutual
  pub data Value (D : Type 0) : Type 0 where
    of_bool : Bool → Value D
    of_double : D → Value D
    of_int64 : ℤ → Value D
    of_uint64 : ℕ → Value D
    of_string : Text → Value D
    of_null : Value D
    -- `const char *`.
    of_chars : Text → Value D
    of_vector : Values D → Value D
    of_map : ValueMap D → Value D

  -- `std::vector<ot::Value>`.
  pub data Values (D : Type 0) : Type 0 where
    no_values : Values D
    value_then : Value D → Values D → Values D

  -- `std::unordered_map<std::string, ot::Value>`, in the order of its iteration.
  pub data ValueMap (D : Type 0) : Type 0 where
    no_pairs : ValueMap D
    pair_then : Text → Value D → ValueMap D → ValueMap D

-- How the source makes a JSON value.
pub record JsonWriter (J D : Type 0) : Type 0 where
  -- `json()`.
  pub null : J
  pub bool_json : Bool → J
  pub double_json : D → J
  pub int_json : ℤ → J
  pub uint_json : ℕ → J
  pub text_json : Text → J
  pub push_back : J → J → J
  -- `dict[key] = value`.
  pub put_key : Text → J → J → J
  pub dump : J → Text
  -- `std::to_string(double)`.
  pub double_text : D → Text

module _ {J D : Type 0} (w : JsonWriter J D) where
  -- The visitor where it has a `json_result`.
  unfoldable mutual
    pub json_of : Value D → J
    json_of (of_bool b) = w.bool_json b
    json_of (of_double d) = w.double_json d
    json_of (of_int64 i) = w.int_json i
    json_of (of_uint64 n) = w.uint_json n
    json_of (of_string s) = w.text_json s
    json_of of_null = w.text_json (codes "nullptr")
    json_of (of_chars s) = w.text_json s
    json_of (of_vector values) = push_values values w.null
    json_of (of_map fields) = put_pairs fields w.null

    -- The loops over `values` and over the map.
    pub push_values : Values D → J → J
    push_values no_values list = list
    push_values (value_then v values) list = push_values values (w.push_back list (json_of v))

    pub put_pairs : ValueMap D → J → J
    put_pairs no_pairs dict = dict
    put_pairs (pair_then key v fields) dict = put_pairs fields (w.put_key key (json_of v) dict)

  -- The visitor at the root, `apply_visitor(VariantVisitor{result}, value)`.
  unfoldable pub text_of : Value D → Text
  unfolding json_of push_values put_pairs
  text_of (of_bool b) = if b then codes "true" else codes "false"
  text_of (of_double d) = w.double_text d
  text_of (of_int64 i) = int_to_text i
  text_of (of_uint64 n) = to_text 10 n
  text_of (of_string s) = s
  text_of of_null = codes "nullptr"
  text_of (of_chars s) = s
  text_of (of_vector values) = w.dump (push_values values w.null)
  text_of (of_map fields) = w.dump (put_pairs fields w.null)
