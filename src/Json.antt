-- ===== src/Json.antt =====
-- What the source uses of the JSON library (`nlohmann::json`, not part of the program): the
-- operations are a parameter.
use dd_opentracing_cpp.Prelude.{ℕ, Bool, Option, List, Text}
use dd_opentracing_cpp.Tags.{TagMap}

pub record Json (J D : Type 0) : Type 0 where
  -- `json::parse`, with `none` for a `parse_error`.
  pub parse : Text → Option J
  -- The values of `items()`, in order.
  pub items : J → List J
  pub is_object : J → Bool
  -- `contains` and `at`.
  pub member : Text → J → Option J
  -- `is_string` and `get<std::string>`.
  pub as_string : J → Option Text
  -- `is_number` and `get<json::number_float_t>`.
  pub as_number : J → Option D
  pub dump : J → Text

-- `get_to` and `get` of the types that the configuration of a tracer has, with `none` for a
-- `type_error`. `member` is `find` there, which finds nothing in what is not an object.
pub record Getters (J D : Type 0) : Type 0 where
  pub get_text : J → Option Text
  -- `uint32_t` and `uint64_t`.
  pub get_uint32 : J → Option ℕ
  pub get_uint64 : J → Option ℕ
  pub get_double : J → Option D
  pub get_bool : J → Option Bool
  pub get_texts : J → Option (List Text)
  pub get_map : J → Option TagMap
