-- ===== src/Options.antt =====
-- The struct `TracerOptions` of src/include/datadog/opentracing.h, with its defaults, and what the
-- tracer's configuration reads from outside. `log_func` is left out.
pub mod KeyValues
pub mod Styles
pub mod Environment
pub mod Config
use dd_opentracing_cpp.Prelude.{
  ℕ, Bool, true, false, Option, none, some, List, [], ◌∷◌, if◌then◌else◌, Text, codes, is_empty,
  pos,
}
use dd_opentracing_cpp.Floats.{Floats}
use dd_opentracing_cpp.Tags.{TagMap}
use dd_opentracing_cpp.Propagation.{PropagationStyle, datadog}

pub record TracerOptions (D : Type 0) : Type 0 where
  pub agent_host : Text
  pub agent_port : ℕ
  pub service : Text
  -- `type`.
  pub type_name : Text
  pub environment : Text
  pub sample_rate : D
  pub priority_sampling : Bool
  pub sampling_rules : Text
  pub write_period_ms : ℕ
  pub operation_name_override : Text
  pub extract : List PropagationStyle
  pub inject : List PropagationStyle
  pub report_hostname : Bool
  pub analytics_enabled : Bool
  pub analytics_rate : D
  pub tags : TagMap
  pub version : Text
  pub agent_url : Text
  pub sampling_limit_per_second : D
  pub tags_header_size : ℕ
  pub span_sampling_rules : Text

abbrev pub default_options : {D : Type 0} → Floats D → TracerOptions D
default_options fl = record {
  agent_host = codes "localhost";
  agent_port = 8126;
  service = [];
  type_name = codes "web";
  environment = [];
  sample_rate = fl.nan;
  priority_sampling = true;
  sampling_rules = codes "[]";
  write_period_ms = 1000;
  operation_name_override = [];
  extract = datadog ∷ [];
  inject = datadog ∷ [];
  report_hostname = false;
  analytics_enabled = false;
  analytics_rate = fl.nan;
  tags = [];
  version = [];
  agent_url = [];
  sampling_limit_per_second = fl.of_int (pos 100);
  tags_header_size = 512;
  span_sampling_rules = codes "[]";
}

-- `std::getenv`, with `none` for a null pointer.
abbrev pub Environment : Type 0
Environment = Text → Option Text

-- A variable that is set to a text that is not empty.
unfoldable pub non_empty : Option Text → Option Text
non_empty none = none
non_empty (some value) = if is_empty value then none else some value

-- What opening and reading a file gives.
pub data File : Type 0 where
  not_opened not_read : File
  contents : Text → File

-- `std::stod(text, &end_index)`: `std::invalid_argument`, `std::out_of_range`, or the number and
-- the text from `end_index` on.
pub data Stod (D : Type 0) : Type 0 where
  no_number too_large : Stod D
  number : D → Text → Stod D

-- What the configuration reads from outside the program: the environment, the files and the
-- reading of floating point numbers.
pub record Outside (D : Type 0) : Type 0 where
  pub getenv : Environment
  pub read_file : Text → File
  pub stod : Text → Stod D
  -- `std::numeric_limits<double>::infinity()`.
  pub infinity : D
