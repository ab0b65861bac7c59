-- ===== src/Tests/Configured.antt =====
-- Instances about the options of a tracer.
use dd_opentracing_cpp.Prelude.{
  ℕ, ◌≡◌, refl, true, false, Option, none, some, List, [], ◌∷◌, Text, codes, if◌then◌else◌, text_eq,
  same, arith,
}
use dd_opentracing_cpp.Json.{Json, Getters}
use dd_opentracing_cpp.Options.{default_options, Outside, number, not_opened}
use dd_opentracing_cpp.Options.KeyValues.{keyvalues}
use dd_opentracing_cpp.Options.KeyValues.RoundTrip.{
  Distinct, written_pairs, assign_pairs, full_pairs, keyvalues-written_pairs,
}
use dd_opentracing_cpp.Options.Environment.{tag_separators, apply_tracer_options_from_environment}
use dd_opentracing_cpp.Options.Environment.Kept.{Kept}
use dd_opentracing_cpp.Options.Environment.Sane.{HasUnit, IsSane, apply_tracer_options-IsSane}
use dd_opentracing_cpp.Options.Environment.Precedence.{Follows, apply_tracer_options-Follows}
use dd_opentracing_cpp.Options.Config.{options_from_config}
use dd_opentracing_cpp.Options.Config.Named.{
  Holds, HasService, service_of_text, options_from_config-HasService,
}
use dd_opentracing_cpp.Tests.Fixtures.{percent}

-- DD_SERVICE, a sample rate of 50 percent and a port are set.
abbrev variables : Text → Option Text
variables name =
    if same name (codes "DD_SERVICE")
    then some (codes "till")
    else if same name (codes "DD_TRACE_SAMPLE_RATE")
    then some (codes "0.5")
    else if same name (codes "DD_TRACE_AGENT_PORT")
    then some (codes "8127")
    else none

abbrev outside : Outside ℕ
outside = record {
  getenv = variables;
  read_file = λ name. not_opened;
  stod = λ text. number 50 [];
  infinity = 999;
}

unit : HasUnit percent
unit = record { nan_is_nan = refl; zero_one = refl; one_one = refl }

default-IsSane : IsSane percent (default_options percent)
default-IsSane = (omega arith, refl, refl, refl, refl, refl)

apply_tracer_options-IsSane_example :
    Kept
      (λ r. IsSane percent r.0)
      (apply_tracer_options_from_environment percent outside (default_options percent))
apply_tracer_options-IsSane_example =
    apply_tracer_options-IsSane percent outside unit (default_options percent) default-IsSane

apply_tracer_options-Follows_example :
    Kept
      (λ r. Follows percent outside (default_options percent) r.0)
      (apply_tracer_options_from_environment percent outside (default_options percent))
apply_tracer_options-Follows_example =
    apply_tracer_options-Follows percent outside (default_options percent)

separators-Distinct : Distinct tag_separators
separators-Distinct = record {
  item_token = λ e. omega (arith, e);
  item_escape = λ e. omega (arith, e);
  token_escape = λ e. omega (arith, e);
}

-- A comma in a value.
abbrev pairs : List (Text × Text)
pairs = (codes "team", codes "a,b") ∷ (codes "region", codes "eu") ∷ []

keyvalues-written_pairs_example :
    keyvalues tag_separators (written_pairs tag_separators pairs)
    ≡ assign_pairs (full_pairs pairs) []
keyvalues-written_pairs_example = keyvalues-written_pairs tag_separators separators-Distinct pairs

-- A configuration is an object with a service and a sample rate, or a text.
abbrev config_json : Json (Option Text) ℕ
config_json = record {
  parse = λ text. some none;
  items = λ j. none ∷ [];
  is_object = λ j. elim j [ none ↦ true | some t ↦ false ];
  member = λ key j. elim j [
    | some t ↦ none
    | none ↦
        if same key (codes "service")
        then some (some (codes "shop"))
        else if same key (codes "sample_rate")
        then some (some (codes "20"))
        else none
  ];
  as_string = λ j. j;
  as_number = λ j. some 20;
  dump = λ j. codes "{}";
}

abbrev config_getters : Getters (Option Text) ℕ
config_getters = record {
  get_text = λ j. j;
  get_uint32 = λ j. none;
  get_uint64 = λ j. none;
  get_double = λ j. some 20;
  get_bool = λ j. none;
  get_texts = λ j. none;
  get_map = λ j. none;
}

options_from_config-HasService_example :
    Holds
      (HasService percent config_json config_getters outside
        (service_of_text percent config_json config_getters outside (codes "{}")))
      (options_from_config percent config_json config_getters outside (codes "{}"))
options_from_config-HasService_example =
    options_from_config-HasService percent config_json config_getters outside (codes "{}")
