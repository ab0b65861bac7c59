-- ===== src/Options/Config.antt =====
-- `optionsFromConfig` of src/tracer_factory.cpp: the options of a tracer from a JSON text and the
-- environment.
pub mod Named
use dd_opentracing_cpp.Prelude.{
  ℕ, Bool, true, false, not, ◌&&◌, ◌||◌, Option, none, some, List, [], ◌∷◌, if◌then◌else◌, Text,
  codes, is_empty,
}
use dd_opentracing_cpp.Floats.{Floats}
use dd_opentracing_cpp.Json.{Json, Getters}
use dd_opentracing_cpp.Propagation.{PropagationStyle}
use dd_opentracing_cpp.Options.Styles.{as_propagation_style}
use dd_opentracing_cpp.Options.{TracerOptions, default_options, Outside}
use dd_opentracing_cpp.Options.Environment.{
  OptionError, Result, ok, error, FileComplaint, apply_tracer_options_from_environment,
}

-- The error messages.
pub data ConfigError (D : Type 0) : Type 0 where
  not_valid_json : ConfigError D
  incorrect_type : ConfigError D
  invalid_extract invalid_inject : ConfigError D
  from_environment : OptionError D → ConfigError D
  service_not_set : ConfigError D

pub data Configured {ℓ} (D : Type 0) (A : Type ℓ) : Type ℓ where
  configured : A → Configured D A
  refused : ConfigError D → Configured D A

infixl 5 ◌>>=◌
abbrev pub ◌>>=◌ {ℓ κ} :
    {D : Type 0} {A : Type ℓ} {B : Type κ} → Configured D A → (A → Configured D B) → Configured D B
configured a >>= f = f a
refused e >>= f = refused e

module _ {J D : Type 0} (fl : Floats D) (js : Json J D) (get : Getters J D) (out : Outside D) where
  -- What is done with one key of the configuration.
  abbrev pub Entry : Type 0
  Entry = J → TracerOptions D → Configured D (TracerOptions D)

  -- `if (config.find(key) != config.end()) config.at(key).get_to(field)`.
  unfoldable pub read_member :
      {A : Type 0} → Text → (J → Option A) → (A → TracerOptions D → TracerOptions D) → Entry
  read_member key getter store config o = elim (js.member key config) [
    | none ↦ configured o
    | some v ↦ elim (getter v) [ none ↦ refused incorrect_type | some a ↦ configured (store a o) ]
  ]

  -- An entry that is kept as JSON text.
  unfoldable pub read_dump : Text → (Text → TracerOptions D → TracerOptions D) → Entry
  read_dump key store config o = elim (js.member key config) [
    | none ↦ configured o
    | some v ↦ configured (store (js.dump v) o)
  ]

  -- A set of propagation styles.
  unfoldable pub read_style_set :
      Text → ConfigError D → (List PropagationStyle → TracerOptions D → TracerOptions D) → Entry
  read_style_set key e store config o = elim (js.member key config) [
    | none ↦ configured o
    | some v ↦ elim (get.get_texts v) [
      | none ↦ refused incorrect_type
      | some names ↦ elim (as_propagation_style names) [
        | none ↦ refused e
        | some styles ↦ configured (store styles o)
      ]
    ]
  ]

  unfoldable pub read_members : List Entry → J → TracerOptions D → Configured D (TracerOptions D)
  read_members [] config o = configured o
  read_members (entry ∷ entries) config o = entry config o >>= read_members entries config

  abbrev pub other_entries : List Entry
  other_entries =
      read_member (codes "agent_host") get.get_text (λ v o. record o { agent_host = v })
      ∷ read_member (codes "agent_port") get.get_uint32 (λ v o. record o { agent_port = v })
      ∷ read_member (codes "agent_url") get.get_text (λ v o. record o { agent_url = v })
      ∷ read_member (codes "type") get.get_text (λ v o. record o { type_name = v })
      ∷ read_member (codes "environment") get.get_text (λ v o. record o { environment = v })
      ∷ read_member (codes "tags") get.get_map (λ v o. record o { tags = v })
      ∷ read_member (codes "version") get.get_text (λ v o. record o { version = v })
      ∷ read_member (codes "sample_rate") get.get_double (λ v o. record o { sample_rate = v })
      ∷ read_dump (codes "sampling_rules") (λ v o. record o { sampling_rules = v })
      ∷ read_member (codes "operation_name_override") get.get_text
          (λ v o. record o { operation_name_override = v })
      ∷ read_style_set (codes "propagation_style_extract") invalid_extract
          (λ v o. record o { extract = v })
      ∷ read_style_set (codes "propagation_style_inject") invalid_inject
          (λ v o. record o { inject = v })
      ∷ read_member (codes "dd.trace.report-hostname") get.get_bool
          (λ v o. record o { report_hostname = v })
      ∷ read_member (codes "dd.trace.analytics-enabled") get.get_bool
          (λ v o. record o { analytics_enabled = v })
      ∷ read_member (codes "dd.trace.analytics-sample-rate") get.get_double
          (λ v o. record o { analytics_rate = v })
      ∷ read_member (codes "sampling_limit_per_second") get.get_double
          (λ v o. record o { sampling_limit_per_second = v })
      ∷ read_member (codes "tags_header_size") get.get_uint64
          (λ v o. record o { tags_header_size = v })
      ∷ read_dump (codes "span_sampling_rules") (λ v o. record o { span_sampling_rules = v })
      ∷ []

  -- The second `try` block, key by key.
  abbrev pub config_entries : List Entry
  config_entries =
      read_member (codes "service") get.get_text (λ v o. record o { service = v }) ∷ other_entries

  -- The sanity check at the end.
  unfoldable pub check_service :
      TracerOptions D × List FileComplaint → Configured D (TracerOptions D × List FileComplaint)
  check_service r = if is_empty (r.0).service then refused service_not_set else configured r

  unfoldable pub checked_result :
      Result D (TracerOptions D × List FileComplaint)
      → Configured D (TracerOptions D × List FileComplaint)
  unfolding check_service
  checked_result (error e) = refused (from_environment e)
  checked_result (ok r) = check_service r

  unfoldable pub with_environment :
      TracerOptions D → Configured D (TracerOptions D × List FileComplaint)
  unfolding checked_result
  with_environment o = checked_result (apply_tracer_options_from_environment fl out o)

  -- `optionsFromConfig`.
  unfoldable pub options_from_config : Text → Configured D (TracerOptions D × List FileComplaint)
  unfolding read_members with_environment
  options_from_config configuration = elim (js.parse configuration) [
    | none ↦ refused not_valid_json
    | some config ↦ read_members config_entries config (default_options fl) >>= with_environment
  ]
