-- ===== src/Options/Environment.antt =====
-- `applyTracerOptionsFromEnvironment` of src/tracer_options.cpp. A step of it is a function of the
-- options: it changes them, or ends the whole with an error. The errors stand for the texts of the
-- source, and carry what these quote.
pub mod Kept
pub mod Variables
pub mod Precedence
pub mod Sane
use dd_opentracing_cpp.Prelude.{
  ℕ, ◌+◌, ◌-◌, ◌%◌, ℤ, ◌⊎◌, inl, inr, pos, negsuc, Bool, true, false, not, ◌&&◌, ◌||◌, Option, none,
  some, List, [], ◌∷◌, if◌then◌else◌, Text, codes, is_empty, text_eq, find, erase,
}
use dd_opentracing_cpp.Floats.{Floats}
use dd_opentracing_cpp.Tribool.{stob, isbool}
use dd_opentracing_cpp.Integers.{read_integer, stoi, all_spaces}
use dd_opentracing_cpp.Tags.{TagMap}
use dd_opentracing_cpp.Propagation.{PropagationStyle}
use dd_opentracing_cpp.Options.KeyValues.{Separators, keyvalues}
use dd_opentracing_cpp.Options.Styles.{tokenize_propagation_style, as_propagation_style}
use dd_opentracing_cpp.Options.{
  TracerOptions, non_empty, File, not_opened, not_read, contents, Stod, no_number, too_large,
  number, Outside,
}

-- Why a text is not accepted as a number.
pub data NumberError (D : Type 0) : Type 0 where
  trailing_characters : Text → NumberError D
  not_within_bounds : D → D → D → NumberError D
  not_a_double : Text → NumberError D
  not_in_range : Text → NumberError D

pub data OptionError (D : Type 0) : Type 0 where
  invalid_value : Text → OptionError D
  value_out_of_range : Text → OptionError D
  while_parsing : Text → NumberError D → OptionError D

pub data Result {ℓ} (D : Type 0) (A : Type ℓ) : Type ℓ where
  ok : A → Result D A
  error : OptionError D → Result D A

infixl 5 ◌>>=◌
abbrev pub ◌>>=◌ {ℓ κ} :
    {D : Type 0} {A : Type ℓ} {B : Type κ} → Result D A → (A → Result D B) → Result D B
ok a >>= f = f a
error e >>= f = error e

-- A line that `applySpanSamplingRulesFromEnvironment` logs.
pub data FileComplaint : Type 0 where
  both_specified : FileComplaint
  unable_to_open unable_to_read : Text → FileComplaint

-- The conversion of an `int` to `uint32_t`.
abbrev pub as_uint32 : ℤ → ℕ
as_uint32 (pos n) = n % 4294967296
as_uint32 (negsuc n) = 4294967295 - n % 4294967296

abbrev pub tag_separators : Separators
tag_separators = record { itemsep = b':'; tokensep = b','; escape = b'\\' }

-- `if (found) tags.erase(key)`, under a condition.
abbrev pub erase_if : Bool → Text → TagMap → TagMap
erase_if c key tags = if c then erase key tags else tags

-- A step for a variable, where it is set.
abbrev pub on_value {ℓ} :
    {D : Type 0} {A : Type ℓ} → Option Text → (Text → A → Result D A) → A → Result D A
on_value none f o = ok o
on_value (some value) f o = f value o

-- A variable and what is done with it.
abbrev pub Step : Type 0 → Type 0
Step D = Option Text × (Text → TracerOptions D → Result D (TracerOptions D))

unfoldable pub apply_steps :
    {D : Type 0} → List (Step D) → TracerOptions D → Result D (TracerOptions D)
apply_steps [] o = ok o
apply_steps ((value, f) ∷ steps) o = on_value value f o >>= λ o'. apply_steps steps o'

module _ {D : Type 0} (fl : Floats D) (out : Outside D) where
  -- `parseDouble`.
  unfoldable pub parse_double : Text → D → D → D ⊎ NumberError D
  parse_double text minimum maximum = elim (out.stod text) [
    | no_number ↦ inr (not_a_double text)
    | too_large ↦ inr (not_in_range text)
    | number value behind ↦
        if not (all_spaces behind)
        then inr (trailing_characters text)
        else if not (fl.le minimum value && fl.le value maximum)
        then inr (not_within_bounds minimum maximum value)
        else inl value
  ]

  -- The number of a variable.
  unfoldable pub read_double : Text → Text → D → D → Result D D
  unfolding parse_double
  read_double name text minimum maximum = elim (parse_double text minimum maximum) [
    | inl value ↦ ok value
    | inr e ↦ error (while_parsing name e)
  ]

  -- The variables that replace a text.
  abbrev pub replaced : Text → Text → Text
  replaced name old = elim (non_empty (out.getenv name)) [ none ↦ old | some value ↦ value ]

  unfoldable pub apply_texts : TracerOptions D → TracerOptions D
  apply_texts o = record o {
    environment = replaced (codes "DD_ENV") o.environment;
    service = replaced (codes "DD_SERVICE") o.service;
    version = replaced (codes "DD_VERSION") o.version;
    agent_host = replaced (codes "DD_AGENT_HOST") o.agent_host;
    sampling_rules = replaced (codes "DD_TRACE_SAMPLING_RULES") o.sampling_rules;
    agent_url = replaced (codes "DD_TRACE_AGENT_URL") o.agent_url;
  }

  abbrev pub is_given : Text → Bool
  is_given name = elim (non_empty (out.getenv name)) [ none ↦ false | some _ ↦ true ]

  -- The tags of DD_TAGS, less those that have a variable of their own.
  unfoldable pub parse_tags : Text → TagMap
  parse_tags text =
      let all = keyvalues tag_separators text in
      let without_env = erase_if (is_given (codes "DD_ENV")) (codes "env") all in
      let without_version =
        erase_if (is_given (codes "DD_VERSION")) (codes "version") without_env in
      erase (codes "sampling.priority") without_version

  unfoldable pub apply_tags : TracerOptions D → TracerOptions D
  unfolding parse_tags
  apply_tags o = elim (non_empty (out.getenv (codes "DD_TAGS"))) [
    | none ↦ o
    | some text ↦ record o { tags = parse_tags text }
  ]

  unfoldable pub port_of : Text → Result D ℕ
  port_of text = elim (read_integer 10 text) [
    | none ↦ error (invalid_value (codes "DD_TRACE_AGENT_PORT"))
    | some _ ↦ elim (stoi text) [
      | none ↦ error (value_out_of_range (codes "DD_TRACE_AGENT_PORT"))
      | some port ↦ ok (as_uint32 port)
    ]
  ]

  abbrev pub read_port : Text → TracerOptions D → Result D (TracerOptions D)
  read_port text o = port_of text >>= λ port. ok (record o { agent_port = port })

  unfoldable pub read_styles : Text → Text → Result D (List PropagationStyle)
  read_styles name text = elim (as_propagation_style (tokenize_propagation_style text)) [
    | none ↦ error (invalid_value name)
    | some styles ↦ ok styles
  ]

  abbrev pub read_extract : Text → TracerOptions D → Result D (TracerOptions D)
  read_extract text o = read_styles (codes "DD_PROPAGATION_STYLE_EXTRACT") text >>= λ styles.
      ok (record o { extract = styles })

  abbrev pub read_inject : Text → TracerOptions D → Result D (TracerOptions D)
  read_inject text o = read_styles (codes "DD_PROPAGATION_STYLE_INJECT") text >>= λ styles.
      ok (record o { inject = styles })

  -- An empty text is false.
  unfoldable pub read_bool : Text → Text → Result D Bool
  read_bool name text =
      if is_empty text || isbool text then ok (stob text false) else error (invalid_value name)

  abbrev pub read_report_hostname : Text → TracerOptions D → Result D (TracerOptions D)
  read_report_hostname text o = read_bool (codes "DD_TRACE_REPORT_HOSTNAME") text >>= λ b.
      ok (record o { report_hostname = b })

  abbrev pub read_analytics_enabled : Text → TracerOptions D → Result D (TracerOptions D)
  read_analytics_enabled text o = read_bool (codes "DD_TRACE_ANALYTICS_ENABLED") text >>= λ b.
      ok (record o { analytics_enabled = b; analytics_rate = if b then fl.rate_one else fl.nan })

  abbrev pub read_analytics_rate : Text → TracerOptions D → Result D (TracerOptions D)
  read_analytics_rate text o =
      read_double (codes "DD_TRACE_ANALYTICS_SAMPLE_RATE") text fl.rate_zero fl.rate_one >>= λ rate.
      ok (record o { analytics_enabled = true; analytics_rate = rate })

  abbrev pub read_rate_limit : Text → TracerOptions D → Result D (TracerOptions D)
  read_rate_limit text o =
      read_double (codes "DD_TRACE_RATE_LIMIT") text fl.rate_zero out.infinity >>= λ limit.
      ok (record o { sampling_limit_per_second = limit })

  abbrev pub read_trace_sample_rate : Text → TracerOptions D → Result D (TracerOptions D)
  read_trace_sample_rate text o =
      read_double (codes "DD_TRACE_SAMPLE_RATE") text fl.rate_zero fl.rate_one >>= λ rate.
      ok (record o { sample_rate = rate })

  -- The rules of the file that DD_SPAN_SAMPLING_RULES_FILE names.
  unfoldable pub rules_from_file :
      TracerOptions D → Text → File → TracerOptions D × List FileComplaint
  rules_from_file o file not_opened = (o, unable_to_open file ∷ [])
  rules_from_file o file not_read = (o, unable_to_read file ∷ [])
  rules_from_file o file (contents text) = (record o { span_sampling_rules = text }, [])

  -- `applySpanSamplingRulesFromEnvironment`.
  unfoldable pub apply_span_rules : TracerOptions D → TracerOptions D × List FileComplaint
  unfolding rules_from_file
  apply_span_rules o = elim (out.getenv (codes "DD_SPAN_SAMPLING_RULES")) [
    | some rules ↦ (
      record o { span_sampling_rules = rules },
      elim (out.getenv (codes "DD_SPAN_SAMPLING_RULES_FILE")) [
        | none ↦ []
        | some _ ↦ both_specified ∷ []
      ],
    )
    | none ↦ elim (out.getenv (codes "DD_SPAN_SAMPLING_RULES_FILE")) [
      | none ↦ (o, [])
      | some file ↦ rules_from_file o file (out.read_file file)
    ]
  ]

  -- The variables that may be refused, in the order in which they are read.
  abbrev pub checked_variables : List (Step D)
  checked_variables =
      (non_empty (out.getenv (codes "DD_TRACE_AGENT_PORT")), read_port)
      ∷ (non_empty (out.getenv (codes "DD_PROPAGATION_STYLE_EXTRACT")), read_extract)
      ∷ (non_empty (out.getenv (codes "DD_PROPAGATION_STYLE_INJECT")), read_inject)
      ∷ (out.getenv (codes "DD_TRACE_REPORT_HOSTNAME"), read_report_hostname)
      ∷ (out.getenv (codes "DD_TRACE_ANALYTICS_ENABLED"), read_analytics_enabled)
      ∷ (out.getenv (codes "DD_TRACE_ANALYTICS_SAMPLE_RATE"), read_analytics_rate)
      ∷ (out.getenv (codes "DD_TRACE_RATE_LIMIT"), read_rate_limit)
      ∷ (out.getenv (codes "DD_TRACE_SAMPLE_RATE"), read_trace_sample_rate)
      ∷ []

  -- `applyTracerOptionsFromEnvironment`: the options and the lines that are logged.
  unfoldable pub apply_tracer_options_from_environment :
      TracerOptions D → Result D (TracerOptions D × List FileComplaint)
  unfolding apply_texts apply_tags apply_span_rules apply_steps
  apply_tracer_options_from_environment input = do
    checked ← apply_steps checked_variables (apply_tags (apply_texts input))
    ok (apply_span_rules checked)
