-- ===== src/Options/Environment/Sane.antt =====
-- The bounds of the options that `applyTracerOptionsFromEnvironment` of src/tracer_options.cpp
-- sets.
use dd_opentracing_cpp.Prelude.{
  ◌<◌, ◌≡◌, refl, inl, inr, ◌⊎◌, ℤ, pos, negsuc, Bool, true, false, ◌&&◌, ◌||◌, if◌then◌else◌,
  Bool-cases, Option-cases, Text, codes, is_empty, text_eq, arith,
}
use dd_opentracing_cpp.Floats.{Floats}
use dd_opentracing_cpp.Integers.{read_integer, stoi, all_spaces}
use dd_opentracing_cpp.Options.Styles.{tokenize_propagation_style, as_propagation_style}
use dd_opentracing_cpp.Options.Styles.Words.{as_propagation_style-some}
use dd_opentracing_cpp.Options.{
  TracerOptions, non_empty, Stod, no_number, too_large, number, Outside, not_opened, not_read,
  contents, File,
}
use dd_opentracing_cpp.Options.Environment.Kept.{
  Kept, bind-Kept, any-Kept, AllKeep, apply_steps-Kept,
}
use dd_opentracing_cpp.Options.Environment.{
  port_of, NumberError, while_parsing, ok, error, apply_steps, checked_variables, rules_from_file,
  as_uint32, parse_double, read_double, apply_texts, apply_tags, read_port, read_styles,
  read_extract, read_inject, read_bool, read_report_hostname, read_analytics_enabled,
  read_analytics_rate, read_rate_limit, read_trace_sample_rate, apply_span_rules,
  apply_tracer_options_from_environment,
}

module _ {D : Type 0} (fl : Floats D) where
  -- NaN, or within [0, 1].
  abbrev pub is_rate : D → Bool
  is_rate r = fl.is_nan r || (fl.le fl.rate_zero r && fl.le r fl.rate_one)

  -- What the options hold once they are read.
  abbrev pub IsSane : TracerOptions D → Type 0
  IsSane o =
      (o.agent_port < 4294967296)
      × (is_empty o.extract ≡ false)
      × (is_empty o.inject ≡ false)
      × (is_rate o.sample_rate ≡ true)
      × (is_rate o.analytics_rate ≡ true)
      × (fl.le fl.rate_zero o.sampling_limit_per_second ≡ true)

  -- NaN is not a number, and 1 lies within [0, 1].
  pub record HasUnit : Type 0 where
    pub nan_is_nan : fl.is_nan fl.nan ≡ true
    pub zero_one : fl.le fl.rate_zero fl.rate_one ≡ true
    pub one_one : fl.le fl.rate_one fl.rate_one ≡ true

as_uint32-lt : (i : ℤ) → as_uint32 i < 4294967296
as_uint32-lt (pos n) = omega arith
as_uint32-lt (negsuc n) = omega arith

Stod-cases :
    {D : Type 0} (r : Stod D)
    → (r ≡ no_number) ⊎ ((r ≡ too_large) ⊎ ((d : D) × (t : Text) × (r ≡ number d t)))
Stod-cases no_number = inl refl
Stod-cases too_large = inr (inl refl)
Stod-cases (number d t) = inr (inr (d, t, refl))

module _ {D : Type 0} (fl : Floats D) (out : Outside D) where
  -- What `parse_double` accepts is within the bounds.
  abbrev Within : D → D → D ⊎ NumberError D → Type 0
  Within a b (inl d) = (fl.le a d && fl.le d b) ≡ true
  Within a b (inr e) = Unit

  parse_double-Within : (text : Text) (a b : D) → Within a b (parse_double fl out text a b)
  unfolding parse_double
  parse_double-Within text a b = elim (Stod-cases (out.stod text)) [
    | inl e ↦ rw (parse_double, e) tt
    | inr (inl e) ↦ rw (parse_double, e) tt
    | inr (inr (d, t, e)) ↦ elim (Bool-cases (all_spaces t)) [
      | inr h ↦ rw (parse_double, e, h) tt
      | inl h ↦ elim (Bool-cases (fl.le a d && fl.le d b)) [
        | inr g ↦ rw (parse_double, e, h, g) tt
        | inl g ↦ rw (parse_double, e, h, g) g
      ]
    ]
  ]

  double_result :
      (name : Text) (a b : D) (r : D ⊎ NumberError D)
      → Within a b r
      → Kept
          (λ d. (fl.le a d && fl.le d b) ≡ true)
          (elim r [ inl value ↦ ok value | inr e ↦ error (while_parsing name e) ])
  double_result name a b (inl d) h = h
  double_result name a b (inr e) h = tt

  read_double-Kept :
      (name text : Text) (a b : D)
      → Kept (λ d. (fl.le a d && fl.le d b) ≡ true) (read_double fl out name text a b)
  unfolding read_double
  read_double-Kept name text a b =
      double_result name a b (parse_double fl out text a b) (parse_double-Within text a b)

  read_styles-Kept :
      (name text : Text) → Kept (λ s. is_empty s ≡ false) (read_styles fl out name text)
  unfolding read_styles
  read_styles-Kept name text =
      elim (Option-cases (as_propagation_style (tokenize_propagation_style text))) [
        | inl e ↦ rw (e, read_styles) tt
        | inr (f, e) ↦
            rw (e, read_styles) (as_propagation_style-some (tokenize_propagation_style text) f e)
      ]

  port_of-Kept : (text : Text) → Kept (λ n. n < 4294967296) (port_of fl out text)
  unfolding port_of
  port_of-Kept text = elim (Option-cases (read_integer 10 text)) [
    | inl e ↦ rw (e, port_of) tt
    | inr (d, e) ↦ elim (Option-cases (stoi text)) [
      | inl n ↦ rw (e, n, port_of) tt
      | inr (i, n) ↦ rw (e, n, port_of) (as_uint32-lt i)
    ]
  ]

  read_port-Kept :
      (text : Text) (o : TracerOptions D) → IsSane fl o → Kept (IsSane fl) (read_port fl out text o)
  read_port-Kept text o h =
      bind-Kept (λ n. n < 4294967296) (IsSane fl) _ _ (port_of-Kept text)
        (λ n e. (e, h.1, h.2, h.3, h.4, h.5))

  apply_texts-IsSane : (o : TracerOptions D) → IsSane fl o → IsSane fl (apply_texts fl out o)
  unfolding apply_texts
  apply_texts-IsSane o h = h

  apply_tags-IsSane : (o : TracerOptions D) → IsSane fl o → IsSane fl (apply_tags fl out o)
  unfolding apply_tags
  apply_tags-IsSane o h = elim (Option-cases (non_empty (out.getenv (codes "DD_TAGS")))) [
    | inl e ↦ rw (apply_tags, e) h
    | inr (t, e) ↦ rw (apply_tags, e) h
  ]

  read_extract-Kept :
      (text : Text) (o : TracerOptions D)
      → IsSane fl o
      → Kept (IsSane fl) (read_extract fl out text o)
  read_extract-Kept text o h =
      bind-Kept (λ s. is_empty s ≡ false) (IsSane fl) _ _ (read_styles-Kept _ text)
        (λ s e. (h.0, e, h.2, h.3, h.4, h.5))

  read_inject-Kept :
      (text : Text) (o : TracerOptions D)
      → IsSane fl o
      → Kept (IsSane fl) (read_inject fl out text o)
  read_inject-Kept text o h =
      bind-Kept (λ s. is_empty s ≡ false) (IsSane fl) _ _ (read_styles-Kept _ text)
        (λ s e. (h.0, h.1, e, h.3, h.4, h.5))

  read_report_hostname-Kept :
      (text : Text) (o : TracerOptions D)
      → IsSane fl o
      → Kept (IsSane fl) (read_report_hostname fl out text o)
  read_report_hostname-Kept text o h =
      bind-Kept (λ _. Unit {0}) (IsSane fl) _ _ (any-Kept (read_bool fl out _ text)) (λ b _. h)

  read_analytics_rate-Kept :
      (text : Text) (o : TracerOptions D)
      → IsSane fl o
      → Kept (IsSane fl) (read_analytics_rate fl out text o)
  read_analytics_rate-Kept text o h =
      bind-Kept (λ d. (fl.le fl.rate_zero d && fl.le d fl.rate_one) ≡ true) (IsSane fl) _ _
        (read_double-Kept _ text fl.rate_zero fl.rate_one)
        (λ d e. (h.0, h.1, h.2, h.3, ground (arith, e), h.5))

  read_trace_sample_rate-Kept :
      (text : Text) (o : TracerOptions D)
      → IsSane fl o
      → Kept (IsSane fl) (read_trace_sample_rate fl out text o)
  read_trace_sample_rate-Kept text o h =
      bind-Kept (λ d. (fl.le fl.rate_zero d && fl.le d fl.rate_one) ≡ true) (IsSane fl) _ _
        (read_double-Kept _ text fl.rate_zero fl.rate_one)
        (λ d e. (h.0, h.1, h.2, ground (arith, e), h.4, h.5))

  read_rate_limit-Kept :
      (text : Text) (o : TracerOptions D)
      → IsSane fl o
      → Kept (IsSane fl) (read_rate_limit fl out text o)
  read_rate_limit-Kept text o h =
      bind-Kept (λ d. (fl.le fl.rate_zero d && fl.le d out.infinity) ≡ true) (IsSane fl) _ _
        (read_double-Kept _ text fl.rate_zero out.infinity)
        (λ d e. (h.0, h.1, h.2, h.3, h.4, ground (arith, e)))

  module _ (u : HasUnit fl) where
    switched : (b : Bool) → is_rate fl (if b then fl.rate_one else fl.nan) ≡ true
    switched true = ground (arith, u.zero_one, u.one_one)
    switched false = ground (arith, u.nan_is_nan)

    read_analytics_enabled-Kept :
        (text : Text) (o : TracerOptions D)
        → IsSane fl o
        → Kept (IsSane fl) (read_analytics_enabled fl out text o)
    read_analytics_enabled-Kept text o h =
        bind-Kept (λ _. Unit {0}) (IsSane fl) _ _ (any-Kept (read_bool fl out _ text))
          (λ b _. (h.0, h.1, h.2, h.3, switched b, h.5))

  rules_from_file-IsSane :
      (o : TracerOptions D) (name : Text) (f : File)
      → IsSane fl o
      → IsSane fl (rules_from_file fl out o name f).0
  unfolding rules_from_file
  rules_from_file-IsSane o name not_opened h = h
  rules_from_file-IsSane o name not_read h = h
  rules_from_file-IsSane o name (contents text) h = h

  apply_span_rules-IsSane :
      (o : TracerOptions D) → IsSane fl o → IsSane fl (apply_span_rules fl out o).0
  unfolding apply_span_rules
  apply_span_rules-IsSane o h = elim (Option-cases (out.getenv (codes "DD_SPAN_SAMPLING_RULES"))) [
    | inr (t, e) ↦ rw (apply_span_rules, e) h
    | inl e ↦ elim (Option-cases (out.getenv (codes "DD_SPAN_SAMPLING_RULES_FILE"))) [
      | inl f ↦ rw (apply_span_rules, e, f) h
      | inr (name, f) ↦
          rw (apply_span_rules, e, f) (rules_from_file-IsSane o name (out.read_file name) h)
    ]
  ]

  checked-AllKeep : HasUnit fl → AllKeep (IsSane fl) (checked_variables fl out)
  checked-AllKeep u = (
    read_port-Kept,
    (
      read_extract-Kept,
      (
        read_inject-Kept,
        (
          read_report_hostname-Kept,
          (
            read_analytics_enabled-Kept u,
            (read_analytics_rate-Kept, (read_rate_limit-Kept, (read_trace_sample_rate-Kept, tt))),
          ),
        ),
      ),
    ),
  )

  -- The options that come out of `applyTracerOptionsFromEnvironment` are within their bounds if
  -- those that went in were: the port is a 32-bit number, no set of propagation styles is empty,
  -- the sample rate and the analytics rate are NaN or within [0, 1], and the limit of traces per
  -- second is not negative, which rules out NaN. The order of numbers has 0 and 1 in place, and
  -- NaN is one.
  pub apply_tracer_options-IsSane :
      HasUnit fl
      → (input : TracerOptions D) → IsSane fl input
      → Kept (λ r. IsSane fl r.0) (apply_tracer_options_from_environment fl out input)
  unfolding apply_tracer_options_from_environment
  apply_tracer_options-IsSane u input h =
      let start = apply_tags fl out (apply_texts fl out input) in
      bind-Kept (IsSane fl) (λ r. IsSane fl r.0) (apply_steps (checked_variables fl out) start)
        (λ o. ok (apply_span_rules fl out o))
        (apply_steps-Kept (IsSane fl) (checked_variables fl out) start (checked-AllKeep u)
          (apply_tags-IsSane _ (apply_texts-IsSane input h)))
        apply_span_rules-IsSane
