-- ===== src/Options/Environment/Precedence.antt =====
-- Which of the environment and the program decides an option, in
-- `applyTracerOptionsFromEnvironment` of src/tracer_options.cpp.
use mathlib.Core.Path.{ap₂}
use dd_opentracing_cpp.Prelude.{
  [], ◌∷◌, ◌≡◌, refl, ap, ◌∙◌, inl, inr, Bool, true, false, ◌&&◌, ◌||◌, Option, none, some,
  if◌then◌else◌, Option-cases, Text, codes, text_eq, same, find, find-erase,
}
use dd_opentracing_cpp.Floats.{Floats}
use dd_opentracing_cpp.Tags.{TagMap}
use dd_opentracing_cpp.Options.{
  TracerOptions, non_empty, Outside, File, not_opened, not_read, contents,
}
use dd_opentracing_cpp.Options.KeyValues.{Separators, keyvalues}
use dd_opentracing_cpp.Options.Environment.{
  Result, ok, ◌>>=◌, rules_from_file, apply_steps, checked_variables, tag_separators, erase_if,
  is_given, parse_tags, apply_texts, apply_tags, port_of, read_styles, read_double, read_bool,
  apply_span_rules, apply_tracer_options_from_environment,
}
use dd_opentracing_cpp.Options.Environment.Variables.{
  decided_by, is_set_to_text, replaced-decided_by, is_given-is_set_to_text,
}
use dd_opentracing_cpp.Options.Environment.Kept.{
  Kept, bind-Kept, any-Kept, AllKeep, apply_steps-Kept,
}

three_guards :
    {A : Type 0} (a b c : Bool) (o : Option A)
    → (if a then none else if b then none else if c then none else o)
      ≡ (if a || (b || c) then none else o)
three_guards true b c o = refl
three_guards false true c o = refl
three_guards false false c o = refl

module _ {D : Type 0} (fl : Floats D) (out : Outside D) where
  -- A tag that DD_TAGS cannot set: the sampling priority, and those that have a variable of their
  -- own which is set.
  abbrev pub is_reserved : Text → Bool
  is_reserved k =
      same (codes "sampling.priority") k
      || ((is_set_to_text (out.getenv (codes "DD_VERSION")) && same (codes "version") k)
          || (is_set_to_text (out.getenv (codes "DD_ENV")) && same (codes "env") k))

  find-erase_if :
      (c : Bool) (j k : Text) (m : TagMap)
      → find k (erase_if c j m) ≡ (if c && same j k then none else find k m)
  find-erase_if true j k m = find-erase j k m
  find-erase_if false j k m = refl

  -- The tags that are read from DD_TAGS are those of its text, less the reserved ones.
  find-parse_tags :
      (k text : Text)
      → find k (parse_tags fl out text)
        ≡ (if is_reserved k then none else find k (keyvalues tag_separators text))
  unfolding parse_tags
  find-parse_tags k text =
      let all = keyvalues tag_separators text in
      let without_env = erase_if (is_given fl out (codes "DD_ENV")) (codes "env") all in
      let without_version =
        erase_if (is_given fl out (codes "DD_VERSION")) (codes "version") without_env in
      find-erase (codes "sampling.priority") k without_version
      ∙ ap (λ o. if same (codes "sampling.priority") k then none else o)
          (find-erase_if (is_given fl out (codes "DD_VERSION")) (codes "version") k without_env
            ∙ ap
                (λ o.
                  if is_given fl out (codes "DD_VERSION") && same (codes "version") k
                  then none
                  else o)
                (find-erase_if (is_given fl out (codes "DD_ENV")) (codes "env") k all))
      ∙ three_guards (same (codes "sampling.priority") k)
          (is_given fl out (codes "DD_VERSION") && same (codes "version") k)
          (is_given fl out (codes "DD_ENV") && same (codes "env") k) (find k all)
      ∙ ap₂
          (λ v e.
            if same (codes "sampling.priority") k
              || ((v && same (codes "version") k) || (e && same (codes "env") k))
            then none
            else find k all)
          (is_given-is_set_to_text fl out (codes "DD_VERSION"))
          (is_given-is_set_to_text fl out (codes "DD_ENV"))

  -- "key:value,key:value", with a backslash before a separator that stands for itself.
  abbrev pub documented : Separators
  documented = record { itemsep = b':'; tokensep = b','; escape = b'\\' }

  -- The value of a tag: that of the text of DD_TAGS, if there is one that is not empty, less the
  -- reserved tags.
  abbrev pub tag_from : TagMap → Option Text → Text → Option Text
  tag_from old none k = find k old
  tag_from old (some []) k = find k old
  tag_from old (some (c ∷ text)) k =
      if is_reserved k then none else find k (keyvalues documented (c ∷ text))

  find-apply_tags :
      (o : TracerOptions D) (k : Text)
      → find k (apply_tags fl out o).tags ≡ tag_from o.tags (out.getenv (codes "DD_TAGS")) k
  unfolding apply_tags non_empty
  find-apply_tags o k = by_value (out.getenv (codes "DD_TAGS"))
    where
      by_value :
          (v : Option Text)
          → find k
              (elim (non_empty v) as (λ _. TracerOptions D) [
                | none ↦ o
                | some text ↦ record o { tags = parse_tags fl out text }
              ]).tags
            ≡ tag_from o.tags v k
      by_value none = refl
      by_value (some []) = refl
      by_value (some (c ∷ text)) = find-parse_tags k (c ∷ text)

  -- Texts come from the environment where it has one that is not empty, else from the program;
  -- what has no variable comes from the program.
  abbrev pub Follows : TracerOptions D → TracerOptions D → Type 0
  Follows input o =
      (o.environment ≡ decided_by (out.getenv (codes "DD_ENV")) input.environment)
      × (o.service ≡ decided_by (out.getenv (codes "DD_SERVICE")) input.service)
      × (o.version ≡ decided_by (out.getenv (codes "DD_VERSION")) input.version)
      × (o.agent_host ≡ decided_by (out.getenv (codes "DD_AGENT_HOST")) input.agent_host)
      × (o.agent_url ≡ decided_by (out.getenv (codes "DD_TRACE_AGENT_URL")) input.agent_url)
      × (o.sampling_rules
          ≡ decided_by (out.getenv (codes "DD_TRACE_SAMPLING_RULES")) input.sampling_rules)
      × ((k : Text) → find k o.tags ≡ tag_from input.tags (out.getenv (codes "DD_TAGS")) k)
      × (o.type_name ≡ input.type_name)
      × (o.priority_sampling ≡ input.priority_sampling)
      × (o.write_period_ms ≡ input.write_period_ms)
      × (o.operation_name_override ≡ input.operation_name_override)
      × (o.tags_header_size ≡ input.tags_header_size)

  apply_tags-Follows :
      (input : TracerOptions D) → Follows input (apply_tags fl out (apply_texts fl out input))
  unfolding apply_texts apply_tags
  apply_tags-Follows input =
      let by = replaced-decided_by fl out in
      let tags = find-apply_tags (apply_texts fl out input) in
      elim (Option-cases (non_empty (out.getenv (codes "DD_TAGS")))) [
        | inl e ↦
            let t = rw (apply_tags, e) at tags in
            rw (apply_tags, e)
              (
                by (codes "DD_ENV") input.environment,
                by (codes "DD_SERVICE") input.service,
                by (codes "DD_VERSION") input.version,
                by (codes "DD_AGENT_HOST") input.agent_host,
                by (codes "DD_TRACE_AGENT_URL") input.agent_url,
                by (codes "DD_TRACE_SAMPLING_RULES") input.sampling_rules,
                t,
                refl,
                refl,
                refl,
                refl,
                refl,
              )
        | inr (x, e) ↦
            let t = rw (apply_tags, e) at tags in
            rw (apply_tags, e)
              (
                by (codes "DD_ENV") input.environment,
                by (codes "DD_SERVICE") input.service,
                by (codes "DD_VERSION") input.version,
                by (codes "DD_AGENT_HOST") input.agent_host,
                by (codes "DD_TRACE_AGENT_URL") input.agent_url,
                by (codes "DD_TRACE_SAMPLING_RULES") input.sampling_rules,
                t,
                refl,
                refl,
                refl,
                refl,
                refl,
              )
      ]

  rules_from_file-Follows :
      (input o : TracerOptions D) (name : Text) (f : File)
      → Follows input o
      → Follows input (rules_from_file fl out o name f).0
  unfolding rules_from_file
  rules_from_file-Follows input o name not_opened h = h
  rules_from_file-Follows input o name not_read h = h
  rules_from_file-Follows input o name (contents text) h = h

  apply_span_rules-Follows :
      (input o : TracerOptions D) → Follows input o → Follows input (apply_span_rules fl out o).0
  unfolding apply_span_rules
  apply_span_rules-Follows input o h =
      elim (Option-cases (out.getenv (codes "DD_SPAN_SAMPLING_RULES"))) [
        | inr (t, e) ↦ rw (apply_span_rules, e) h
        | inl e ↦ elim (Option-cases (out.getenv (codes "DD_SPAN_SAMPLING_RULES_FILE"))) [
          | inl f ↦ rw (apply_span_rules, e, f) h
          | inr (name, f) ↦
              rw (apply_span_rules, e, f)
                (rules_from_file-Follows input o name (out.read_file name) h)
        ]
      ]

  -- A step that reads a value and stores it elsewhere.
  stored :
      {A : Type 0} (input : TracerOptions D) (r : Result D A) (f : A → TracerOptions D)
      → ((a : A) → Follows input (f a))
      → Kept (Follows input) (r >>= λ a. ok (f a))
  stored input r f h =
      bind-Kept (λ _. Unit {0}) (Follows input) r (λ a. ok (f a)) (any-Kept r) (λ a _. h a)

  checked-Follow : (input : TracerOptions D) → AllKeep (Follows input) (checked_variables fl out)
  checked-Follow input = (
    λ text o h. stored input (port_of fl out text) _ (λ _. h),
    (
      λ text o h. stored input (read_styles fl out _ text) _ (λ _. h),
      (
        λ text o h. stored input (read_styles fl out _ text) _ (λ _. h),
        (
          λ text o h. stored input (read_bool fl out _ text) _ (λ _. h),
          (
            λ text o h. stored input (read_bool fl out _ text) _ (λ _. h),
            (
              λ text o h. stored input (read_double fl out _ text _ _) _ (λ _. h),
              (
                λ text o h. stored input (read_double fl out _ text _ _) _ (λ _. h),
                (λ text o h. stored input (read_double fl out _ text _ _) _ (λ _. h), tt),
              ),
            ),
          ),
        ),
      ),
    ),
  )

  -- The function `applyTracerOptionsFromEnvironment`, where it does not fail, takes the environment
  -- name, the service, the version, the agent's host and URL, the sampling rules and the tags from
  -- their variables where these are set and not empty, and as they were otherwise (of the tags in
  -- DD_TAGS not the sampling priority, nor the environment name or the version where it has a
  -- variable of its own that is set and not empty); and it leaves the span type, the flag for
  -- priority sampling, the write period, the override of the operation name and the size of the
  -- tags header as they were.
  pub apply_tracer_options-Follows :
      (input : TracerOptions D)
      → Kept (λ r. Follows input r.0) (apply_tracer_options_from_environment fl out input)
  unfolding apply_tracer_options_from_environment
  apply_tracer_options-Follows input =
      let start = apply_tags fl out (apply_texts fl out input) in
      bind-Kept (Follows input) (λ r. Follows input r.0)
        (apply_steps (checked_variables fl out) start) (λ o. ok (apply_span_rules fl out o))
        (apply_steps-Kept (Follows input) (checked_variables fl out) start (checked-Follow input)
          (apply_tags-Follows input))
        (apply_span_rules-Follows input)
