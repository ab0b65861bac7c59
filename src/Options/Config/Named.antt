-- ===== src/Options/Config/Named.antt =====
-- The service name that `optionsFromConfig` of src/tracer_factory.cpp ends with.
use dd_opentracing_cpp.Prelude.{
  ◌≡◌, sym, inl, inr, false, Option, none, some, List, [], ◌∷◌, Bool-cases, Option-cases, Text,
  codes, is_empty, arith,
}
use dd_opentracing_cpp.Floats.{Floats}
use dd_opentracing_cpp.Json.{Json, Getters}
use dd_opentracing_cpp.Propagation.{PropagationStyle}
use dd_opentracing_cpp.Options.Styles.{as_propagation_style}
use dd_opentracing_cpp.Options.{TracerOptions, default_options, Outside}
use dd_opentracing_cpp.Options.Environment.{Result, ok, error, FileComplaint}
use dd_opentracing_cpp.Options.Environment.Variables.{decided_by}
use dd_opentracing_cpp.Options.Environment.Kept.{Kept}
use dd_opentracing_cpp.Options.Environment.Precedence.{Follows, apply_tracer_options-Follows}
use dd_opentracing_cpp.Options.Config.{
  ConfigError, Configured, configured, refused, ◌>>=◌, Entry, read_member, read_dump,
  read_style_set, read_members, config_entries, other_entries, check_service, checked_result,
  with_environment, options_from_config,
}

-- What a configuration must be where it is not refused.
abbrev pub Holds {ℓ κ} : {D : Type 0} {A : Type ℓ} → (A → Type κ) → Configured D A → Type κ
Holds P (configured a) = P a
Holds P (refused e) = Unit

bind-Holds {ℓ κ} :
    {D : Type 0} {A B : Type ℓ} (P : A → Type κ) (Q : B → Type κ) (r : Configured D A)
    (f : A → Configured D B)
    → Holds P r
    → ((a : A) → P a → Holds Q (f a))
    → Holds Q (r >>= f)
bind-Holds P Q (configured a) f h k = k a h
bind-Holds P Q (refused e) f h k = tt

module _ {J D : Type 0} (fl : Floats D) (js : Json J D) (get : Getters J D) (out : Outside D) where
  read_member-Holds :
      {A : Type 0} (P : TracerOptions D → Type 0) (key : Text) (getter : J → Option A)
      (store : A → TracerOptions D → TracerOptions D) (config : J) (o : TracerOptions D)
      → P o
      → ((a : A) → P (store a o))
      → Holds P (read_member fl js get out key getter store config o)
  unfolding read_member
  read_member-Holds P key getter store config o h k = elim (Option-cases (js.member key config)) [
    | inl e ↦ rw (read_member, e) h
    | inr (v, e) ↦ elim (Option-cases (getter v)) [
      | inl n ↦ rw (read_member, e, n) tt
      | inr (a, n) ↦ rw (read_member, e, n) (k a)
    ]
  ]

  read_dump-Holds :
      (P : TracerOptions D → Type 0) (key : Text) (store : Text → TracerOptions D → TracerOptions D)
      (config : J) (o : TracerOptions D)
      → P o
      → ((a : Text) → P (store a o))
      → Holds P (read_dump fl js get out key store config o)
  unfolding read_dump
  read_dump-Holds P key store config o h k = elim (Option-cases (js.member key config)) [
    | inl e ↦ rw (read_dump, e) h
    | inr (v, e) ↦ rw (read_dump, e) (k (js.dump v))
  ]

  read_style_set-Holds :
      (P : TracerOptions D → Type 0) (key : Text) (err : ConfigError D)
      (store : List PropagationStyle → TracerOptions D → TracerOptions D) (config : J)
      (o : TracerOptions D)
      → P o
      → ((a : List PropagationStyle) → P (store a o))
      → Holds P (read_style_set fl js get out key err store config o)
  unfolding read_style_set
  read_style_set-Holds P key err store config o h k = elim (Option-cases (js.member key config)) [
    | inl e ↦ rw (read_style_set, e) h
    | inr (v, e) ↦ elim (Option-cases (get.get_texts v)) [
      | inl n ↦ rw (read_style_set, e, n) tt
      | inr (names, n) ↦ elim (Option-cases (as_propagation_style names)) [
        | inl m ↦ rw (read_style_set, e, n, m) tt
        | inr (styles, m) ↦ rw (read_style_set, e, n, m) (k styles)
      ]
    ]
  ]

  -- What every entry keeps.
  abbrev EntriesKeep : (TracerOptions D → Type 0) → J → List (Entry fl js get out) → Type 0
  EntriesKeep P config [] = Unit {0}
  EntriesKeep P config (entry ∷ entries) =
      ((o : TracerOptions D) → P o → Holds P (entry config o)) × EntriesKeep P config entries

  read_members-Holds :
      (P : TracerOptions D → Type 0) (entries : List (Entry fl js get out)) (config : J)
      (o : TracerOptions D)
      → EntriesKeep P config entries
      → P o
      → Holds P (read_members fl js get out entries config o)
  unfolding read_members
  read_members-Holds P [] config o k h = h
  read_members-Holds P (entry ∷ entries) config o k h =
      bind-Holds P P (entry config o) (read_members fl js get out entries config) (k.0 o h)
        (λ o' h'. read_members-Holds P entries config o' k.1 h')

  -- The service that a configuration names; an empty text if it names none.
  unfoldable pub service_in : J → Text
  service_in config = elim (js.member (codes "service") config) [
    | none ↦ []
    | some v ↦ elim (get.get_text v) [ none ↦ [] | some service ↦ service ]
  ]

  abbrev Named : J → TracerOptions D → Type 0
  Named config o = o.service ≡ service_in config

  service_in-none :
      (config : J) → js.member (codes "service") config ≡ none → service_in config ≡ []
  unfolding service_in
  service_in-none config e = ground (arith, e)

  service_in-some :
      (config v : J) (service : Text)
      → js.member (codes "service") config ≡ some v
      → get.get_text v ≡ some service
      → service_in config ≡ service
  unfolding service_in
  service_in-some config v service e n = ground (arith, e, n)

  first_entry-Named :
      (config : J)
      → Holds (Named config) (
          read_member fl js get out
            (codes "service")
            get.get_text
            (λ v o. record o { service = v })
            config
            (default_options fl))
  unfolding read_member
  first_entry-Named config = elim (Option-cases (js.member (codes "service") config)) [
    | inl e ↦ rw (read_member, e) (sym (service_in-none config e))
    | inr (v, e) ↦ elim (Option-cases (get.get_text v)) [
      | inl n ↦ rw (read_member, e, n) tt
      | inr (a, n) ↦ rw (read_member, e, n) (sym (service_in-some config v a e n))
    ]
  ]

  -- The other entries leave the service alone.
  others-Keep : (config : J) → EntriesKeep (Named config) config (other_entries fl js get out)
  others-Keep config =
      let P : TracerOptions D → Type 0 = Named config in
      (
        λ o h. read_member-Holds P _ _ _ config o h (λ a. h),
        (
          λ o h. read_member-Holds P _ _ _ config o h (λ a. h),
          (
            λ o h. read_member-Holds P _ _ _ config o h (λ a. h),
            (
              λ o h. read_member-Holds P _ _ _ config o h (λ a. h),
              (
                λ o h. read_member-Holds P _ _ _ config o h (λ a. h),
                (
                  λ o h. read_member-Holds P _ _ _ config o h (λ a. h),
                  (
                    λ o h. read_member-Holds P _ _ _ config o h (λ a. h),
                    (
                      λ o h. read_member-Holds P _ _ _ config o h (λ a. h),
                      (
                        λ o h. read_dump-Holds P _ _ config o h (λ a. h),
                        (
                          λ o h. read_member-Holds P _ _ _ config o h (λ a. h),
                          (
                            λ o h. read_style_set-Holds P _ _ _ config o h (λ a. h),
                            (
                              λ o h. read_style_set-Holds P _ _ _ config o h (λ a. h),
                              (
                                λ o h. read_member-Holds P _ _ _ config o h (λ a. h),
                                (
                                  λ o h. read_member-Holds P _ _ _ config o h (λ a. h),
                                  (
                                    λ o h. read_member-Holds P _ _ _ config o h (λ a. h),
                                    (
                                      λ o h. read_member-Holds P _ _ _ config o h (λ a. h),
                                      (
                                        λ o h. read_member-Holds P _ _ _ config o h (λ a. h),
                                        (λ o h. read_dump-Holds P _ _ config o h (λ a. h), tt),
                                      ),
                                    ),
                                  ),
                                ),
                              ),
                            ),
                          ),
                        ),
                      ),
                    ),
                  ),
                ),
              ),
            ),
          ),
        ),
      )

  config-Named :
      (config : J)
      → Holds
          (Named config)
          (read_members fl js get out (config_entries fl js get out) config (default_options fl))
  unfolding read_members
  config-Named config =
      bind-Holds (Named config) (Named config) _
        (read_members fl js get out (other_entries fl js get out) config) (first_entry-Named config)
        (λ o h.
          read_members-Holds (Named config) (other_entries fl js get out) config o
            (others-Keep config) h)

  -- The text that `config.find` finds under "service", if the configuration can be parsed.
  unfoldable pub service_of_text : Text → Text
  service_of_text configuration = elim (js.parse configuration) [
    | none ↦ []
    | some config ↦ service_in config
  ]

  -- A result with a service, which is the environment's or else `name`.
  abbrev pub HasService : Text → TracerOptions D × List FileComplaint → Type 0
  HasService name r =
      (is_empty (r.0).service ≡ false)
      × ((r.0).service ≡ decided_by (out.getenv (codes "DD_SERVICE")) name)

  check_service-Holds :
      (name : Text) (r : TracerOptions D × List FileComplaint)
      → (r.0).service ≡ decided_by (out.getenv (codes "DD_SERVICE")) name
      → Holds (HasService name) (check_service fl js get out r)
  unfolding check_service
  check_service-Holds name r h = elim (Bool-cases (is_empty (r.0).service)) [
    | inl e ↦ rw (check_service, e) tt
    | inr e ↦ rw (check_service, e) (e, h)
  ]

  environment_result :
      (o : TracerOptions D) (r : Result D (TracerOptions D × List FileComplaint))
      → Kept (λ r. Follows fl out o r.0) r
      → Holds (HasService o.service) (checked_result fl js get out r)
  unfolding checked_result
  environment_result o (ok r) k = check_service-Holds o.service r k.1
  environment_result o (error e) k = tt

  with_environment-Holds :
      (o : TracerOptions D) → Holds (HasService o.service) (with_environment fl js get out o)
  unfolding with_environment
  with_environment-Holds o = environment_result o _ (apply_tracer_options-Follows fl out o)

  -- `optionsFromConfig`, where it succeeds, gives options with a service name that is not empty:
  -- the value of DD_SERVICE where that is set and not empty, else the text under "service" in the
  -- configuration.
  pub options_from_config-HasService :
      (configuration : Text)
      → Holds
          (HasService (service_of_text configuration))
          (options_from_config fl js get out configuration)
  unfolding options_from_config with_environment service_of_text
  options_from_config-HasService configuration = elim (Option-cases (js.parse configuration)) [
    | inl e ↦ rw (options_from_config, e) tt
    | inr (config, e) ↦
        rw (options_from_config, service_of_text, e)
          (bind-Holds (Named config) (HasService (service_in config)) _
            (with_environment fl js get out) (config-Named config)
            (λ o h. rw (← h) (with_environment-Holds o)))
  ]
