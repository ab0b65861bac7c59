-- ===== src/Span/Tagged.antt =====
-- What `SetTag` of src/span.cpp does to the span, to the buffer and to the sampling priority.
use dd_opentracing_cpp.Prelude.{
  Option-cases, ℕ, zero, suc, ℤ, pos, negsuc, map, [], ◌∷◌, ◌≡◌, refl, ap, sym, ◌∙◌, inl, inr,
  Option, none, some, Text, codes, if◌then◌else◌, if_both, ◌==◌, ==_iff, nat_eq, text_eq, same,
  find, find-assign, Bool-cases, arith,
}
use dd_opentracing_cpp.Floats.{Floats}
use dd_opentracing_cpp.Integers.{stoi}
use dd_opentracing_cpp.SamplingPriority.{
  user_drop, user_keep, SamplingPriority, UserSamplingPriority, drop, keep,
  as_sampling_priority_of_user, as_sampling_priority, user_as_int,
}
use dd_opentracing_cpp.PendingTrace.{PendingTrace}
use dd_opentracing_cpp.SpanBuffer.{
  SpanBuffer, find_trace, on_trace, user_priority, get_sampling_priority,
  set_sampling_priority_from_user, set_service_name,
}
use dd_opentracing_cpp.SpanBuffer.Operations.{sets_from_user, names_service, step}
use dd_opentracing_cpp.SpanBuffer.Each.{find-on_trace_ne}
use dd_opentracing_cpp.SpanBuffer.Abstract.{view, spec_step}
use dd_opentracing_cpp.SpanBuffer.Refines.{step-refines}
use dd_opentracing_cpp.Span.{Span}
use dd_opentracing_cpp.Span.Values.{Value, JsonWriter, text_of}
use dd_opentracing_cpp.Span.Tagging.{
  normalize_tag_key, parsed_priority, set_sampling_priority, set_span_service, apply_priority,
  apply_tag, put_tag, set_tag,
}

module _ {D : Type 0} (fl : Floats D) where
  -- What a tag leaves of a span: all but the service and the tags.
  abbrev pub Keeps : Span D → Span D → Type 0
  Keeps s s' =
      (s'.context ≡ s.context)
      × ((s'.span).trace_id ≡ (s.span).trace_id)
      × ((s'.span).span_id ≡ (s.span).span_id)
      × ((s'.span).parent_id ≡ (s.span).parent_id)
      × ((s'.span).name ≡ (s.span).name)
      × (s'.is_finished ≡ s.is_finished)

  -- A statement about what `apply_tag` returns follows from its five cases.
  apply_tag_cases :
      (P : Span D × SpanBuffer D → Type 0) (k result : Text) (s : Span D) (b : SpanBuffer D)
      → P (s, apply_priority fl (parsed_priority result) s b)
      → P (s, set_sampling_priority fl (some keep) s b)
      → P (s, set_sampling_priority fl (some drop) s b)
      → P (set_span_service fl result s b)
      → P (s, b)
      → P (apply_tag fl k result s b)
  unfolding apply_tag
  apply_tag_cases P k result s b p q r t u = if_both P (same k (codes "sampling.priority")) _ _ p (
      if_both P (same k (codes "manual.keep")) _ _ q (
        if_both P (same k (codes "manual.drop")) _ _ r
          (if_both P (same k (codes "service.name")) _ _ t u)))

  apply_priority-view :
      (p : Option (Option UserSamplingPriority)) (s : Span D) (b : SpanBuffer D)
      → view (apply_priority fl p s b) ≡ view b
  unfolding apply_priority step spec_step
  apply_priority-view none s b = refl
  apply_priority-view (some p) s b = step-refines fl (sets_from_user (s.context).trace_id p) b

module _ {J D : Type 0} (fl : Floats D) (w : JsonWriter J D) where
  pub set_tag-Keeps :
      (key : Text) (value : Value D) (s : Span D) (b : SpanBuffer D)
      → Keeps fl s (set_tag fl w key value s b).0
  unfolding set_tag
  set_tag-Keeps key value s b =
      let kept : Keeps fl s (put_tag fl (normalize_tag_key key) (text_of w value) s) =
        (refl, refl, refl, refl, refl, refl) in
      apply_tag_cases fl (λ r. Keeps fl s r.0) (normalize_tag_key key) (text_of w value)
        (put_tag fl (normalize_tag_key key) (text_of w value) s) b kept kept kept kept kept

  -- A tag is neither a registration nor the end of a span.
  pub set_tag-view :
      (key : Text) (value : Value D) (s : Span D) (b : SpanBuffer D)
      → view (set_tag fl w key value s b).1 ≡ view b
  unfolding set_tag step spec_step
  set_tag-view key value s b =
      let s' = put_tag fl (normalize_tag_key key) (text_of w value) s in
      apply_tag_cases fl (λ r. view r.1 ≡ view b) (normalize_tag_key key) (text_of w value) s' b
        (apply_priority-view fl (parsed_priority (text_of w value)) s' b)
        (step-refines fl (sets_from_user (s.context).trace_id (some keep)) b)
        (step-refines fl (sets_from_user (s.context).trace_id (some drop)) b)
        (step-refines fl (names_service (s.span).trace_id (text_of w value)) b) refl

  -- `SetTag` stores the text of the value under the key with '.' for each ':', whatever the key is,
  -- and leaves the other tags as they were.
  pub set_tag-find :
      (key : Text) (value : Value D) (s : Span D) (b : SpanBuffer D) (j : Text)
      → find j ((set_tag fl w key value s b).0).span.meta
        ≡ (if same (normalize_tag_key key) j then some (text_of w value) else find j (s.span).meta)
  unfolding set_tag
  set_tag-find key value s b j =
      let k = normalize_tag_key key in
      let v = text_of w value in
      let stored = find-assign k j v (s.span).meta in
      apply_tag_cases fl
        (λ r. find j ((r.0).span).meta ≡ (if same k j then some v else find j (s.span).meta)) k v
        (put_tag fl k v s) b stored stored stored stored stored

module _ {D : Type 0} (fl : Floats D) where
  abbrev pub asked_by : ℤ → UserSamplingPriority
  asked_by (pos zero) = drop
  asked_by (pos (suc n)) = keep
  asked_by (negsuc n) = keep

  -- What a value of "sampling.priority" asks for; a text that is not a number asks for nothing.
  unfoldable pub asked : Text → Option (Option UserSamplingPriority)
  asked [] = some none
  asked (c ∷ text) = elim (stoi (c ∷ text)) [ none ↦ none | some i ↦ some (some (asked_by i)) ]

  parsed_priority-asked : (text : Text) → parsed_priority text ≡ asked text
  unfolding parsed_priority asked
  parsed_priority-asked [] = refl
  parsed_priority-asked (c ∷ text) = elim (Option-cases (stoi (c ∷ text))) [
    | inl e ↦ rw (parsed_priority, asked, e) refl
    | inr (pos zero, e) ↦ rw (parsed_priority, asked, e) refl
    | inr (pos (suc n), e) ↦ rw (parsed_priority, asked, e) (ground arith)
    | inr (negsuc n, e) ↦ rw (parsed_priority, asked, e) refl
  ]

  -- What a tag asks for: a priority of the user's (`none` in the inner option withdraws it), or
  -- nothing.
  unfoldable pub requested : Text → Text → Option (Option UserSamplingPriority)
  requested k result =
      if same k (codes "sampling.priority")
      then asked result
      else if same k (codes "manual.keep")
      then some (some keep)
      else if same k (codes "manual.drop")
      then some (some drop)
      else none

  abbrev pub of_user : Option UserSamplingPriority → Option SamplingPriority
  of_user none = none
  of_user (some drop) = some user_drop
  of_user (some keep) = some user_keep

  -- The key with '.' for each ':'.
  abbrev pub dotted : Text → Text
  dotted key = map (λ c. if c == b':' then b'.' else c) key

  normalize_tag_key-dotted : (key : Text) → normalize_tag_key key ≡ dotted key
  unfolding normalize_tag_key
  normalize_tag_key-dotted [] = refl
  normalize_tag_key-dotted (c ∷ key) =
      ap (λ t. (if c == b':' then b'.' else c) ∷ t) (normalize_tag_key-dotted key)

  -- The priority of a trace after such a request.
  unfoldable pub priority_after :
      Option (Option UserSamplingPriority) → PendingTrace D → Option SamplingPriority
  priority_after none t = t.sampling_priority
  priority_after (some p) t = if t.sampling_priority_locked then t.sampling_priority else of_user p

  priority_found :
      (id : ℕ) (b : SpanBuffer D) (t : PendingTrace D)
      → find_trace fl id b ≡ some t
      → get_sampling_priority fl id b ≡ t.sampling_priority
  unfolding get_sampling_priority
  priority_found id b t e = rw (get_sampling_priority, e) refl

  find-on_trace_self :
      (id : ℕ) (f : PendingTrace D → PendingTrace D) (b : SpanBuffer D) (t : PendingTrace D)
      → find_trace fl id b ≡ some t
      → find_trace fl id (on_trace fl id f b) ≡ some (f t)
  unfolding on_trace
  find-on_trace_self id f b t e =
      rw (on_trace, e) (ground (arith, find-assign id id (f t) b.traces, ==_iff id id))

  find-on_trace :
      (id j : ℕ) (f : PendingTrace D → PendingTrace D) (b : SpanBuffer D) (t : PendingTrace D)
      → find_trace fl j b ≡ some t
      → find_trace fl j (on_trace fl id f b) ≡ some (if id == j then f t else t)
  unfolding on_trace
  find-on_trace id j f b t e = elim (Bool-cases (id == j)) [
    | inl h ↦
        let i : id ≡ j = (==_iff id j).0 h in
        rw h (
          ap (λ x. find_trace fl x (on_trace fl id f b)) (sym i)
          ∙ find-on_trace_self id f b t (ap (λ x. find_trace fl x b) i ∙ e))
    | inr h ↦ rw h (find-on_trace_ne fl id j f b h ∙ e)
  ]

  user_priority-after :
      (p : Option UserSamplingPriority) (t : PendingTrace D)
      → (user_priority fl p t).sampling_priority ≡ priority_after (some p) t
  unfolding user_priority priority_after as_sampling_priority_of_user as_sampling_priority
      user_as_int
  user_priority-after none t = ground arith
  user_priority-after (some drop) t = ground arith
  user_priority-after (some keep) t = ground arith

  set_sampling_priority-after :
      (p : Option UserSamplingPriority) (s : Span D) (b : SpanBuffer D) (t : PendingTrace D)
      → find_trace fl (s.context).trace_id b ≡ some t
      → get_sampling_priority fl (s.context).trace_id (set_sampling_priority fl p s b)
        ≡ priority_after (some p) t
  unfolding set_sampling_priority_from_user
  set_sampling_priority-after p s b t e =
      priority_found (s.context).trace_id (set_sampling_priority fl p s b) (user_priority fl p t) (
        find-on_trace (s.context).trace_id (s.context).trace_id (user_priority fl p) b t e
        ∙ ap (λ c. some (if c then user_priority fl p t else t))
            ((==_iff (s.context).trace_id (s.context).trace_id).1 refl))
      ∙ user_priority-after p t

  set_service-after :
      (id j : ℕ) (name : Text) (b : SpanBuffer D) (t : PendingTrace D)
      → find_trace fl j b ≡ some t
      → get_sampling_priority fl j (set_service_name fl id name b) ≡ t.sampling_priority
  unfolding set_service_name
  set_service-after id j name b t e =
      priority_found j (set_service_name fl id name b) _ (find-on_trace id j _ b t e)
      ∙ if_both (λ (u : PendingTrace D). u.sampling_priority ≡ t.sampling_priority) (id == j) _ t
          refl refl

  apply_priority-after :
      (p : Option (Option UserSamplingPriority)) (s : Span D) (b : SpanBuffer D)
      (t : PendingTrace D)
      → find_trace fl (s.context).trace_id b ≡ some t
      → get_sampling_priority fl (s.context).trace_id (apply_priority fl p s b) ≡ priority_after p t
  unfolding apply_priority priority_after
  apply_priority-after none s b t e = priority_found (s.context).trace_id b t e
  apply_priority-after (some p) s b t e = set_sampling_priority-after p s b t e

  apply_tag-after :
      (k result : Text) (s : Span D) (b : SpanBuffer D) (t : PendingTrace D)
      → find_trace fl (s.context).trace_id b ≡ some t
      → get_sampling_priority fl (s.context).trace_id (apply_tag fl k result s b).1
        ≡ priority_after (requested k result) t
  unfolding apply_tag requested priority_after
  apply_tag-after k result s b t e = elim (Bool-cases (same k (codes "sampling.priority"))) [
    | inl x ↦
        rw (apply_tag, requested, x, ← parsed_priority-asked result)
          (apply_priority-after (parsed_priority result) s b t e)
    | inr x ↦ elim (Bool-cases (same k (codes "manual.keep"))) [
      | inl y ↦ rw (apply_tag, requested, x, y) (set_sampling_priority-after (some keep) s b t e)
      | inr y ↦ elim (Bool-cases (same k (codes "manual.drop"))) [
        | inl z ↦
            rw (apply_tag, requested, x, y, z) (set_sampling_priority-after (some drop) s b t e)
        | inr z ↦
            rw (apply_tag, requested, x, y, z)
              (if_both
                (λ (r : Span D × SpanBuffer D).
                  get_sampling_priority fl (s.context).trace_id r.1 ≡ t.sampling_priority)
                (same k (codes "service.name")) _ _
                (set_service-after (s.span).trace_id (s.context).trace_id result b t e)
                (priority_found (s.context).trace_id b t e))
      ]
    ]
  ]

module _ {J D : Type 0} (fl : Floats D) (w : JsonWriter J D) where
  -- Where the trace of the span is in the buffer, `SetTag` sets its sampling priority just if the
  -- tag asks for one and the priority is not locked. With '.' for each ':' in the key,
  -- "manual.keep" asks for the user's keep and "manual.drop" for the user's drop, whatever the
  -- value, and "sampling.priority" for a drop if its text is 0, for a keep if it is another number,
  -- and for none if it is empty. Otherwise the priority stays as it is.
  pub set_tag-priority :
      (key : Text) (value : Value D) (s : Span D) (b : SpanBuffer D) (t : PendingTrace D)
      → find_trace fl (s.context).trace_id b ≡ some t
      → get_sampling_priority fl (s.context).trace_id (set_tag fl w key value s b).1
        ≡ priority_after fl (requested fl (dotted fl key) (text_of w value)) t
  unfolding set_tag
  set_tag-priority key value s b t e =
      apply_tag-after fl (normalize_tag_key key) (text_of w value)
        (put_tag fl (normalize_tag_key key) (text_of w value) s) b t e
      ∙ ap (λ k. priority_after fl (requested fl k (text_of w value)) t)
          (normalize_tag_key-dotted fl key)
