-- ===== src/Tracer/Started.antt =====
-- What `StartSpanWithOptions` of src/tracer.cpp starts.
use mathlib.Core.Path.{subst}
use dd_opentracing_cpp.Prelude.{
  Bool-cases, ℕ, ◌≡◌, refl, sym, ap, ◌∙◌, inl, inr, Bool, false, not, Option, none, some, List, [],
  ◌∷◌, Text, codes, is_empty, if_both, text_eq, same, Option-cases,
}
use dd_opentracing_cpp.Floats.{Floats}
use dd_opentracing_cpp.Tags.{TagMap}
use dd_opentracing_cpp.SpanData.{SpanData}
use dd_opentracing_cpp.SpanContext.{SpanContext, Logger, make_context, make_nginx_context, with_id}
use dd_opentracing_cpp.SpanBuffer.{SpanBuffer}
use dd_opentracing_cpp.SpanBuffer.Operations.{registers, step}
use dd_opentracing_cpp.SpanBuffer.Abstract.{Traces, registered, view, spec_step}
use dd_opentracing_cpp.SpanBuffer.Refines.{step-refines}
use dd_opentracing_cpp.Span.{Span}
use dd_opentracing_cpp.Span.Values.{Value, of_string, JsonWriter}
use dd_opentracing_cpp.Span.Tagging.{TimePoint, make_span, set_tag, span_sampling_priority}
use dd_opentracing_cpp.Span.Tagged.{set_tag-Keeps, set_tag-view}
use dd_opentracing_cpp.Tracer.{
  Tracer, root_context, first_parent, child_context, trace_id_from, parent_id_from, Started,
  set_text, set_text_if_any, set_tracer_tags, set_start_tag, set_start_tags, new_span,
  start_span_with_options,
}

module _ {D : Type 0} (fl : Floats D) where
  -- The identifiers of a new span: those in its context agree with those in its data.
  pub record Ids : Type 0 where
    pub context : SpanContext
    pub parent_id : ℕ
    pub traces : Traces

  abbrev pub HasIds : Ids → Span D × SpanBuffer D → Type 0
  HasIds i r =
      ((r.0).context ≡ i.context)
      × (((r.0).span).trace_id ≡ (i.context).trace_id)
      × (((r.0).span).span_id ≡ (i.context).id)
      × (((r.0).span).parent_id ≡ i.parent_id)
      × ((r.0).is_finished ≡ false)
      × (view r.1 ≡ i.traces)

module _ {J D : Type 0} (fl : Floats D) (w : JsonWriter J D) where
  set_tag-HasIds :
      (i : Ids fl) (key : Text) (value : Value D) (r : Started fl w)
      → HasIds fl i r
      → HasIds fl i (set_tag fl w key value r.0 r.1)
  set_tag-HasIds i key value r h =
      let k = set_tag-Keeps fl w key value r.0 r.1 in
      (
        k.0 ∙ h.0,
        k.1 ∙ h.1,
        k.2 ∙ h.2,
        k.3 ∙ h.3,
        k.5 ∙ h.4,
        set_tag-view fl w key value r.0 r.1 ∙ h.5,
      )

  set_text_if_any-HasIds :
      (i : Ids fl) (key value : Text) (r : Started fl w)
      → HasIds fl i r
      → HasIds fl i (set_text_if_any fl w key value r)
  set_text_if_any-HasIds i key value r h =
      if_both (HasIds fl i) (is_empty value) r (set_text fl w key value r) h
        (set_tag-HasIds i key (of_string value) r h)

  set_tracer_tags-HasIds :
      (i : Ids fl) (tags : TagMap) (r : Started fl w)
      → HasIds fl i r
      → HasIds fl i (set_tracer_tags fl w tags r)
  unfolding set_tracer_tags
  set_tracer_tags-HasIds i [] r h = h
  set_tracer_tags-HasIds i ((key, value) ∷ tags) r h =
      set_tracer_tags-HasIds i tags (set_text fl w key value r)
        (set_tag-HasIds i key (of_string value) r h)

  set_start_tag-HasIds :
      (i : Ids fl) (key : Text) (value : Value D) (r : Started fl w)
      → HasIds fl i r
      → HasIds fl i (set_start_tag fl w key value r)
  unfolding set_start_tag
  set_start_tag-HasIds i key value r h =
      let tagged = set_tag-HasIds i key value r h in
      elim (Option-cases (span_sampling_priority fl r.0 r.1)) [
        | inl e ↦
            rw (set_start_tag, e)
              (if_both (HasIds fl i) (same key (codes "sampling.priority")) _ _ tagged tagged)
        | inr (p, e) ↦
            rw (set_start_tag, e)
              (if_both (HasIds fl i) (same key (codes "sampling.priority")) _ _ h tagged)
      ]

  set_start_tags-HasIds :
      (i : Ids fl) (tags : List (Text × Value D)) (r : Started fl w)
      → HasIds fl i r
      → HasIds fl i (set_start_tags fl w tags r)
  unfolding set_start_tags
  set_start_tags-HasIds i [] r h = h
  set_start_tags-HasIds i ((key, value) ∷ tags) r h =
      set_start_tags-HasIds i tags (set_start_tag fl w key value r)
        (set_start_tag-HasIds i key value r h)

  -- The references that are contexts of this library, and the first of them.
  abbrev pub known : List (Option SpanContext) → List SpanContext
  known [] = []
  known (none ∷ references) = known references
  known (some c ∷ references) = c ∷ known references

  abbrev pub first_of : List SpanContext → Option SpanContext
  first_of [] = none
  first_of (c ∷ contexts) = some c

  first_parent-known :
      (references : List (Option SpanContext))
      → first_parent fl references ≡ first_of (known references)
  unfolding first_parent
  first_parent-known [] = refl
  first_parent-known (none ∷ references) = first_parent-known references
  first_parent-known (some c ∷ references) = refl

  -- The identifiers that the new span must have.
  abbrev pub expected_ids : Logger → Text → ℕ → Option SpanContext → SpanBuffer D → Ids fl
  expected_ids logger operation_name span_id none b = record {
    context = record {
      logger = logger;
      nginx_opentracing_compatibility_hack = same operation_name (codes "dummySpan");
      id = span_id;
      trace_id = span_id;
      propagated_sampling_priority = none;
      origin = [];
      baggage = [];
      extracted_trace_tags = [];
    };
    parent_id = 0;
    traces = registered span_id span_id (view b);
  }
  expected_ids logger operation_name span_id (some parent) b = record {
    context = record parent { id = span_id; nginx_opentracing_compatibility_hack = false };
    parent_id = parent.id;
    traces = registered parent.trace_id span_id (view b);
  }

  -- The same in the terms of the source.
  abbrev pub ids_for : Logger → Text → ℕ → Option SpanContext → SpanBuffer D → Ids fl
  ids_for logger operation_name span_id parent b = record {
    context = child_context fl logger operation_name span_id parent;
    parent_id = parent_id_from fl parent;
    traces = registered (trace_id_from fl span_id parent) span_id (view b);
  }

  ids_for-expected :
      (logger : Logger) (operation_name : Text) (span_id : ℕ) (parent : Option SpanContext)
      (b : SpanBuffer D)
      → ids_for logger operation_name span_id parent b
        ≡ expected_ids logger operation_name span_id parent b
  unfolding child_context root_context make_context make_nginx_context with_id
  ids_for-expected logger operation_name span_id none b =
      elim (Bool-cases (same operation_name (codes "dummySpan"))) [
        | inl h ↦ rw (child_context, root_context, h) refl
        | inr h ↦ rw (child_context, root_context, h) refl
      ]
  ids_for-expected logger operation_name span_id (some parent) b = refl

  -- The context has the identifiers.
  pub child_context-ids :
      (logger : Logger) (operation_name : Text) (span_id : ℕ) (parent : Option SpanContext)
      → ((child_context fl logger operation_name span_id parent).trace_id
          ≡ trace_id_from fl span_id parent)
        × ((child_context fl logger operation_name span_id parent).id ≡ span_id)
  unfolding child_context root_context make_context make_nginx_context with_id
  child_context-ids logger operation_name span_id none =
      if_both (λ (c : SpanContext). (c.trace_id ≡ span_id) × (c.id ≡ span_id))
        (same operation_name (codes "dummySpan")) (make_nginx_context logger span_id span_id [])
        (make_context logger span_id span_id [] []) (refl, refl) (refl, refl)
  child_context-ids logger operation_name span_id (some p) = (refl, refl)

  -- The constructor: the span has the identifiers that it is given, and its context is registered.
  make_span-ids :
      (junk : D) (span_id trace_id parent_id : ℕ) (context : SpanContext) (start_time : TimePoint)
      (service type_name name resource operation_name_override : Text) (legacy_obfuscation : Bool)
      (b : SpanBuffer D)
      → let r =
          make_span fl junk span_id trace_id parent_id context start_time service type_name name
            resource operation_name_override legacy_obfuscation b in
        (((r.0).span).trace_id ≡ trace_id)
        × (((r.0).span).span_id ≡ span_id)
        × (((r.0).span).parent_id ≡ parent_id)
        × (view r.1 ≡ registered context.trace_id context.id (view b))
  unfolding make_span step spec_step
  make_span-ids junk span_id trace_id parent_id context start_time service type_name name resource
        operation_name_override legacy_obfuscation b =
      (
        if_both (λ (d : SpanData D). d.trace_id ≡ trace_id) (not (is_empty operation_name_override))
            _ _ refl refl,
        if_both (λ (d : SpanData D). d.span_id ≡ span_id) (not (is_empty operation_name_override)) _
            _ refl refl,
        if_both (λ (d : SpanData D). d.parent_id ≡ parent_id)
            (not (is_empty operation_name_override)) _ _ refl refl,
        step-refines fl (registers junk context) b,
      )

  new_span-HasIds :
      (tracer : Tracer fl) (junk : D) (span_id : ℕ) (start_time : TimePoint) (operation_name : Text)
      (references : List (Option SpanContext)) (b : SpanBuffer D)
      → HasIds fl
          (ids_for tracer.logger operation_name span_id (first_parent fl references) b)
          (new_span fl w tracer junk span_id start_time operation_name references b)
  unfolding new_span make_span
  new_span-HasIds tracer junk span_id start_time operation_name references b =
      let parent = first_parent fl references in
      let c = child_context-ids tracer.logger operation_name span_id parent in
      let m =
        make_span-ids junk span_id (trace_id_from fl span_id parent) (parent_id_from fl parent)
          (child_context fl tracer.logger operation_name span_id parent) start_time
          (tracer.opts).service (tracer.opts).type_name operation_name operation_name
          (tracer.opts).operation_name_override tracer.legacy_obfuscation b in
      (
        refl,
        m.0 ∙ sym c.0,
        m.1 ∙ sym c.1,
        m.2,
        refl,
        m.3
            ∙ ap
                (λ t.
                  registered t (child_context fl tracer.logger operation_name span_id parent).id
                    (view b))
                c.0
            ∙ ap (λ n. registered (trace_id_from fl span_id parent) n (view b)) c.1,
      )

  pub start_span_with_options-ids_for :
      (tracer : Tracer fl) (junk : D) (span_id : ℕ) (start_time : TimePoint) (operation_name : Text)
      (references : List (Option SpanContext)) (tags : List (Text × Value D)) (b : SpanBuffer D)
      → HasIds fl (ids_for tracer.logger operation_name span_id (first_parent fl references) b) (
          start_span_with_options fl w tracer junk span_id start_time operation_name references tags
            b)
  unfolding start_span_with_options
  start_span_with_options-ids_for tracer junk span_id start_time operation_name references tags b =
      let i = ids_for tracer.logger operation_name span_id (first_parent fl references) b in
      let span = new_span fl w tracer junk span_id start_time operation_name references b in
      let with_environment = set_text_if_any fl w (codes "env") (tracer.opts).environment span in
      let with_version =
        set_text_if_any fl w (codes "version") (tracer.opts).version with_environment in
      set_start_tags-HasIds i tags (set_tracer_tags fl w (tracer.opts).tags with_version) (
        set_tracer_tags-HasIds i (tracer.opts).tags with_version (
          set_text_if_any-HasIds i (codes "version") (tracer.opts).version with_environment (
            set_text_if_any-HasIds i (codes "env") (tracer.opts).environment span
              (new_span-HasIds tracer junk span_id start_time operation_name references b))))

  -- `StartSpanWithOptions` starts a span that is not finished, whose context is the child of the
  -- first reference that is a context of this library, or else that of a new trace. A child has the
  -- trace id, the origin, the baggage, the extracted tags, the sampling priority and the logger of
  -- its parent; a new trace has no origin, baggage, tags or priority, and the mark of nginx just if
  -- the operation is named "dummySpan". The trace id and the span id are the same in the context
  -- and in the data; the span id is the new identifier, which a new trace has as its trace id too;
  -- the parent id is the identifier of the parent, or 0. Whatever the tags are, the span buffer has
  -- in its abstract view one registration more, of the span id in the trace of the span, and
  -- nothing else has changed.
  pub start_span_with_options-HasIds :
      (tracer : Tracer fl) (junk : D) (span_id : ℕ) (start_time : TimePoint) (operation_name : Text)
      (references : List (Option SpanContext)) (tags : List (Text × Value D)) (b : SpanBuffer D)
      → HasIds fl
          (expected_ids tracer.logger operation_name span_id (first_of (known references)) b)
          (start_span_with_options fl w tracer junk span_id start_time operation_name references
            tags b)
  start_span_with_options-HasIds tracer junk span_id start_time operation_name references tags b =
      let r =
        start_span_with_options fl w tracer junk span_id start_time operation_name references tags
          b in
      subst (λ i. HasIds fl i r)
        (ap (λ o. ids_for tracer.logger operation_name span_id o b) (first_parent-known references)
          ∙ ids_for-expected tracer.logger operation_name span_id (first_of (known references)) b)
        (start_span_with_options-ids_for tracer junk span_id start_time operation_name references
          tags b)
