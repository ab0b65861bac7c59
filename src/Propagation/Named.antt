-- ===== src/Propagation/Named.antt =====
-- Under which keys `SpanContext::serialize` of src/span_context.cpp writes to a carrier, and the
-- names that `getPropagationHeaderNames` lists.
use dd_opentracing_cpp.Prelude.{
  ◌≡◌, refl, ◌⊎◌, inl, inr, Bool, true, false, Option, none, some, List, [], ◌∷◌, ◌++◌, Text, codes,
  is_empty, if◌then◌else◌, Option-cases,
}
use dd_opentracing_cpp.Floats.{Floats}
use dd_opentracing_cpp.Tags.{TagMap}
use dd_opentracing_cpp.SpanContext.{SpanContext}
use dd_opentracing_cpp.SpanBuffer.{SpanBuffer, get_sampling_priority, lock_sampling_priority}
use dd_opentracing_cpp.SpanBuffer.Operations.{serialize_trace_tags}
use dd_opentracing_cpp.Propagation.{
  HeadersImpl, PropagationStyle, propagation_headers, baggage_prefix, has_prefix, or_else,
}
use dd_opentracing_cpp.Propagation.Inject.{
  Action, and_then, nothing, set_header, inject_priority, inject_tags, inject_baggage,
  serialize_headers, serialize, get_propagation_header_names,
}

abbrev pub Among : List Text → Text → Type 0
Among [] k = ⊥
Among (name ∷ names) k = (k ≡ name) ⊎ Among names k

-- A key that is listed, or one of the baggage.
abbrev pub Named : List Text → Text → Type 0
Named names k = Among names k ⊎ (has_prefix k baggage_prefix ≡ true)

module _ {D W E : Type 0} (fl : Floats D) (set_entry : Text → Text → W → W × Option E)
    (Allowed : Text → Type 0) (Good : W → Type 0)
    (set_keeps : (k v : Text) (w : W) → Allowed k → Good w → Good (set_entry k v w).0) where
  -- An action that leaves a carrier good which was good.
  abbrev Keeps : Action fl set_entry → Type 0
  Keeps f = (b : SpanBuffer D) (w : W) → Good w → Good (f b w).1

  -- What `and_then` does with the result of its first action.
  abbrev continued : Action fl set_entry → SpanBuffer D × W × Option E → SpanBuffer D × W × Option E
  continued g (b, w, none) = g b w
  continued g (b, w, some error) = (b, w, some error)

  continued-Keeps :
      (g : Action fl set_entry)
      → Keeps g
      → (r : SpanBuffer D × W × Option E) → Good r.1
      → Good (continued g r).1
  continued-Keeps g hg (b, w, none) h = hg b w h
  continued-Keeps g hg (b, w, some error) h = h

  and_then-Keeps :
      (f g : Action fl set_entry) → Keeps f → Keeps g → Keeps (and_then fl set_entry f g)
  and_then-Keeps f g hf hg b w h = continued-Keeps g hg (f b w) (hf b w h)

  set_header-Keeps : (k v : Text) → Allowed k → Keeps (set_header fl set_entry k v)
  set_header-Keeps k v a b w h = set_keeps k v w a h

  if-Keeps : (c : Bool) (f g : Action fl set_entry) → Keeps f → Keeps g → Keeps (if c then f else g)
  if-Keeps true f g hf hg = hf
  if-Keeps false f g hf hg = hg

  hack-Keeps :
      (c : Bool) (f g : Action fl set_entry) (b : SpanBuffer D) (w : W)
      → Keeps f
      → Keeps g
      → Good w
      → Good (if c then f b w else g b w).1
  hack-Keeps true f g b w hf hg h = hf b w h
  hack-Keeps false f g b w hf hg h = hg b w h

  nothing-Keeps : Keeps (nothing fl set_entry)
  nothing-Keeps b w h = h

  inject_priority-Keeps :
      (h : HeadersImpl) (c : SpanContext)
      → Allowed h.sampling_priority_header
      → Allowed h.origin_header
      → Keeps (inject_priority fl set_entry h c)
  unfolding inject_priority
  inject_priority-Keeps h c hp ho b w good =
      let origin : Action fl set_entry = set_header fl set_entry h.origin_header c.origin in
      let tell_origin : Action fl set_entry =
        if is_empty c.origin then nothing fl set_entry else origin in
      elim (Option-cases (get_sampling_priority fl c.trace_id b)) [
        | inl e ↦
            rw (inject_priority, e)
              (hack-Keeps c.nginx_opentracing_compatibility_hack
                (set_header fl set_entry h.sampling_priority_header (codes "1"))
                (nothing fl set_entry) b w
                (set_header-Keeps h.sampling_priority_header (codes "1") hp) nothing-Keeps good)
        | inr (p, e) ↦
            rw (inject_priority, e)
              (and_then-Keeps
                (set_header fl set_entry h.sampling_priority_header (h.encode_sampling_priority p))
                tell_origin
                (set_header-Keeps h.sampling_priority_header (h.encode_sampling_priority p) hp)
                (if-Keeps (is_empty c.origin) (nothing fl set_entry) origin nothing-Keeps
                  (set_header-Keeps h.origin_header c.origin ho))
                (lock_sampling_priority fl c.trace_id b) w good)
      ]

  inject_tags-Keeps :
      (h : HeadersImpl) (c : SpanContext)
      → Allowed h.tags_header
      → Keeps (inject_tags fl set_entry h c)
  unfolding inject_tags
  inject_tags-Keeps h c ht b w good =
      set_keeps h.tags_header (or_else [] (serialize_trace_tags fl c.trace_id b).1) w ht good

  module _ (baggage_allowed : (k : Text) → Allowed (baggage_prefix ++ k)) where
    inject_baggage-Keeps : (baggage : TagMap) → Keeps (inject_baggage fl set_entry baggage)
    unfolding inject_baggage
    inject_baggage-Keeps [] = nothing-Keeps
    inject_baggage-Keeps ((k, v) ∷ baggage) =
        and_then-Keeps (set_header fl set_entry (baggage_prefix ++ k) v)
          (inject_baggage fl set_entry baggage)
          (set_header-Keeps (baggage_prefix ++ k) v (baggage_allowed k))
          (inject_baggage-Keeps baggage)

    serialize_headers-Keeps :
        (h : HeadersImpl) (enabled : Bool) (c : SpanContext)
        → Allowed h.trace_id_header
        → Allowed h.span_id_header
        → Keeps (if enabled then inject_priority fl set_entry h c else nothing fl set_entry)
        → Allowed h.tags_header
        → Keeps (serialize_headers fl set_entry h enabled c)
    unfolding serialize_headers
    serialize_headers-Keeps h enabled c h1 h2 h3 h4 =
        let ids : Action fl set_entry =
          set_header fl set_entry h.span_id_header (h.encode_id c.id) in
        let priority : Action fl set_entry =
          if enabled then inject_priority fl set_entry h c else nothing fl set_entry in
        let baggage : Action fl set_entry = inject_baggage fl set_entry c.baggage in
        let tags : Action fl set_entry =
          and_then fl set_entry (inject_tags fl set_entry h c) baggage in
        let rest : Action fl set_entry = and_then fl set_entry priority tags in
        and_then-Keeps (set_header fl set_entry h.trace_id_header (h.encode_id c.trace_id))
          (and_then fl set_entry ids rest)
          (set_header-Keeps h.trace_id_header (h.encode_id c.trace_id) h1)
          (and_then-Keeps ids rest (set_header-Keeps h.span_id_header (h.encode_id c.id) h2) (
            and_then-Keeps priority tags h3 (
              and_then-Keeps (inject_tags fl set_entry h c) baggage (inject_tags-Keeps h c h4)
                (inject_baggage-Keeps c.baggage))))

    serialize-Keeps :
        (styles : List PropagationStyle) (enabled : Bool) (c : SpanContext)
        → ((k : Text) → Among (get_propagation_header_names styles enabled) k → Allowed k)
        → Keeps (serialize fl set_entry styles enabled c)
    unfolding serialize get_propagation_header_names
    serialize-Keeps [] enabled c a = nothing-Keeps
    serialize-Keeps (style ∷ styles) true c a =
        let h = propagation_headers style in
        and_then-Keeps (serialize_headers fl set_entry h true c)
          (serialize fl set_entry styles true c)
          (serialize_headers-Keeps h true c (a h.trace_id_header (inl refl))
            (a h.span_id_header (inr (inl refl)))
            (inject_priority-Keeps h c (a h.sampling_priority_header (inr (inr (inl refl))))
              (a h.origin_header (inr (inr (inr (inl refl))))))
            (a h.tags_header (inr (inr (inr (inr (inl refl)))))))
          (serialize-Keeps styles true c (λ k n. a k (inr (inr (inr (inr (inr n)))))))
    serialize-Keeps (style ∷ styles) false c a =
        let h = propagation_headers style in
        and_then-Keeps (serialize_headers fl set_entry h false c)
          (serialize fl set_entry styles false c)
          (serialize_headers-Keeps h false c (a h.trace_id_header (inl refl))
            (a h.span_id_header (inr (inl refl))) nothing-Keeps
            (a h.tags_header (inr (inr (inl refl)))))
          (serialize-Keeps styles false c (λ k n. a k (inr (inr (inr n)))))

-- `serialize`, with any styles, writes to a carrier under no other key than those that
-- `getPropagationHeaderNames` lists for the same styles and those with the prefix of the baggage:
-- what holds of a carrier and is kept when an entry is set under such a key holds of the carrier
-- afterwards, also if setting an entry fails on the way.
pub serialize-Named :
    {D W E : Type 0} (fl : Floats D) (set_entry : Text → Text → W → W × Option E)
    (styles : List PropagationStyle) (enabled : Bool) (c : SpanContext) (Good : W → Type 0)
    → ((k v : Text) (w : W)
        → Named (get_propagation_header_names styles enabled) k
        → Good w
        → Good (set_entry k v w).0)
    → (b : SpanBuffer D) (w : W) → Good w
    → Good (serialize fl set_entry styles enabled c b w).1
serialize-Named fl set_entry styles enabled c Good keeps =
    serialize-Keeps fl set_entry (Named (get_propagation_header_names styles enabled)) Good keeps
      (λ k. inr refl) styles enabled c (λ k n. inl n)
