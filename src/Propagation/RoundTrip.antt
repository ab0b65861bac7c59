-- ===== src/Propagation/RoundTrip.antt =====
-- A context that src/span_context.cpp injects into headers and extracts again.
use dd_opentracing_cpp.Prelude.{
  ℕ, ◌≤◌, ◌≡◌, ◌∙◌, refl, sym, false, Option, none, some, List, [], ◌∷◌, ◌++◌, Text, is_empty,
  if◌then◌else◌, text_eq, nat_eq, find, emplace, arith, append-nil, append_assoc,
}
use dd_opentracing_cpp.Floats.{u64_max}
use dd_opentracing_cpp.Tags.{TagMap, decoded, deserialize_tags}
use dd_opentracing_cpp.Tags.RoundTrip.{Distinct, Apart, Apart-nil, Apart-append}
use dd_opentracing_cpp.SamplingPriority.{SamplingPriority}
use dd_opentracing_cpp.SpanContext.{Logger, SpanContext, make_context}
use dd_opentracing_cpp.Propagation.{
  Given, HeadersImpl, PropagationStyle, propagation_headers, baggage_prefix, or_else, Fields,
  no_fields, read_entry, read_entries, enforce_tag_presence_policy, deserialize_headers, extracted,
}
use dd_opentracing_cpp.Propagation.Entries.{
  arriving, read_trace_id, read_span_id, read_priority, read_origin, read_tags, read_baggage,
}

emplace_all : TagMap → TagMap → TagMap
emplace_all m [] = m
emplace_all m ((k, v) ∷ ts) = emplace_all (emplace k v m) ts

emplace_new : (k v : Text) (m : TagMap) → find k m ≡ none → emplace k v m ≡ m ++ (k, v) ∷ []
unfolding find emplace
emplace_new k v [] h = refl
emplace_new k v ((j, w) ∷ m) h = ground (arith, emplace_new k v m)

emplace_all-Distinct : (m ts : TagMap) → Apart m ts → Distinct ts → emplace_all m ts ≡ m ++ ts
unfolding emplace_all
emplace_all-Distinct m [] a d = sym (append-nil m)
emplace_all-Distinct m ((k, v) ∷ ts) a d = rw (emplace_new k v m a.0) (
    emplace_all-Distinct (m ++ (k, v) ∷ []) ts (Apart-append m (k, v) ts a.1 d.0) d.1
    ∙ append_assoc m ((k, v) ∷ []) ts)

-- The entries of the baggage.
abbrev pub baggage_entries : TagMap → List (Text × Text)
baggage_entries [] = []
baggage_entries ((k, v) ∷ ts) = (baggage_prefix ++ k, v) ∷ baggage_entries ts

abbrev pub origin_entries : PropagationStyle → Text → List (Text × Text)
origin_entries style o =
    if is_empty o then [] else ((propagation_headers style).origin_header, o) ∷ []

-- The entries from the origin on, and all entries.
abbrev pub late_entries : PropagationStyle → Text → TagMap → Text → List (Text × Text)
late_entries style o baggage text =
    origin_entries style o
    ++ ((propagation_headers style).tags_header, text) ∷ baggage_entries baggage

abbrev pub entries : PropagationStyle → SpanContext → SamplingPriority → Text → List (Text × Text)
entries style c p text =
    ((propagation_headers style).trace_id_header, (propagation_headers style).encode_id c.trace_id)
    ∷ ((propagation_headers style).span_id_header, (propagation_headers style).encode_id c.id)
    ∷ (
      (propagation_headers style).sampling_priority_header,
      (propagation_headers style).encode_sampling_priority p,
    )
    ∷ late_entries style c.origin c.baggage text

pub read_entries-cons :
    (h : HeadersImpl) (e : Text × Text) (es : List (Text × Text)) (x y : Fields)
    → read_entry h e x ≡ some y
    → read_entries h (e ∷ es) x ≡ read_entries h es y
unfolding read_entries
read_entries-cons h e es x y r = rw (read_entries, r) refl

read_entries-baggage :
    (style : PropagationStyle) (ts : TagMap) (x : Fields)
    → read_entries (propagation_headers style) (baggage_entries ts) x
      ≡ some (record x { baggage = emplace_all x.baggage ts })
unfolding read_entries emplace_all
read_entries-baggage style [] x = refl
read_entries-baggage style ((k, v) ∷ ts) x =
    read_entries-cons (propagation_headers style) (baggage_prefix ++ k, v) (baggage_entries ts) x _
      (read_baggage style k v x)
    ∙ read_entries-baggage style ts (record x { baggage = emplace k v x.baggage })

-- The origin that arrives: an empty one is not sent.
abbrev sent_origin : Text → Option Text
sent_origin o = if is_empty o then none else some o

-- What the first three entries set.
abbrev early_fields : ℕ → ℕ → SamplingPriority → Fields
early_fields trace_id id p = record no_fields {
  trace_id = some trace_id;
  parent_id = some id;
  sampling_priority = some p;
}

read_entries-tags :
    (style : PropagationStyle) (baggage : TagMap) (text : Text) (tags : TagMap) (x : Fields)
    → deserialize_tags text ≡ decoded tags
    → read_entries
        (propagation_headers style)
        (((propagation_headers style).tags_header, text) ∷ baggage_entries baggage)
        x
      ≡ some (record x { trace_tags = tags; baggage = emplace_all x.baggage baggage })
unfolding read_entries
read_entries-tags style baggage text tags x e =
    read_entries-cons (propagation_headers style) ((propagation_headers style).tags_header, text)
      (baggage_entries baggage) x _ (read_tags style text tags x e)
    ∙ read_entries-baggage style baggage (record x { trace_tags = tags })

read_entries-late :
    (style : PropagationStyle) (o : Text) (baggage : TagMap) (text : Text) (tags : TagMap)
    (trace_id id : ℕ) (p : SamplingPriority)
    → deserialize_tags text ≡ decoded tags
    → read_entries
        (propagation_headers style)
        (late_entries style o baggage text)
        (early_fields trace_id id p)
      ≡ some (record (early_fields trace_id id p) {
        origin = sent_origin o;
        trace_tags = tags;
        baggage = emplace_all [] baggage;
      })
read_entries-late style [] baggage text tags trace_id id p e =
    read_entries-tags style baggage text tags (early_fields trace_id id p) e
read_entries-late style (a ∷ o) baggage text tags trace_id id p e =
    read_entries-cons (propagation_headers style) ((propagation_headers style).origin_header, a ∷ o)
      _ _ _ (read_origin style (a ∷ o) (early_fields trace_id id p))
    ∙ read_entries-tags style baggage text tags
        (record (early_fields trace_id id p) { origin = some (a ∷ o) }) e

read_entries-entries :
    (style : PropagationStyle) (c : SpanContext) (p : SamplingPriority) (text : Text)
    (tags : TagMap)
    → c.trace_id ≤ u64_max
    → c.id ≤ u64_max
    → deserialize_tags text ≡ decoded tags
    → read_entries (propagation_headers style) (entries style c p text) no_fields
      ≡ some (record (early_fields c.trace_id c.id (arriving style p)) {
        origin = sent_origin c.origin;
        trace_tags = tags;
        baggage = emplace_all [] c.baggage;
      })
unfolding read_entries
read_entries-entries style c p text tags ht hi e =
    let h = propagation_headers style in
    let late = late_entries style c.origin c.baggage text in
    let third : Text × Text = (h.sampling_priority_header, h.encode_sampling_priority p) in
    let second : Text × Text = (h.span_id_header, h.encode_id c.id) in
    let traced : Fields = record no_fields { trace_id = some c.trace_id } in
    let spanned : Fields = record traced { parent_id = some c.id } in
    read_entries-cons h (h.trace_id_header, h.encode_id c.trace_id) (second ∷ third ∷ late)
      no_fields traced (read_trace_id style c.trace_id no_fields ht)
    ∙ read_entries-cons h second (third ∷ late) traced spanned (read_span_id style c.id traced hi)
    ∙ read_entries-cons h third late spanned (early_fields c.trace_id c.id (arriving style p))
        (read_priority style p spanned)
    ∙ read_entries-late style c.origin c.baggage text tags c.trace_id c.id (arriving style p) e

-- The context that arrives.
abbrev pub received :
    Logger → PropagationStyle → SpanContext → SamplingPriority → TagMap → SpanContext
received logger style c p tags = record c {
  logger = logger;
  nginx_opentracing_compatibility_hack = false;
  propagated_sampling_priority = some (arriving style p);
  extracted_trace_tags = tags;
}

origin_kept : (o : Text) → or_else [] (sent_origin o) ≡ o
origin_kept [] = refl
origin_kept (a ∷ o) = refl

pub deserialize_headers-entries :
    (given : Given) (style : PropagationStyle) (c : SpanContext) (p : SamplingPriority)
    (text : Text) (tags : TagMap)
    → c.trace_id ≤ u64_max
    → c.id ≤ u64_max
    → Distinct c.baggage
    → deserialize_tags text ≡ decoded tags
    → deserialize_headers given (propagation_headers style) (entries style c p text)
      ≡ extracted (received given.logger style c p tags)
unfolding deserialize_headers enforce_tag_presence_policy make_context
deserialize_headers-entries given style c p text tags ht hi d e =
    rw
      (
        deserialize_headers,
        read_entries-entries style c p text tags ht hi e,
        emplace_all-Distinct [] c.baggage (Apart-nil c.baggage) d,
        origin_kept c.origin,
      )
      refl
