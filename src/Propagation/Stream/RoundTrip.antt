-- ===== src/Propagation/Stream/RoundTrip.antt =====
-- A context of src/span_context.cpp that is written to a stream and read again.
use dd_opentracing_cpp.Prelude.{
  DistinctKeys, ℕ, ℤ, ◌≤◌, ◌≡◌, refl, sym, ap, ◌∙◌, inl, inr, Bool, true, false, Option, none, some,
  [], ◌∷◌, Text, codes, is_empty, if◌then◌else◌, text_eq, same, Bool-cases, arith,
}
use dd_opentracing_cpp.Floats.{Floats, u64_max}
use dd_opentracing_cpp.Integers.{to_text}
use dd_opentracing_cpp.Integers.Parsed.{parse_uint64-to_text}
use dd_opentracing_cpp.SamplingPriority.{
  SamplingPriority, user_drop, sampler_drop, sampler_keep, user_keep, as_int, as_sampling_priority,
}
use dd_opentracing_cpp.Tags.{TagMap, decoded, invalid_argument, out_of_fuel, deserialize_tags}
use dd_opentracing_cpp.SpanContext.{Logger, SpanContext, make_context}
use dd_opentracing_cpp.SpanBuffer.{SpanBuffer, get_sampling_priority}
use dd_opentracing_cpp.SpanBuffer.Operations.{serialize_trace_tags}
use dd_opentracing_cpp.Propagation.{enforce_tag_presence_policy, or_else}
use dd_opentracing_cpp.Propagation.Stream.{
  JsonForm, Stream, holds, received_context, put_ids, put_origin, put_priority_json, put_rest,
  message, lock_if_sent, serialize_stream, optional, context_from, read_tail, read_stream_priority,
  id_text, read_ids, read_object, deserialize_stream,
}

-- The documented behaviour of the JSON library: a value that is put under a key is found there,
-- each kind of value is read as what it was made from, a map if its keys are distinct, and a text
-- that was dumped is parsed back.
pub record IsJson {J S : Type 0} (js : JsonForm J S) : Type 0 where
  pub member_empty : (k : Text) → js.member k js.empty ≡ none
  pub member_put :
      (k j : Text) (v o : J)
      → js.member k (js.put j v o) ≡ (if same j k then some v else js.member k o)
  pub get_text_json : (s : Text) → js.get_text (js.text_json s) ≡ some s
  pub get_int_json : (i : ℤ) → js.get_int (js.int_json i) ≡ some i
  pub get_map_json : (m : TagMap) → DistinctKeys m → js.get_map (js.map_json m) ≡ some m
  pub parse_dump : (j : J) (text : S) → js.dump j ≡ some text → js.parse text ≡ some j

empty_is_nil : (s : Text) → is_empty s ≡ true → s ≡ []
empty_is_nil [] h = refl
empty_is_nil (c ∷ s) h = absurd (ground arith)

as_sampling_priority-as_int : (p : SamplingPriority) → as_sampling_priority (as_int p) ≡ some p
unfolding as_sampling_priority
as_sampling_priority-as_int user_drop = refl
as_sampling_priority-as_int sampler_drop = refl
as_sampling_priority-as_int sampler_keep = refl
as_sampling_priority-as_int user_keep = refl

module _ {J S D : Type 0} (js : JsonForm J S) (l : IsJson js) (fl : Floats D)
    (logger : Logger) where
  put_other : (k j : Text) (v o : J) → same j k ≡ false → js.member k (js.put j v o) ≡ js.member k o
  put_other k j v o h = l.member_put k j v o ∙ ap (λ b. if b then some v else js.member k o) h

  -- The keys that are put last.
  rest_other :
      (k tags : Text) (baggage : TagMap) (o : J)
      → same (codes "baggage") k ≡ false
      → same (codes "tags") k ≡ false
      → js.member k (put_rest js fl tags baggage o) ≡ js.member k o
  rest_other k tags baggage o g h =
      put_other k (codes "baggage") _ _ g ∙ put_other k (codes "tags") _ _ h

  origin_other :
      (k origin : Text) (o : J)
      → same (codes "origin") k ≡ false
      → js.member k (put_origin js fl origin o) ≡ js.member k o
  origin_other k origin o h = elim (Bool-cases (is_empty origin)) [
    | inl e ↦ rw e refl
    | inr e ↦ rw e (put_other k (codes "origin") _ _ h)
  ]

  priority_other :
      (k origin : Text) (p : Option SamplingPriority) (o : J)
      → same (codes "origin") k ≡ false
      → same (codes "sampling_priority") k ≡ false
      → js.member k (put_priority_json js fl p origin o) ≡ js.member k o
  priority_other k origin none o g h = refl
  priority_other k origin (some p) o g h =
      origin_other k origin _ g ∙ put_other k (codes "sampling_priority") _ _ h

  ids_other :
      (k : Text) (c : SpanContext)
      → same (codes "parent_id") k ≡ false
      → same (codes "trace_id") k ≡ false
      → js.member k (put_ids js fl c js.empty) ≡ none
  ids_other k c g h =
      put_other k (codes "parent_id") _ _ g
      ∙ put_other k (codes "trace_id") _ _ h
      ∙ l.member_empty k

  member_trace_id :
      (c : SpanContext) (p : Option SamplingPriority) (tags : Text)
      → js.member (codes "trace_id") (message js fl c p tags)
        ≡ some (js.text_json (to_text 10 c.trace_id))
  member_trace_id c p tags =
      rest_other (codes "trace_id") tags c.baggage _ refl refl
      ∙ priority_other (codes "trace_id") c.origin p _ refl refl
      ∙ put_other (codes "trace_id") (codes "parent_id") _ _ refl
      ∙ l.member_put (codes "trace_id") (codes "trace_id") _ js.empty

  member_parent_id :
      (c : SpanContext) (p : Option SamplingPriority) (tags : Text)
      → js.member (codes "parent_id") (message js fl c p tags)
        ≡ some (js.text_json (to_text 10 c.id))
  member_parent_id c p tags =
      rest_other (codes "parent_id") tags c.baggage _ refl refl
      ∙ priority_other (codes "parent_id") c.origin p _ refl refl
      ∙ l.member_put (codes "parent_id") (codes "parent_id") _ _

  -- The priority and the origin, where there are any.
  abbrev priority_value : Option SamplingPriority → Option J
  priority_value none = none
  priority_value (some p) = some (js.int_json (as_int p))

  member_priority :
      (c : SpanContext) (p : Option SamplingPriority) (tags : Text)
      → js.member (codes "sampling_priority") (message js fl c p tags) ≡ priority_value p
  member_priority c none tags =
      rest_other (codes "sampling_priority") tags c.baggage _ refl refl
      ∙ ids_other (codes "sampling_priority") c refl refl
  member_priority c (some p) tags =
      rest_other (codes "sampling_priority") tags c.baggage _ refl refl
      ∙ origin_other (codes "sampling_priority") c.origin _ refl
      ∙ l.member_put (codes "sampling_priority") (codes "sampling_priority") _ _

  abbrev origin_value : Option SamplingPriority → Text → Option J
  origin_value none origin = none
  origin_value (some p) origin = if is_empty origin then none else some (js.text_json origin)

  origin_put :
      (c : SpanContext) (p : SamplingPriority)
      → js.member (codes "origin") (
          put_origin js fl c.origin (
            js.put (codes "sampling_priority") (js.int_json (as_int p)) (put_ids js fl c js.empty)))
        ≡ (if is_empty c.origin then none else some (js.text_json c.origin))
  origin_put c p = elim (Bool-cases (is_empty c.origin)) [
    | inl e ↦ rw e (
        put_other (codes "origin") (codes "sampling_priority") _ _ refl
        ∙ ids_other (codes "origin") c refl refl)
    | inr e ↦ rw e (l.member_put (codes "origin") (codes "origin") _ _)
  ]

  member_origin :
      (c : SpanContext) (p : Option SamplingPriority) (tags : Text)
      → js.member (codes "origin") (message js fl c p tags) ≡ origin_value p c.origin
  member_origin c none tags =
      rest_other (codes "origin") tags c.baggage _ refl refl
      ∙ ids_other (codes "origin") c refl refl
  member_origin c (some p) tags =
      rest_other (codes "origin") tags c.baggage _ refl refl ∙ origin_put c p

  member_tags :
      (c : SpanContext) (p : Option SamplingPriority) (tags : Text)
      → js.member (codes "tags") (message js fl c p tags) ≡ some (js.text_json tags)
  member_tags c p tags =
      put_other (codes "tags") (codes "baggage") _ _ refl
      ∙ l.member_put (codes "tags") (codes "tags") _ _

  member_baggage :
      (c : SpanContext) (p : Option SamplingPriority) (tags : Text)
      → js.member (codes "baggage") (message js fl c p tags) ≡ some (js.map_json c.baggage)
  member_baggage c p tags = l.member_put (codes "baggage") (codes "baggage") _ _

  -- The origin that arrives: it is sent with a priority only.
  abbrev pub origin_sent : Option SamplingPriority → Text → Text
  origin_sent none origin = []
  origin_sent (some p) origin = origin

  origin_read :
      (p : Option SamplingPriority) (origin : Text)
      → optional js logger js.get_text [] (origin_value p origin) ≡ some (origin_sent p origin)
  origin_read none origin = refl
  origin_read (some p) origin = elim (Bool-cases (is_empty origin)) [
    | inl e ↦ rw e (ap some (sym (empty_is_nil origin e)))
    | inr e ↦ rw e (l.get_text_json origin)
  ]

  read_tail_of :
      (id tid : ℕ) (p : Option SamplingPriority) (j : J) (origin tags : Text) (baggage : TagMap)
      → optional js logger js.get_text [] (js.member (codes "origin") j) ≡ some origin
      → optional js logger js.get_map [] (js.member (codes "baggage") j) ≡ some baggage
      → optional js logger js.get_text [] (js.member (codes "tags") j) ≡ some tags
      → read_tail js logger id tid p j
        ≡ received_context (context_from js logger id tid p origin baggage tags)
  unfolding read_tail
  read_tail_of id tid p j origin tags baggage e f g = rw (read_tail, e, f, g) refl

  -- The context that arrives.
  abbrev pub arrived : SpanContext → Option SamplingPriority → Text → SpanContext
  arrived c p tags = record {
    logger = logger;
    nginx_opentracing_compatibility_hack = false;
    id = c.id;
    trace_id = c.trace_id;
    propagated_sampling_priority = p;
    origin = origin_sent p c.origin;
    baggage = c.baggage;
    extracted_trace_tags = elim (deserialize_tags tags) [
      | decoded m ↦ m
      | invalid_argument entry ↦ []
      | out_of_fuel ↦ []
    ];
  }

  context_from-arrived :
      (c : SpanContext) (p : Option SamplingPriority) (tags : Text)
      → context_from js logger c.id c.trace_id p (origin_sent p c.origin) c.baggage tags
        ≡ arrived c p tags
  unfolding context_from make_context
  context_from-arrived c p tags = refl

  read_tail-message :
      (c : SpanContext) (p : Option SamplingPriority) (tags : Text)
      → DistinctKeys c.baggage
      → read_tail js logger c.id c.trace_id p (message js fl c p tags)
        ≡ received_context (arrived c p tags)
  read_tail-message c p tags d =
      read_tail_of c.id c.trace_id p (message js fl c p tags) (origin_sent p c.origin) tags
        c.baggage
        (ap (optional js logger js.get_text []) (member_origin c p tags) ∙ origin_read p c.origin)
        (ap (optional js logger js.get_map []) (member_baggage c p tags)
          ∙ l.get_map_json c.baggage d)
        (ap (optional js logger js.get_text []) (member_tags c p tags) ∙ l.get_text_json tags)
      ∙ ap received_context (context_from-arrived c p tags)

  read_stream_priority-message :
      (c : SpanContext) (p : Option SamplingPriority) (tags : Text)
      → DistinctKeys c.baggage
      → read_stream_priority js logger c.id c.trace_id (message js fl c p tags)
        ≡ received_context (arrived c p tags)
  unfolding read_stream_priority
  read_stream_priority-message c none tags d =
      rw (read_stream_priority, member_priority c none tags) (read_tail-message c none tags d)
  read_stream_priority-message c (some p) tags d =
      rw
        (
          read_stream_priority,
          member_priority c (some p) tags,
          l.get_int_json (as_int p),
          as_sampling_priority-as_int p,
        )
        (read_tail-message c (some p) tags d)

  id_read :
      (key : Text) (n : ℕ) (j : J)
      → js.member key j ≡ some (js.text_json (to_text 10 n))
      → id_text js logger key j ≡ some (to_text 10 n)
  id_read key n j e = rw (id_text, e) (l.get_text_json (to_text 10 n))

  read_ids-message :
      (c : SpanContext) (p : Option SamplingPriority) (tags : Text)
      → c.trace_id ≤ u64_max
      → c.id ≤ u64_max
      → DistinctKeys c.baggage
      → read_ids js logger (message js fl c p tags) ≡ received_context (arrived c p tags)
  unfolding read_ids
  read_ids-message c p tags ht hi d =
      rw
        (
          read_ids,
          id_read (codes "trace_id") c.trace_id _ (member_trace_id c p tags),
          id_read (codes "parent_id") c.id _ (member_parent_id c p tags),
          parse_uint64-to_text 10 c.trace_id (inl refl) ht,
          parse_uint64-to_text 10 c.id (inl refl) hi,
        )
        (read_stream_priority-message c p tags d)

  read_object-message :
      (c : SpanContext) (p : Option SamplingPriority) (tags : Text)
      → c.trace_id ≤ u64_max
      → c.id ≤ u64_max
      → DistinctKeys c.baggage
      → read_object js logger (message js fl c p tags) ≡ received_context (arrived c p tags)
  unfolding read_object enforce_tag_presence_policy
  read_object-message c p tags ht hi d =
      rw (read_object, member_trace_id c p tags, member_parent_id c p tags)
        (read_ids-message c p tags ht hi d)

  deserialize_stream-message :
      (c : SpanContext) (p : Option SamplingPriority) (tags : Text) (text : S)
      → c.trace_id ≤ u64_max
      → c.id ≤ u64_max
      → DistinctKeys c.baggage
      → js.dump (message js fl c p tags) ≡ some text
      → deserialize_stream js logger (holds text) ≡ received_context (arrived c p tags)
  unfolding deserialize_stream
  deserialize_stream-message c p tags text ht hi d e =
      rw (deserialize_stream, l.parse_dump (message js fl c p tags) text e)
        (read_object-message c p tags ht hi d)

  -- The priority and the tags that `serialize` gets from the span buffer.
  abbrev pub priority_sent : Bool → SpanContext → SpanBuffer D → Option SamplingPriority
  priority_sent true c b = get_sampling_priority fl c.trace_id b
  priority_sent false c b = none

  abbrev pub tags_sent : Bool → SpanContext → SpanBuffer D → Text
  tags_sent enabled c b =
      or_else []
        (serialize_trace_tags fl c.trace_id
          (lock_if_sent js fl (priority_sent enabled c b) c.trace_id b)).1

  -- The object that is sent.
  abbrev pub message_sent : Bool → SpanContext → SpanBuffer D → J
  message_sent enabled c b = message js fl c (priority_sent enabled c b) (tags_sent enabled c b)

  -- `serialize` writes the text of an object to a stream that is good, where the JSON library can
  -- dump the object, as it can if all strings in it are UTF-8; and `deserialize` reads that text
  -- back, where the identifiers fit 64 bits, the baggage has distinct keys and the JSON library
  -- reads what it wrote: it gives a context with the trace, the span as the parent, the baggage,
  -- the sampling priority that the span buffer has, if sampling by priority is enabled, and the
  -- origin if a priority is sent; the tags are those that the text from the span buffer decodes to.
  pub deserialize_stream-serialize_stream :
      {W : Type 0} (st : Stream W S) (enabled : Bool) (c : SpanContext) (b : SpanBuffer D)
      (writer : W) (text : S)
      → st.good writer ≡ true
      → js.dump (message_sent enabled c b) ≡ some text
      → c.trace_id ≤ u64_max
      → c.id ≤ u64_max
      → DistinctKeys c.baggage
      → ((serialize_stream js fl st enabled c b writer).1 ≡ st.put_text text writer)
        × (deserialize_stream js logger (holds text)
            ≡ received_context (arrived c (priority_sent enabled c b) (tags_sent enabled c b)))
  unfolding serialize_stream
  deserialize_stream-serialize_stream st true c b writer text g e ht hi d = (
    rw (serialize_stream, g, e) refl,
    deserialize_stream-message c (priority_sent true c b) (tags_sent true c b) text ht hi d e,
  )
  deserialize_stream-serialize_stream st false c b writer text g e ht hi d = (
    rw (serialize_stream, g, e) refl,
    deserialize_stream-message c (priority_sent false c b) (tags_sent false c b) text ht hi d e,
  )
