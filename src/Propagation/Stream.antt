-- ===== src/Propagation/Stream.antt =====
-- The JSON form of a context on a stream, in src/span_context.cpp: `serialize(std::ostream&)` and
-- `deserialize(logger, std::istream&)`. The JSON library and the stream are parameters.
pub mod RoundTrip
use dd_opentracing_cpp.Prelude.{
  ℕ, ℤ, Bool, true, false, not, ◌&&◌, ◌||◌, Option, none, some, List, [], ◌∷◌, Text, codes,
  is_empty, if◌then◌else◌,
}
use dd_opentracing_cpp.Floats.{Floats}
use dd_opentracing_cpp.Integers.{to_text, parse_uint64}
use dd_opentracing_cpp.SamplingPriority.{SamplingPriority, as_int, as_sampling_priority}
use dd_opentracing_cpp.Tags.{TagMap, decoded, invalid_argument, out_of_fuel, deserialize_tags}
use dd_opentracing_cpp.SpanContext.{SpanContext, Logger, make_context}
use dd_opentracing_cpp.SpanBuffer.{SpanBuffer, get_sampling_priority, lock_sampling_priority}
use dd_opentracing_cpp.SpanBuffer.Operations.{serialize_trace_tags}
use dd_opentracing_cpp.Propagation.{
  both_empty, corrupted_ids, complete, enforce_tag_presence_policy, is_set, or_else,
}

-- What the source uses of the JSON library here. `S` is the text of a JSON value. The readers give
-- `none` for a `type_error`.
pub record JsonForm (J S : Type 0) : Type 0 where
  pub empty : J
  pub text_json : Text → J
  pub int_json : ℤ → J
  pub map_json : TagMap → J
  -- `j[key] = value`.
  pub put : Text → J → J → J
  pub member : Text → J → Option J
  pub get_text : J → Option Text
  pub get_int : J → Option ℤ
  pub get_map : J → Option TagMap
  -- `none` for a `type_error`: a string is not UTF-8.
  pub dump : J → Option S
  -- `reader >> j`.
  pub parse : S → Option J

-- An output stream: `good()` and `<<`.
pub record Stream (W S : Type 0) : Type 0 where
  pub good : W → Bool
  pub put_text : S → W → W

-- The results of `serialize`. `not_dumped` is the exception of `dump`, which no handler of the
-- source catches.
pub data ToStream : Type 0 where
  sent not_sent not_dumped : ToStream

-- An input stream: one that is not `good()`, one at its end, or one that holds a text.
pub data Input (S : Type 0) : Type 0 where
  not_good at_end : Input S
  holds : S → Input S

-- The results of `deserialize`. `type_mismatch` is the library's exception for a value of another
-- type, which no handler of the source catches.
pub data FromStream : Type 0 where
  io_error nothing_encoded context_corrupted no_valid_value type_mismatch : FromStream
  received_context : SpanContext → FromStream

module _ {J S D : Type 0} (js : JsonForm J S) (fl : Floats D) where
  abbrev pub put_ids : SpanContext → J → J
  put_ids context j =
      js.put (codes "parent_id") (js.text_json (to_text 10 context.id))
        (js.put (codes "trace_id") (js.text_json (to_text 10 context.trace_id)) j)

  abbrev pub put_origin : Text → J → J
  put_origin origin j =
      if is_empty origin then j else js.put (codes "origin") (js.text_json origin) j

  -- The part under `if (sampling_priority != nullptr && prioritySamplingEnabled)`.
  abbrev pub put_priority_json : Option SamplingPriority → Text → J → J
  put_priority_json none origin j = j
  put_priority_json (some p) origin j =
      put_origin origin (js.put (codes "sampling_priority") (js.int_json (as_int p)) j)

  abbrev pub put_rest : Text → TagMap → J → J
  put_rest tags baggage j =
      js.put (codes "baggage") (js.map_json baggage) (js.put (codes "tags") (js.text_json tags) j)

  -- The priority that is sent.
  abbrev pub sent_priority : Bool → Option SamplingPriority → Option SamplingPriority
  sent_priority enabled priority = if enabled then priority else none

  -- The object, for the priority and the text of the trace tags.
  abbrev pub message : SpanContext → Option SamplingPriority → Text → J
  message context priority tags =
      put_rest tags context.baggage
        (put_priority_json priority context.origin (put_ids context js.empty))

  -- The buffer while the object is made.
  abbrev pub lock_if_sent : Option SamplingPriority → ℕ → SpanBuffer D → SpanBuffer D
  lock_if_sent none trace_id b = b
  lock_if_sent (some p) trace_id b = lock_sampling_priority fl trace_id b

  -- `writer << text`, and the test of the stream behind it.
  abbrev pub write_dumped :
      {W : Type 0} → Stream W S → Option S → SpanBuffer D → W → SpanBuffer D × W × ToStream
  write_dumped st none b writer = (b, writer, not_dumped)
  write_dumped st (some text) b writer =
      let written = st.put_text text writer in
      (b, written, if st.good written then sent else not_sent)

  -- `serialize(writer, pending_traces, prioritySamplingEnabled)`.
  unfoldable pub serialize_stream :
      {W : Type 0}
      → Stream W S
      → Bool
      → SpanContext
      → SpanBuffer D
      → W
      → SpanBuffer D × W × ToStream
  serialize_stream st enabled context b writer =
      let priority = sent_priority enabled (get_sampling_priority fl context.trace_id b) in
      let tagged =
        serialize_trace_tags fl context.trace_id (lock_if_sent priority context.trace_id b) in
      if not (st.good writer)
      then (b, writer, not_sent)
      else write_dumped st (js.dump (message context priority (or_else [] tagged.1))) tagged.0
          writer

module _ {J S : Type 0} (js : JsonForm J S) (logger : Logger) where
  -- A value that may be absent: the outer `none` is a value of another type.
  abbrev pub optional {ℓ} : {A : Type ℓ} → (J → Option A) → A → Option J → Option A
  optional getter absent none = some absent
  optional getter absent (some v) = getter v

  -- The context from what was read. An error in the tags is logged only.
  unfoldable pub context_from : ℕ → ℕ → Option SamplingPriority → Text → TagMap → Text → SpanContext
  context_from parent_id trace_id priority origin baggage tags =
      record (make_context logger parent_id trace_id origin baggage) {
        propagated_sampling_priority = priority;
        extracted_trace_tags = elim (deserialize_tags tags) [
          | decoded m ↦ m
          | invalid_argument entry ↦ []
          | out_of_fuel ↦ []
        ];
      }

  -- From the origin on.
  unfoldable pub read_tail : ℕ → ℕ → Option SamplingPriority → J → FromStream
  unfolding context_from
  read_tail parent_id trace_id priority j =
      elim (optional js.get_text [] (js.member (codes "origin") j)) [
        | none ↦ type_mismatch
        | some origin ↦ elim (optional js.get_map [] (js.member (codes "baggage") j)) [
          | none ↦ type_mismatch
          | some baggage ↦ elim (optional js.get_text [] (js.member (codes "tags") j)) [
            | none ↦ type_mismatch
            | some tags ↦
                received_context (context_from parent_id trace_id priority origin baggage tags)
          ]
        ]
      ]

  unfoldable pub read_stream_priority : ℕ → ℕ → J → FromStream
  unfolding read_tail
  read_stream_priority parent_id trace_id j = elim (js.member (codes "sampling_priority") j) [
    | none ↦ read_tail parent_id trace_id none j
    | some v ↦ elim (js.get_int v) [
      | none ↦ type_mismatch
      | some i ↦ elim (as_sampling_priority i) [
        | none ↦ context_corrupted
        | some p ↦ read_tail parent_id trace_id (some p) j
      ]
    ]
  ]

  -- `std::string id_str = j[key]`, where a missing value is null, which is no string.
  abbrev pub id_text : Text → J → Option Text
  id_text key j = elim (js.member key j) [ none ↦ none | some v ↦ js.get_text v ]

  unfoldable pub read_ids : J → FromStream
  unfolding read_stream_priority
  read_ids j = elim (id_text (codes "trace_id") j) [
    | none ↦ type_mismatch
    | some trace_id_str ↦ elim (id_text (codes "parent_id") j) [
      | none ↦ type_mismatch
      | some parent_id_str ↦ elim (parse_uint64 10 trace_id_str) [
        | none ↦ no_valid_value
        | some trace_id ↦ elim (parse_uint64 10 parent_id_str) [
          | none ↦ no_valid_value
          | some parent_id ↦ read_stream_priority parent_id trace_id j
        ]
      ]
    ]
  ]

  unfoldable pub read_object : J → FromStream
  unfolding read_ids
  read_object j =
      elim (enforce_tag_presence_policy (is_set (js.member (codes "trace_id") j))
        (is_set (js.member (codes "parent_id") j)) (is_set (js.member (codes "origin") j))) [
          | both_empty ↦ nothing_encoded
          | corrupted_ids ↦ context_corrupted
          | complete ↦ read_ids j
        ]

  -- `deserialize(logger, reader)`. At its end a stream is not `good()`: the test of `eof()` behind
  -- that of `good()` finds nothing.
  unfoldable pub deserialize_stream : Input S → FromStream
  unfolding read_object
  deserialize_stream not_good = io_error
  deserialize_stream at_end = io_error
  deserialize_stream (holds s) = elim (js.parse s) [
    | none ↦ no_valid_value
    | some j ↦ read_object j
  ]
