-- ===== src/Tests/Traced.antt =====
-- Instances about the tracer, its spans, the stream and the answers of the agent.
use dd_opentracing_cpp.Prelude.{
  sym, ℕ, ℤ, pos, ◌≡◌, refl, true, false, Option, none, some, List, [], ◌∷◌, Text, codes,
  if◌then◌else◌, text_eq, nat_eq, find, same, arith,
}
use dd_opentracing_cpp.Tags.{TagMap}
use dd_opentracing_cpp.PendingTrace.Tagging.{identity}
use dd_opentracing_cpp.SpanBuffer.{get_sampling_priority}
use dd_opentracing_cpp.SpanBuffer.Operations.{Operation, registers, finishes, run}
use dd_opentracing_cpp.SpanBuffer.Abstract.{spec_run, view}
use dd_opentracing_cpp.SpanBuffer.Refines.{run-refines}
use dd_opentracing_cpp.Span.{Span, finished_data, finish_with_options}
use dd_opentracing_cpp.Span.Values.{Value, of_string, JsonWriter, text_of}
use dd_opentracing_cpp.Span.Tagging.{TimePoint, set_tag}
use dd_opentracing_cpp.Span.Tagged.{dotted, requested, priority_after, set_tag-priority}
use dd_opentracing_cpp.Span.Lifetime.{WrittenAlone}
use dd_opentracing_cpp.Options.{default_options}
use dd_opentracing_cpp.Tracer.{Tracer, first_parent, start_span_with_options}
use dd_opentracing_cpp.Tracer.Started.{HasIds, expected_ids, start_span_with_options-HasIds}
use dd_opentracing_cpp.Tracer.Lifetime.{root_span-WrittenAlone}
use dd_opentracing_cpp.Encoder.{excerpt}
use dd_opentracing_cpp.Encoder.Excerpt.{IsExcerpt, excerpt-IsExcerpt}
use dd_opentracing_cpp.Propagation.Stream.{
  JsonForm, Stream, holds, received_context, serialize_stream, deserialize_stream,
}
use dd_opentracing_cpp.Propagation.Stream.RoundTrip.{
  IsJson, arrived, priority_sent, tags_sent, message_sent, deserialize_stream-serialize_stream,
}
use dd_opentracing_cpp.Tests.Fixtures.{percent, span_of, half_done, buffer, context}

abbrev clock : ℕ → ℕ
clock k = 0

-- Span 9 of trace 8 is announced and finishes, and so does span 7 of trace 7.
abbrev history : List (Operation ℕ)
history =
    registers 0 (record context { trace_id = 8; id = 9 })
    ∷ finishes 0 clock (record (span_of 9 0) { trace_id = 8 })
    ∷ finishes 0 clock (span_of 7 0)
    ∷ []

run-refines_example : view (run percent history buffer) ≡ spec_run history (view buffer)
run-refines_example = run-refines percent history buffer

abbrev writer : JsonWriter ℕ ℕ
writer = record {
  null = 0;
  bool_json = λ b. 1;
  double_json = λ d. 2;
  int_json = λ i. 3;
  uint_json = λ n. 4;
  text_json = λ s. 5;
  push_back = λ l v. 6;
  put_key = λ k v d. 7;
  dump = λ j. codes "{}";
  double_text = λ d. codes "0.5";
}

abbrev tracer : Tracer percent
tracer = record {
  opts = record (default_options percent) {
    service = codes "shop";
    environment = codes "prod";
    tags = (codes "team", codes "a") ∷ [];
  };
  logger = some 1;
  legacy_obfuscation = false;
}

abbrev started_at : TimePoint
started_at = record { absolute_time = pos 100; relative_time = 10 }

abbrev tags : List (Text × Value ℕ)
tags = (codes "manual.keep", of_string []) ∷ []

start_span_with_options-HasIds_example :
    HasIds percent
      (expected_ids percent writer (some 1) (codes "request") 12 (some context) buffer)
      (start_span_with_options percent writer tracer 0 12 started_at
        (codes "request")
        (none ∷ some context ∷ some (record context { id = 99 }) ∷ [])
        tags
        buffer)
unfolding first_parent
start_span_with_options-HasIds_example =
    start_span_with_options-HasIds percent writer tracer 0 12 started_at (codes "request")
      (none ∷ some context ∷ some (record context { id = 99 }) ∷ []) tags buffer

abbrev no_number : Text → Option ℕ
no_number text = none

abbrev unchanged : Text → Text
unchanged url = url

root_span-WrittenAlone_example :
    let r =
      start_span_with_options percent writer tracer 0 12 started_at
        (codes "request")
        []
        tags
        buffer in
    WrittenAlone
      (identity
        (finished_data percent no_number (codes "error") (codes "http.url") unchanged 30 r.0))
      (view buffer)
      (view
        (finish_with_options percent no_number
          (codes "error")
          (codes "http.url")
          unchanged
          30
          0
          clock
          r.0
          r.1).1)
unfolding first_parent find
root_span-WrittenAlone_example =
    root_span-WrittenAlone percent writer no_number tracer 0 12 started_at (codes "request") [] tags
      (codes "error") (codes "http.url") unchanged 30 0 clock buffer refl refl

abbrev open_span : Span ℕ
open_span = record {
  is_finished = false;
  context = context;
  start_time = 10;
  operation_name_override = [];
  legacy_obfuscation = false;
  span = span_of 8 7;
}

set_tag-priority_example :
    get_sampling_priority percent 7
      (set_tag percent writer (codes "manual:drop") (of_string []) open_span buffer).1
    ≡ priority_after percent
        (requested percent (dotted percent (codes "manual:drop")) (text_of writer (of_string [])))
        half_done
unfolding find
set_tag-priority_example =
    set_tag-priority percent writer (codes "manual:drop") (of_string []) open_span buffer half_done
      refl

excerpt-IsExcerpt_example :
    IsExcerpt 30
      (codes "<html>502 Bad Gateway</html>.")
      (excerpt 30 (codes "<html>502 Bad Gateway</html>."))
excerpt-IsExcerpt_example =
    excerpt-IsExcerpt 30 (codes "<html>502 Bad Gateway</html>.") (omega arith)

-- JSON values as trees, which stand for their own texts.
mutual
  data Node : Type 0 where
    text_node : Text → Node
    int_node : ℤ → Node
    map_node : TagMap → Node
    object : Entries → Node

  data Entries : Type 0 where
    no_entries : Entries
    entry : Text → Node → Entries → Entries

abbrev entries_of : Node → Entries
entries_of (object es) = es
entries_of (text_node s) = no_entries
entries_of (int_node i) = no_entries
entries_of (map_node m) = no_entries

abbrev lookup : Text → Entries → Option Node
lookup k no_entries = none
lookup k (entry j v es) = if same j k then some v else lookup k es

abbrev node_text : Node → Option Text
node_text (text_node s) = some s
node_text (int_node i) = none
node_text (map_node m) = none
node_text (object es) = none

abbrev node_int : Node → Option ℤ
node_int (int_node i) = some i
node_int (text_node s) = none
node_int (map_node m) = none
node_int (object es) = none

abbrev node_map : Node → Option TagMap
node_map (map_node m) = some m
node_map (text_node s) = none
node_map (int_node i) = none
node_map (object es) = none

abbrev trees : JsonForm Node Node
trees = record {
  empty = object no_entries;
  text_json = text_node;
  int_json = int_node;
  map_json = map_node;
  put = λ k v o. object (entry k v (entries_of o));
  member = λ k o. lookup k (entries_of o);
  get_text = node_text;
  get_int = node_int;
  get_map = node_map;
  dump = λ j. some j;
  parse = λ s. some s;
}

trees-IsJson : IsJson trees
trees-IsJson = record {
  member_empty = λ k. refl;
  member_put = λ k j v o. refl;
  get_text_json = λ s. refl;
  get_int_json = λ i. refl;
  get_map_json = λ m d. refl;
  parse_dump = λ j text e. sym e;
}

-- A stream that takes everything.
abbrev tape : Stream (List Node) Node
tape = record { good = λ w. true; put_text = λ s w. s ∷ w }

abbrev sent_tree : Node
sent_tree = message_sent trees trees-IsJson percent (some 1) true context buffer

deserialize_stream-serialize_stream_example :
    ((serialize_stream trees percent tape true context buffer []).1 ≡ sent_tree ∷ [])
    × (deserialize_stream trees (some 1) (holds sent_tree)
        ≡ received_context (
            arrived trees trees-IsJson percent
              (some 1)
              context
              (priority_sent trees trees-IsJson percent (some 1) true context buffer)
              (tags_sent trees trees-IsJson percent (some 1) true context buffer)))
unfolding find
deserialize_stream-serialize_stream_example =
    deserialize_stream-serialize_stream trees trees-IsJson percent (some 1) tape true context buffer
      [] sent_tree refl refl (omega arith) (omega arith) (refl, tt)
