-- ===== src/Propagation.antt =====
-- The headers of src/span_context.cpp: their names, how a key is compared, and what is extracted
-- from a carrier. A carrier that is read is the list of its entries, in the order in which
-- `ForeachKey` visits them up to the first error.
pub mod Inject
pub mod Named
pub mod Stream
pub mod Entries
pub mod Policy
pub mod RoundTrip
pub mod Carried
pub mod Crossing
use dd_opentracing_cpp.Prelude.{
  ℕ, ◌+◌, Bool, true, false, not, ◌&&◌, Option, none, some, List, [], ◌∷◌, Text, codes, leb, ltb_ℤ,
  pos, ◌==◌, if◌then◌else◌, text_eq, emplace, drop,
}
use dd_opentracing_cpp.Integers.{to_text, int_to_text, parse_uint64, stoi}
use dd_opentracing_cpp.SamplingPriority.{SamplingPriority, as_int, as_sampling_priority}
use dd_opentracing_cpp.Tags.{TagMap, decoded, invalid_argument, out_of_fuel, deserialize_tags}
use dd_opentracing_cpp.SpanContext.{SpanContext, Logger, make_context, contexts_equal}

pub record HeadersImpl : Type 0 where
  pub trace_id_header : Text
  pub span_id_header : Text
  pub sampling_priority_header : Text
  pub origin_header : Text
  pub tags_header : Text
  pub base : ℕ
  pub encode_id : ℕ → Text
  pub encode_sampling_priority : SamplingPriority → Text

pub data PropagationStyle : Type 0 where
  datadog b3 : PropagationStyle

-- `asHex`.
abbrev pub as_hex : ℕ → Text
as_hex id = to_text 16 id

-- `clampB3SamplingPriorityValue`.
unfoldable pub clamp_b3_sampling_priority_value : SamplingPriority → Text
clamp_b3_sampling_priority_value p = if ltb_ℤ (pos 0) (as_int p) then codes "1" else codes "0"

-- `to_string`.
abbrev pub priority_to_string : SamplingPriority → Text
priority_to_string p = int_to_text (as_int p)

abbrev pub propagation_headers : PropagationStyle → HeadersImpl
propagation_headers datadog = record {
  trace_id_header = codes "x-datadog-trace-id";
  span_id_header = codes "x-datadog-parent-id";
  sampling_priority_header = codes "x-datadog-sampling-priority";
  origin_header = codes "x-datadog-origin";
  tags_header = codes "x-datadog-tags";
  base = 10;
  encode_id = to_text 10;
  encode_sampling_priority = priority_to_string;
}
propagation_headers b3 = record {
  trace_id_header = codes "X-B3-TraceId";
  span_id_header = codes "X-B3-SpanId";
  sampling_priority_header = codes "X-B3-Sampled";
  origin_header = codes "x-datadog-origin";
  tags_header = codes "x-datadog-tags";
  base = 16;
  encode_id = as_hex;
  encode_sampling_priority = clamp_b3_sampling_priority_value;
}

abbrev pub baggage_prefix : Text
baggage_prefix = codes "ot-baggage-"

-- `tolower` in the C locale.
abbrev pub to_lower : ℕ → ℕ
to_lower c = if leb 65 c && leb c 90 then c + 32 else c

abbrev pub equals_ignore_case : Text → Text → Bool
equals_ignore_case [] [] = true
equals_ignore_case [] (b ∷ t) = false
equals_ignore_case (a ∷ s) [] = false
equals_ignore_case (a ∷ s) (b ∷ t) = (to_lower a == to_lower b) && equals_ignore_case s t

-- `has_prefix(str, prefix)`.
abbrev pub has_prefix : Text → Text → Bool
has_prefix str [] = true
has_prefix [] (p ∷ prefix) = false
has_prefix (c ∷ str) (p ∷ prefix) = (p == c) && has_prefix str prefix

-- The variables that `deserialize` fills; `none` where a flag says that nothing was set.
pub record Fields : Type 0 where
  pub trace_id : Option ℕ
  pub parent_id : Option ℕ
  pub sampling_priority : Option SamplingPriority
  pub origin : Option Text
  pub baggage : TagMap
  pub trace_tags : TagMap

abbrev pub no_fields : Fields
no_fields = record {
  trace_id = none;
  parent_id = none;
  sampling_priority = none;
  origin = none;
  baggage = [];
  trace_tags = [];
}

-- What the handler of `std::logic_error` does: a failure is tolerated under the tags header only.
abbrev pub tolerate : HeadersImpl → Text → Fields → Option Fields
tolerate h key fields = if equals_ignore_case key h.tags_header then some fields else none

-- The callback of `ForeachKey`; `none` is `span_context_corrupted_error`.
unfoldable pub read_entry : HeadersImpl → Text × Text → Fields → Option Fields
read_entry h (key, value) fields =
    if equals_ignore_case key h.trace_id_header
    then elim (parse_uint64 h.base value) [
      | none ↦ tolerate h key fields
      | some n ↦ some (record fields { trace_id = some n })
    ]
    else if equals_ignore_case key h.span_id_header
    then elim (parse_uint64 h.base value) [
      | none ↦ tolerate h key fields
      | some n ↦ some (record fields { parent_id = some n })
    ]
    else if equals_ignore_case key h.sampling_priority_header
    then elim (stoi value) [
      | none ↦ tolerate h key fields
      | some i ↦ elim (as_sampling_priority i) [
        | none ↦ none
        | some p ↦ some (record fields { sampling_priority = some p })
      ]
    ]
    else if equals_ignore_case key h.origin_header
    then some (record fields { origin = some value })
    else if has_prefix key baggage_prefix
    then some (record fields { baggage = emplace (drop 11 key) value fields.baggage })
    else if equals_ignore_case key h.tags_header
    then elim (deserialize_tags value) [
      | decoded tags ↦ some (record fields { trace_tags = tags })
      | invalid_argument entry ↦ tolerate h key fields
      | out_of_fuel ↦ tolerate h key fields
    ]
    else some fields

-- `ForeachKey` with this callback.
unfoldable pub read_entries : HeadersImpl → List (Text × Text) → Fields → Option Fields
read_entries h [] fields = some fields
read_entries h (entry ∷ entries) fields = elim (read_entry h entry fields) [
  | none ↦ none
  | some fields' ↦ read_entries h entries fields'
]

-- `enforce_tag_presence_policy`.
pub data Presence : Type 0 where
  both_empty corrupted_ids complete : Presence

unfoldable pub enforce_tag_presence_policy : Bool → Bool → Bool → Presence
enforce_tag_presence_policy trace_id_set parent_id_set origin_set =
    if not trace_id_set && not parent_id_set
    then both_empty
    else if not trace_id_set
    then corrupted_ids
    else if not parent_id_set && not origin_set
    then corrupted_ids
    else complete

abbrev pub is_set {ℓ} : {A : Type ℓ} → Option A → Bool
is_set none = false
is_set (some a) = true

abbrev pub or_else {ℓ} : {A : Type ℓ} → A → Option A → A
or_else a none = a
or_else a (some b) = b

-- The result of `deserialize`: `span_context_corrupted_error`, a null pointer, or a context.
pub data Extraction : Type 0 where
  corrupted no_context : Extraction
  extracted : SpanContext → Extraction

-- What a context gets that does not come from the carrier: the logger, and what an identifier holds
-- that is not initialised.
pub record Given : Type 0 where
  pub logger : Logger
  pub uninitialised : ℕ

-- The context made from the variables.
abbrev pub context_of : Given → Fields → SpanContext
context_of given fields =
    record (make_context given.logger (or_else given.uninitialised fields.parent_id)
      (or_else given.uninitialised fields.trace_id) (or_else [] fields.origin) fields.baggage) {
        propagated_sampling_priority = fields.sampling_priority;
        extracted_trace_tags = fields.trace_tags;
      }

-- `deserialize(logger, reader, headers_impl)`.
unfoldable pub deserialize_headers : Given → HeadersImpl → List (Text × Text) → Extraction
deserialize_headers given h entries = elim (read_entries h entries no_fields) [
  | none ↦ corrupted
  | some fields ↦
      elim (enforce_tag_presence_policy (is_set fields.trace_id) (is_set fields.parent_id)
        (is_set fields.origin)) [
          | both_empty ↦ no_context
          | corrupted_ids ↦ corrupted
          | complete ↦ extracted (context_of given fields)
        ]
]

-- The loop over the styles, with the context found so far.
unfoldable pub deserialize_from :
    Given → List PropagationStyle → List (Text × Text) → Option SpanContext → Extraction
deserialize_from given [] entries none = no_context
deserialize_from given [] entries (some context) = extracted context
deserialize_from given (style ∷ styles) entries found =
    elim (deserialize_headers given (propagation_headers style) entries) [
      | corrupted ↦ corrupted
      | no_context ↦ deserialize_from given styles entries found
      | extracted c ↦
          let rest = deserialize_from given styles entries (some c) in
          elim found [
            | none ↦ rest
            | some context ↦ if not (contexts_equal c context) then corrupted else rest
          ]
    ]

-- `deserialize(logger, reader, styles)`.
unfoldable pub deserialize : Given → List PropagationStyle → List (Text × Text) → Extraction
unfolding deserialize_from
deserialize given styles entries = deserialize_from given styles entries none
