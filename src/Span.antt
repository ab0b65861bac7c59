-- ===== src/Span.antt =====
-- The class `Span` of src/span.h and span.cpp: how a span is finished and renamed. What stands
-- outside the repository is a parameter: OpenTracing's names of the tags for an error and for a
-- URL, `std::stod`, and the regular expression of the legacy obfuscation.
pub mod Finished
pub mod Values
pub mod Tagging
pub mod Tagged
pub mod Lifetime
use dd_opentracing_cpp.Prelude.{
  ℕ, ◌-◌, Bool, true, false, not, ◌&&◌, ◌||◌, Option, none, some, List, [], ◌∷◌, Text, codes, leb,
  is_empty, if◌then◌else◌, text_eq, find, assign, emplace, erase, ℤ, pos,
}
use dd_opentracing_cpp.Floats.{Floats}
use dd_opentracing_cpp.Integers.{negated}
use dd_opentracing_cpp.Tags.{TagMap, split_at}
use dd_opentracing_cpp.Tribool.{Tribool, truthy, falsy, neither, tribool, stob, isbool}
use dd_opentracing_cpp.SpanData.{SpanData}
use dd_opentracing_cpp.PendingTrace.{set_meta, set_metric}
use dd_opentracing_cpp.SpanContext.{SpanContext}
use dd_opentracing_cpp.SpanBuffer.{SpanBuffer}
use dd_opentracing_cpp.SpanBuffer.Operations.{finish_span}

pub record Span (D : Type 0) : Type 0 where
  pub is_finished : Bool
  pub context : SpanContext
  -- `start_time_.relative_time`, in nanoseconds.
  pub start_time : ℕ
  pub operation_name_override : Text
  pub legacy_obfuscation : Bool
  pub span : SpanData D

-- `meta.count(key)`.
abbrev pub has_tag : Text → TagMap → Bool
has_tag key meta = elim (find key meta) [ none ↦ false | some v ↦ true ]

-- One of `error_details` is set.
abbrev pub has_error_details : TagMap → Bool
has_error_details meta =
    has_tag (codes "error.msg") meta
    || (has_tag (codes "error.stack") meta || has_tag (codes "error.type") meta)

-- The loop that erases `error_details`.
abbrev pub erase_error_details : TagMap → TagMap
erase_error_details meta =
    erase (codes "error.type") (erase (codes "error.stack") (erase (codes "error.msg") meta))

abbrev pub is_falsy : Tribool → Bool
is_falsy falsy = true
is_falsy truthy = false
is_falsy neither = false

abbrev pub is_neither : Tribool → Bool
is_neither neither = true
is_neither truthy = false
is_neither falsy = false

-- A special tag: its value is used and the tag is erased.
abbrev pub take_tag :
    {D : Type 0} → Text → (Text → SpanData D → SpanData D) → SpanData D → SpanData D
take_tag key use_value s = elim (find key s.meta) [
  | none ↦ s
  | some value ↦ let used = use_value value s in record used { meta = erase key used.meta }
]

-- The data of a span after `span_ = stubSpanData()`.
abbrev pub stub_span_data : {D : Type 0} → SpanData D
stub_span_data = record {
  type_name = [];
  service = [];
  resource = [];
  name = [];
  trace_id = 0;
  span_id = 0;
  parent_id = 0;
  start = pos 0;
  duration = pos 0;
  error = 0;
  meta = [];
  metrics = [];
}

module _ {D : Type 0} (error_tag : Text) where
  -- `finish_error_tags`.
  unfoldable pub finish_error_tags : SpanData D → SpanData D
  finish_error_tags s = elim (find error_tag s.meta) [
    | some value ↦
        if is_empty value || is_falsy (tribool value)
        then record s { error = 0; meta = erase_error_details (erase error_tag s.meta) }
        else record s {
          error = 1;
          meta = erase error_tag (
              if is_neither (tribool value)
              then emplace (codes "error.msg") value s.meta
              else s.meta);
        }
    | none ↦ if has_error_details s.meta then record s { error = 1 } else s
  ]

module _ {D : Type 0} (http_url : Text) (regex_replace : Text → Text) where
  -- `audit`.
  unfoldable pub audit : Bool → SpanData D → SpanData D
  audit legacy_obfuscation s = elim (find http_url s.meta) [
    | none ↦ s
    | some url ↦
        set_meta http_url (if legacy_obfuscation then regex_replace url else (split_at b'?' url).0)
          s
  ]

module _ {D : Type 0} (fl : Floats D) (stod : Text → Option D) where
  -- The sample rate that the value of the analytics tag stands for, if any.
  unfoldable pub analytics_rate_of : Text → Option D
  analytics_rate_of value =
      if is_empty value
      then some fl.rate_zero
      else if isbool value
      then some (if stob value false then fl.rate_one else fl.rate_zero)
      else elim (stod value) [
        | none ↦ none
        | some rate ↦ if fl.le fl.rate_zero rate && fl.le rate fl.rate_one then some rate else none
      ]

  unfoldable pub use_analytics_event : Text → SpanData D → SpanData D
  use_analytics_event value s = elim (analytics_rate_of value) [
    | none ↦ s
    | some rate ↦ set_metric (codes "_dd1.sr.eausr") rate s
  ]

  -- The special tags, in the order of `FinishWithOptions`.
  unfoldable pub apply_special_tags : Text → SpanData D → SpanData D
  apply_special_tags error_tag s =
      let typed : SpanData D =
        take_tag (codes "span.type") (λ v (t : SpanData D). record t { type_name = v }) s in
      let resourced : SpanData D =
        take_tag (codes "resource.name") (λ v (t : SpanData D). record t { resource = v }) typed in
      let serviced : SpanData D =
        take_tag (codes "service.name") (λ v (t : SpanData D). record t { service = v })
          resourced in
      take_tag (codes "analytics.event") use_analytics_event (finish_error_tags error_tag serviced)

  -- `end_time - start_time_`.
  abbrev pub elapsed : ℕ → ℕ → ℤ
  elapsed start_time end_time =
      if leb start_time end_time
      then pos (end_time - start_time)
      else negated (start_time - end_time)

  -- What `FinishWithOptions` hands to the buffer.
  unfoldable pub finished_data : Text → Text → (Text → Text) → ℕ → Span D → SpanData D
  finished_data error_tag http_url regex_replace end_time s =
      audit http_url regex_replace s.legacy_obfuscation (
        apply_special_tags error_tag (record (s.span) { duration = elapsed s.start_time end_time }))

  -- `FinishWithOptions`, with what the sampler's limiters read.
  unfoldable pub finish_with_options :
      Text → Text → (Text → Text) → ℕ → ℕ → (ℕ → ℕ) → Span D → SpanBuffer D → Span D × SpanBuffer D
  finish_with_options error_tag http_url regex_replace end_time now clock s b =
      if s.is_finished then (s, b) else (
        record s { is_finished = true; span = stub_span_data },
        finish_span fl now clock (finished_data error_tag http_url regex_replace end_time s) b,
      )

  -- `SetOperationName`.
  unfoldable pub set_operation_name : Text → Span D → Span D
  set_operation_name operation_name s =
      let named : SpanData D =
        if not (is_empty s.operation_name_override)
        then set_meta (codes "operation") operation_name s.span
        else record (s.span) { name = operation_name } in
      record s { span = record named { resource = operation_name } }
