-- ===== src/Encoder.antt =====
-- `AgentHttpEncoder` of src/encoder.cpp: the traces that wait for a post, its headers, and what the
-- agent answers. Msgpack and the JSON library are parameters. The tracer's sampler is part of the
-- state, since the answer changes it.
pub mod Excerpt
use dd_opentracing_cpp.Prelude.{
  ℕ, ◌+◌, ◌-◌, ◌/◌, Bool, true, false, Option, none, some, List, [], ◌∷◌, ◌++◌, Text, codes,
  if◌then◌else◌, ltb, min, length, take, drop, text_eq, assign,
}
use dd_opentracing_cpp.Floats.{Floats}
use dd_opentracing_cpp.Json.{Json}
use dd_opentracing_cpp.Integers.{to_text}
use dd_opentracing_cpp.Tags.{TagMap}
use dd_opentracing_cpp.SpanData.{SpanData}
use dd_opentracing_cpp.Sampler.{RulesSampler, update_priority_sampler}

pub record Encoder (D : Type 0) : Type 0 where
  pub common_headers : TagMap
  pub traces : List (List (SpanData D))
  pub sampler : RulesSampler D

-- The constructor, for the versions of C++ and of the tracer.
abbrev pub make_encoder : {D : Type 0} → Text → Text → RulesSampler D → Encoder D
make_encoder cpp_version tracer_version sampler = record {
  common_headers =
      (codes "Content-Type", codes "application/msgpack")
      ∷ (codes "Datadog-Meta-Lang", codes "cpp")
      ∷ (codes "Datadog-Meta-Lang-Version", cpp_version)
      ∷ (codes "Datadog-Meta-Tracer-Version", tracer_version)
      ∷ [];
  traces = [];
  sampler = sampler;
}

abbrev pub agent_api_path : Text
agent_api_path = codes "/v0.4/traces"

abbrev pub clear_traces : {D : Type 0} → Encoder D → Encoder D
clear_traces e = record e { traces = [] }

abbrev pub pending_traces : {D : Type 0} → Encoder D → ℕ
pending_traces e = length e.traces

abbrev pub headers : {D : Type 0} → Encoder D → TagMap
headers e = assign (codes "X-Datadog-Trace-Count") (to_text 10 (length e.traces)) e.common_headers

abbrev pub add_trace : {D : Type 0} → List (SpanData D) → Encoder D → Encoder D
add_trace trace e = record e { traces = e.traces ++ trace ∷ [] }

abbrev pub response_error_region_size : ℕ
response_error_region_size = 50

-- Where the excerpt of an answer starts that cannot be parsed at `byte`, and its size.
abbrev pub region_start : ℕ → ℕ
region_start byte =
    if ltb (response_error_region_size / 2) byte then byte - response_error_region_size / 2 else 0

abbrev pub region_size : ℕ → Text → ℕ
region_size byte response = min (length response - region_start byte) response_error_region_size

-- The diagnostic's "Error near": prefix, region and suffix.
unfoldable pub excerpt : ℕ → Text → Text × Text × Text
excerpt byte response =
    let start = region_start byte in
    let size = region_size byte response in
    (
      if ltb 0 start then codes "..." else [],
      take size (drop start response),
      if ltb (start + size) (length response) then codes "..." else [],
    )

-- What the answer of the agent is to the JSON library: rates, numbers or not, under the key
-- "rate_by_service", or a parse error at a byte.
pub data Response (J : Type 0) : Type 0 where
  parsed : J → Response J
  parse_error : ℕ → Response J

-- How `handleResponse` ends: it returns, or logs an excerpt and returns, or the `type_error` of a
-- rate that is not a number leaves it, which it does not catch.
pub data Handled : Type 0 where
  handled rate_thrown : Handled
  unparsable : Text × Text × Text → Handled

abbrev pub handled_if : Bool → Handled
handled_if true = handled
handled_if false = rate_thrown

module _ {J D : Type 0} (fl : Floats D) (member : Text → J → Option J)
    (rates : J → List (Text × Option D)) (parse : Text → Response J) where
  -- `handleResponse`.
  unfoldable pub handle_response : Text → Encoder D → Encoder D × Handled
  unfolding excerpt
  handle_response response e = elim (parse response) [
    | parse_error byte ↦ (e, unparsable (excerpt byte response))
    | parsed config ↦ elim (member (codes "rate_by_service") config) [
      | none ↦ (e, handled)
      | some config' ↦
          let (sampler, finished) = update_priority_sampler fl (rates config') e.sampler in
          (record e { sampler = sampler }, handled_if finished)
    ]
  ]
