-- ===== src/Lib.antt =====
-- Verification of dd-opentracing-cpp, the Datadog tracer for C++.
--
-- A client makes a tracer from options (src/tracer_options.cpp, src/tracer_factory.cpp) and starts
-- spans with it (src/tracer.cpp, src/span.cpp). Each span's context is registered with the span
-- buffer (src/span_buffer.cpp), which groups spans into traces. When a span finishes, the
-- buffer stores it; when the last registered span of a trace has finished, the buffer asks the sampler
-- for a decision if none was made, tags the spans (src/pending_trace.cpp) and hands them to the
-- writer. Contexts travel between services as headers (src/span_context.cpp, src/tag_propagation.cpp).
--
-- The files, and the code that they model:
--
--   Glob              src/glob.cpp. `glob_match` is the source's loop on fuel; Glob/Spec is the
--                     independent meaning of a glob pattern.
--   Tags              src/tag_propagation.cpp: `deserializeTags`, `appendTag`.
--   Tribool           src/bool.cpp.
--   SamplingPriority  src/sampling_priority.cpp, src/sampling_mechanism.h.
--   Limiter           src/limiter.cpp: `allow` is the composition of `update_rates`, `refill` and
--                     `decide_tokens`, in the source's order.
--   Sampler           src/sample.cpp: PrioritySampler and RulesSampler.
--   SpanSampler       src/sample.cpp: SpanSampler; SpanSampler/Config is `configure`.
--   SpanData          src/span.h: the record of a span.
--   SpanContext       src/span_context.cpp.
--   Integers          src/parse_util.cpp, and the standard library's conversions that the source calls.
--   Propagation       src/span_context.cpp, the headers: Propagation is `deserialize`,
--                     Propagation/Inject is `serialize` with each call of the span buffer in it,
--                     and `getPropagationHeaderNames`; Propagation/Stream is the JSON form of a
--                     context on a stream.
--   AgentWriter       src/agent_writer.cpp: the queue and the worker, each section under the lock and
--                     each post as one event; AgentWriter/Handle is `setUpHandle` and `postTraces`, on
--                     the interface of src/transport.h.
--   Span              src/span.cpp: `FinishWithOptions` and `SetOperationName`.
--                     Span/Tagging is the constructor, `SetTag`, the sampling priority, the service
--                     name, baggage and `context`; Span/Values is `VariantVisitor`.
--   Options           include/datadog/opentracing.h, the struct; Options/Environment and its
--                     neighbours are src/tracer_options.cpp: KeyValues is `keyvalues`, Styles is
--                     `tokenize_propagation_style` and `asPropagationStyle`. Options/Config is
--                     src/tracer_factory.cpp.
--   Tracer            src/tracer.cpp: Tracer/Rules is `configureRulesSampler`, Tracer/Made the
--                     constructor and the functions that call it, in tracer_factory.h,
--                     opentracing_agent.cpp and opentracing_external.cpp.
--   Encoder           src/encoder.cpp: the headers of a post, and the answer of the agent.
--   PendingTrace      src/pending_trace.cpp.
--   SpanBuffer        src/span_buffer.cpp; SpanBuffer/Abstract is what it promises of the spans;
--                     SpanBuffer/Operations has `finishSpan` and all operations
--                     as the steps of one relation.
--   Floats, Json      parameters: double arithmetic, and the JSON library.
--   Prelude           shared lists, texts, maps and decidable tests.
--   Tests             instances at concrete inputs.
--
-- Conventions. A `std::string` is the list of its bytes. An unordered map is an association list
-- with the keys in the order in which they were first inserted, which stands for the container's own
-- order; a set of identifiers is a list. A `uint64_t` is a natural number, and the one product that
-- overflows, in `hashed_id`, has its remainder written out. `double` is a parameter D with the
-- operations that the code uses (Floats), and a theorem that needs a law of them has it as a
-- hypothesis. The clock is an argument of each operation that reads it. An operation that runs
-- under a mutex is one step. What the logger prints is left out, except
-- in SpanSampler/Config, Tracer/Rules and Options/Environment, where each complaint is a value.
--
-- Fuel. The loop of `glob_match` gets (n + 1) * (m + 2) passes for a subject of n bytes and a
-- pattern of m: each restart moves the match of the last star one byte on, and between restarts the
-- pattern is run through at most once. The loop of `deserializeTags` gets one pass more than the text
-- has bytes, as each pass but the last uses up a comma. The digits of a number are written with the
-- number plus one as the fuel, as each division by the base makes it smaller.
--
-- Not modelled: the transport (libcurl), logging, the loaders, msgpack, the
-- vendored libraries, `toJSON`, which prints the options, and the random
-- identifiers.
pub mod Prelude
pub mod Glob
pub mod Tags
pub mod Tribool
pub mod SamplingPriority
pub mod Floats
pub mod Integers
pub mod Limiter
pub mod Sampler
pub mod SpanData
pub mod Json
pub mod SpanSampler
pub mod SpanContext
pub mod Options
pub mod PendingTrace
pub mod SpanBuffer
pub mod Tracer
pub mod Propagation
pub mod Span
pub mod Encoder
pub mod AgentWriter
pub mod Tests
