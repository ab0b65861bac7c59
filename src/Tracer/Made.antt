-- ===== src/Tracer/Made.antt =====
-- How a tracer is made, in src/tracer.cpp, tracer_factory.h, opentracing_agent.cpp and
-- opentracing_external.cpp, and its `Inject` and `Extract`. The writer and the log are left out.
use dd_opentracing_cpp.Prelude.{ℕ, Option, none, some, List, [], Text}
use dd_opentracing_cpp.Floats.{Floats}
use dd_opentracing_cpp.Json.{Json, Getters}
use dd_opentracing_cpp.Sampler.{RulesSampler}
use dd_opentracing_cpp.SpanSampler.Config.{configure_spans}
use dd_opentracing_cpp.SpanContext.{SpanContext, Logger}
use dd_opentracing_cpp.SpanBuffer.{SpanBuffer}
use dd_opentracing_cpp.Propagation.{Extraction, deserialize}
use dd_opentracing_cpp.Propagation.Inject.{Action, serialize}
use dd_opentracing_cpp.Options.{TracerOptions, Outside}
use dd_opentracing_cpp.Options.Environment.{ok, error, apply_tracer_options_from_environment}
use dd_opentracing_cpp.Options.Config.{Configured, configured, refused, options_from_config}
use dd_opentracing_cpp.Tracer.Rules.{configure_rules_sampler}
use dd_opentracing_cpp.Tracer.{
  Tracer, is_enabled, legacy_obfuscation_enabled, valid_analytics_rate, reporting_hostname,
  trace_tags_propagation_max_length, default_rules_sampler, rules_sampler_per_second,
}

module _ {J D : Type 0} (fl : Floats D) (js : Json J D) (out : Outside D) where
  -- `Tracer(options, writer, trace_sampler, logger)`, with the span buffer that it makes. `clock k`
  -- is the reading for the span rule that becomes the `k`-th.
  unfoldable pub make_tracer :
      Logger → Option Text → (ℕ → ℕ) → TracerOptions D → RulesSampler D → Tracer fl × SpanBuffer D
  make_tracer logger gethostname clock options trace_sampler = (
    record {
      opts = options;
      legacy_obfuscation = legacy_obfuscation_enabled out.getenv;
      logger = logger;
    },
    record {
      traces = [];
      trace_sampler =
          (configure_rules_sampler fl js options.sampling_rules options.sample_rate
            trace_sampler).0;
      span_rules = (configure_spans fl js clock options.span_sampling_rules).0;
      options = record {
        enabled = is_enabled out.getenv;
        hostname = reporting_hostname fl gethostname options;
        analytics_rate = valid_analytics_rate fl options;
        service = options.service;
        tags_header_size = trace_tags_propagation_max_length fl out.getenv options;
      };
      written = [];
    },
  )

  -- The options of `makeTracer` and `makeTracerAndEncoder`: where the environment is refused, those
  -- of the caller.
  unfoldable pub options_or_input : TracerOptions D → TracerOptions D
  options_or_input options = elim (apply_tracer_options_from_environment fl out options) [
    | ok r ↦ r.0
    | error e ↦ options
  ]

  -- `makeTracer` and `makeTracerAndEncoder`, with what the clock reads for the limiter.
  unfoldable pub make_tracer_from :
      Logger → Option Text → ℕ → (ℕ → ℕ) → TracerOptions D → Tracer fl × SpanBuffer D
  unfolding make_tracer options_or_input
  make_tracer_from logger gethostname now clock options =
      let opts = options_or_input options in
      make_tracer logger gethostname clock opts
        (rules_sampler_per_second fl now opts.sampling_limit_per_second)

  module _ (get : Getters J D) where
    -- `TracerFactory::MakeTracer`. It takes the sampler with the default limit.
    unfoldable pub make_tracer_configured :
        Logger → Option Text → ℕ → (ℕ → ℕ) → Text → Configured D (Tracer fl × SpanBuffer D)
    unfolding make_tracer
    make_tracer_configured logger gethostname now clock configuration =
        elim (options_from_config fl js get out configuration) [
          | refused e ↦ refused e
          | configured r ↦
              configured (make_tracer logger gethostname clock r.0 (default_rules_sampler fl now))
        ]

module _ {D W E : Type 0} (fl : Floats D) (set_entry : Text → Text → W → W × Option E) where
  -- `Inject` into a carrier of headers. A context that is not one of this library is `none`, and
  -- the error for it is an argument.
  unfoldable pub inject_context : E → Tracer fl → Option SpanContext → Action fl set_entry
  inject_context invalid_span_context tracer none b w = (b, w, some invalid_span_context)
  inject_context invalid_span_context tracer (some context) b w =
      serialize fl set_entry (tracer.opts).inject (tracer.opts).priority_sampling context b w

module _ {D : Type 0} (fl : Floats D) where
  -- `Extract` from a carrier of headers.
  abbrev pub extract_context : ℕ → Tracer fl → List (Text × Text) → Extraction
  extract_context junk tracer entries =
      deserialize (record { logger = tracer.logger; uninitialised = junk }) (tracer.opts).extract
        entries
