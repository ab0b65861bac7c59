-- ===== src/Tests/Carried.antt =====
-- Instances about the headers.
use dd_opentracing_cpp.Prelude.{
  Option, none, ◌≡◌, refl, true, false, some, List, [], ◌∷◌, Text, codes, arith, find,
}
use dd_opentracing_cpp.SamplingPriority.{sampler_keep, user_keep, as_sampling_priority}
use dd_opentracing_cpp.Integers.{
  parse_uint64, stoull, stoi, read_integer, skip_spaces, read_sign, skip_prefix, read_digits,
  starts_with_digit,
}
use dd_opentracing_cpp.Tags.{deserialize_tags}
use dd_opentracing_cpp.SpanContext.{SpanContext, make_context}
use dd_opentracing_cpp.SpanBuffer.{find_trace}
use dd_opentracing_cpp.Propagation.{
  Given, datadog, b3, propagation_headers, deserialize_headers, deserialize, corrupted, extracted,
  read_entry, read_entries, enforce_tag_presence_policy,
}
use dd_opentracing_cpp.Propagation.Inject.{
  serialize_headers, serialize, get_propagation_header_names,
}
use dd_opentracing_cpp.Propagation.Named.{Named, serialize-Named}
use dd_opentracing_cpp.Propagation.RoundTrip.{received}
use dd_opentracing_cpp.Propagation.Carried.{append_entry}
use dd_opentracing_cpp.Propagation.Crossing.{
  sent_tags, deserialize_headers-serialize_headers, FoundLocked, serialize_headers-FoundLocked,
}
use dd_opentracing_cpp.Propagation.Policy.{deserialize-both}
use dd_opentracing_cpp.Tests.Fixtures.{percent, half_done, buffer, context}

-- What the receiving tracer has.
abbrev given : Given
given = record { logger = some 2; uninitialised = 0 }

deserialize_headers-serialize_headers_example :
    deserialize_headers given
      (propagation_headers b3)
      (serialize_headers percent append_entry (propagation_headers b3) true context buffer []).1
    ≡ extracted (received (some 2) b3 context sampler_keep (sent_tags percent buffer half_done))
unfolding find
deserialize_headers-serialize_headers_example =
    deserialize_headers-serialize_headers percent given b3 context buffer half_done sampler_keep
      refl refl (omega arith) (refl, tt) (refl, tt) (omega arith) (omega arith)

serialize_headers-FoundLocked_example :
    FoundLocked
      (some sampler_keep, false)
      (find_trace percent 7
        (serialize_headers percent append_entry
          (propagation_headers datadog)
          true
          context
          buffer
          []).0)
unfolding find
serialize_headers-FoundLocked_example =
    serialize_headers-FoundLocked percent datadog context buffer half_done sampler_keep refl refl
      (omega arith) (refl, tt)

abbrev both_styles : List (Text × Text)
both_styles =
    (codes "x-datadog-trace-id", codes "7")
    ∷ (codes "x-datadog-parent-id", codes "8")
    ∷ (codes "x-datadog-sampling-priority", codes "2")
    ∷ (codes "X-B3-TraceId", codes "7")
    ∷ (codes "X-B3-SpanId", codes "8")
    ∷ (codes "X-B3-Sampled", codes "1")
    ∷ (codes "x-datadog-tags", codes "")
    ∷ []

abbrev kept_by_user : SpanContext
unfolding make_context
kept_by_user = make_context none 8 7 [] []

deserialize-both_example : deserialize given (datadog ∷ b3 ∷ []) both_styles ≡ corrupted
unfolding deserialize_headers read_entries read_entry enforce_tag_presence_policy parse_uint64
    stoull stoi read_integer skip_spaces read_sign skip_prefix read_digits starts_with_digit
    as_sampling_priority deserialize_tags make_context kept_by_user
deserialize-both_example =
    deserialize-both given both_styles kept_by_user user_keep [] tt tt refl refl

-- A carrier that keeps the keys.
abbrev note_key : Text → Text → List Text → List Text × Option (Unit {0})
note_key key value keys = (key ∷ keys, none)

abbrev AllNamed : List Text → List Text → Type 0
AllNamed names [] = Unit
AllNamed names (key ∷ keys) = Named names key × AllNamed names keys

serialize-Named_example :
    AllNamed
      (get_propagation_header_names (datadog ∷ b3 ∷ []) true)
      (serialize percent note_key (datadog ∷ b3 ∷ []) true context buffer []).1
serialize-Named_example =
    serialize-Named percent note_key (datadog ∷ b3 ∷ []) true context
      (AllNamed (get_propagation_header_names (datadog ∷ b3 ∷ []) true)) (λ k v w n h. (n, h))
      buffer [] tt
