-- ===== src/Tests/Propagated.antt =====
-- Instances about tags, contexts, glob patterns and small values.
use dd_opentracing_cpp.Prelude.{
  ◌≡◌, ◌≢◌, ◌↔◌, ◌⊎◌, refl, true, false, none, some, [], ◌∷◌, codes, text_eq, arith, find,
}
use dd_opentracing_cpp.Glob.{glob_match}
use dd_opentracing_cpp.Glob.Spec.{Matches}
use dd_opentracing_cpp.Glob.Decision.{Decides, glob_match-Decides}
use dd_opentracing_cpp.Tags.{
  TagMap, comma, decoded, out_of_fuel, deserialize_tags, invalid_argument,
}
use dd_opentracing_cpp.Tags.RoundTrip.{append_tags, deserialize_tags-append_tags}
use dd_opentracing_cpp.Tags.Entries.{
  pieces, decode_entries, deserialize_tags-entries, deserialize_tags-total,
}
use dd_opentracing_cpp.SpanContext.{SpanContext, contexts_equal, copy_assign}
use dd_opentracing_cpp.SpanContext.Equality.{
  IsKeyed, Equivalent, contexts_equal_iff, copy_assign-eq_iff,
}
use dd_opentracing_cpp.Tests.Fixtures.{context}

glob_match-Decides_example :
    Decides (Matches (codes "a*c?") (codes "abbcd")) (glob_match (codes "a*c?") (codes "abbcd"))
glob_match-Decides_example = glob_match-Decides (codes "a*c?") (codes "abbcd")

glob_match_runs :
    (glob_match (codes "a*c?") (codes "abbcd") ≡ some true)
    × (glob_match (codes "a?c") (codes "ac") ≡ some false)
unfolding glob_match
glob_match_runs = (refl, refl)

abbrev tags : TagMap
tags = (codes "_dd.p.dm", codes "-4") ∷ (codes "a", codes "b=c") ∷ []

deserialize_tags-append_tags_example : deserialize_tags (append_tags [] tags) ≡ decoded tags
unfolding find
deserialize_tags-append_tags_example =
    deserialize_tags-append_tags tags (omega arith) (refl, (refl, tt))

deserialize_tags_error : deserialize_tags (codes "a=b,c") ≡ invalid_argument (codes "c")
unfolding deserialize_tags
deserialize_tags_error = refl

deserialize_tags-entries_example :
    deserialize_tags (codes "a=b,a=c") ≡ decode_entries [] (pieces comma (codes "a=b,a=c"))
deserialize_tags-entries_example = deserialize_tags-entries (codes "a=b,a=c")

deserialize_tags-total_example : deserialize_tags (codes ",,") ≢ out_of_fuel
deserialize_tags-total_example = deserialize_tags-total (codes ",,")

abbrev other : SpanContext
other = record context { propagated_sampling_priority = none; extracted_trace_tags = [] }

context-IsKeyed : IsKeyed context
unfolding find
context-IsKeyed = record { baggage_keyed = (refl, tt); tags_keyed = (refl, tt) }

other-IsKeyed : IsKeyed other
unfolding find
other-IsKeyed = record { baggage_keyed = (refl, tt); tags_keyed = tt }

contexts_equal_iff_example : (contexts_equal context other ≡ true) ↔ Equivalent context other
contexts_equal_iff_example = contexts_equal_iff context other context-IsKeyed other-IsKeyed

copy_assign-eq_iff_example : (copy_assign other context ≡ context) ↔ (
    (other.logger ≡ context.logger)
    × ([] ≡ context.extracted_trace_tags)
    × ((context.propagated_sampling_priority ≢ none) ⊎ (other.propagated_sampling_priority ≡ none)))
copy_assign-eq_iff_example = copy_assign-eq_iff other context
