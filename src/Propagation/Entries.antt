-- ===== src/Propagation/Entries.antt =====
-- What `deserialize` of src/span_context.cpp reads from each header that `serialize` writes.
use dd_opentracing_cpp.Prelude.{
  ℕ, ◌≤◌, ◌≡◌, refl, inl, inr, some, ◌++◌, Text, text_eq, nat_eq, emplace,
}
use dd_opentracing_cpp.Floats.{u64_max}
use dd_opentracing_cpp.Integers.{
  to_text, parse_uint64, stoi, int_to_text, read_integer, skip_spaces, read_sign, skip_prefix,
  starts_with_digit, read_digits, write_digits,
}
use dd_opentracing_cpp.Integers.Parsed.{parse_uint64-to_text}
use dd_opentracing_cpp.Tags.{TagMap, decoded, deserialize_tags}
use dd_opentracing_cpp.SamplingPriority.{
  SamplingPriority, user_drop, sampler_drop, sampler_keep, user_keep, as_int, as_sampling_priority,
}
use dd_opentracing_cpp.Propagation.{
  PropagationStyle, datadog, b3, propagation_headers, baggage_prefix, Fields, read_entry,
  clamp_b3_sampling_priority_value,
}

-- The priority that arrives: B3 headers only tell whether the trace is kept.
abbrev pub arriving : PropagationStyle → SamplingPriority → SamplingPriority
arriving datadog p = p
arriving b3 user_drop = sampler_drop
arriving b3 sampler_drop = sampler_drop
arriving b3 sampler_keep = sampler_keep
arriving b3 user_keep = sampler_keep

stoi-encoded :
    (style : PropagationStyle) (p : SamplingPriority)
    → stoi ((propagation_headers style).encode_sampling_priority p)
      ≡ some (as_int (arriving style p))
unfolding stoi int_to_text to_text read_integer skip_spaces read_sign skip_prefix starts_with_digit
    read_digits write_digits clamp_b3_sampling_priority_value
stoi-encoded datadog user_drop = refl
stoi-encoded datadog sampler_drop = refl
stoi-encoded datadog sampler_keep = refl
stoi-encoded datadog user_keep = refl
stoi-encoded b3 user_drop = refl
stoi-encoded b3 sampler_drop = refl
stoi-encoded b3 sampler_keep = refl
stoi-encoded b3 user_keep = refl

as_sampling_priority-as_int : (p : SamplingPriority) → as_sampling_priority (as_int p) ≡ some p
unfolding as_sampling_priority
as_sampling_priority-as_int user_drop = refl
as_sampling_priority-as_int sampler_drop = refl
as_sampling_priority-as_int sampler_keep = refl
as_sampling_priority-as_int user_keep = refl

parse-encoded :
    (style : PropagationStyle) (n : ℕ)
    → n ≤ u64_max
    → parse_uint64 (propagation_headers style).base ((propagation_headers style).encode_id n)
      ≡ some n
parse-encoded datadog n h = parse_uint64-to_text 10 n (inl refl) h
parse-encoded b3 n h = parse_uint64-to_text 16 n (inr refl) h

pub read_trace_id :
    (style : PropagationStyle) (n : ℕ) (x : Fields)
    → n ≤ u64_max
    → read_entry
        (propagation_headers style)
        ((propagation_headers style).trace_id_header, (propagation_headers style).encode_id n)
        x
      ≡ some (record x { trace_id = some n })
unfolding read_entry
read_trace_id datadog n x h = rw (read_entry, parse-encoded datadog n h) refl
read_trace_id b3 n x h = rw (read_entry, parse-encoded b3 n h) refl

pub read_span_id :
    (style : PropagationStyle) (n : ℕ) (x : Fields)
    → n ≤ u64_max
    → read_entry
        (propagation_headers style)
        ((propagation_headers style).span_id_header, (propagation_headers style).encode_id n)
        x
      ≡ some (record x { parent_id = some n })
unfolding read_entry
read_span_id datadog n x h = rw (read_entry, parse-encoded datadog n h) refl
read_span_id b3 n x h = rw (read_entry, parse-encoded b3 n h) refl

pub read_priority :
    (style : PropagationStyle) (p : SamplingPriority) (x : Fields)
    → read_entry
        (propagation_headers style)
        (
          (propagation_headers style).sampling_priority_header,
          (propagation_headers style).encode_sampling_priority p,
        )
        x
      ≡ some (record x { sampling_priority = some (arriving style p) })
unfolding read_entry
read_priority datadog p x =
    rw (read_entry, stoi-encoded datadog p, as_sampling_priority-as_int (arriving datadog p)) refl
read_priority b3 p x =
    rw (read_entry, stoi-encoded b3 p, as_sampling_priority-as_int (arriving b3 p)) refl

pub read_origin :
    (style : PropagationStyle) (o : Text) (x : Fields)
    → read_entry (propagation_headers style) ((propagation_headers style).origin_header, o) x
      ≡ some (record x { origin = some o })
unfolding read_entry
read_origin datadog o x = refl
read_origin b3 o x = refl

pub read_tags :
    (style : PropagationStyle) (text : Text) (tags : TagMap) (x : Fields)
    → deserialize_tags text ≡ decoded tags
    → read_entry (propagation_headers style) ((propagation_headers style).tags_header, text) x
      ≡ some (record x { trace_tags = tags })
unfolding read_entry
read_tags datadog text tags x e = rw (read_entry, e) refl
read_tags b3 text tags x e = rw (read_entry, e) refl

pub read_baggage :
    (style : PropagationStyle) (k v : Text) (x : Fields)
    → read_entry (propagation_headers style) (baggage_prefix ++ k, v) x
      ≡ some (record x { baggage = emplace k v x.baggage })
unfolding read_entry
read_baggage datadog k v x = refl
read_baggage b3 k v x = refl
