-- ===== src/SpanData.antt =====
-- The struct `SpanData` of src/span.h and its accessors in src/span.cpp.
use dd_opentracing_cpp.Prelude.{ℕ, none, some, List, [], Text, codes, find, text_eq}
use dd_opentracing_cpp.Prelude.{ℤ}
use dd_opentracing_cpp.Tags.{TagMap}

pub record SpanData (D : Type 0) : Type 0 where
  pub type_name : Text
  pub service : Text
  pub resource : Text
  pub name : Text
  pub trace_id : ℕ
  pub span_id : ℕ
  pub parent_id : ℕ
  pub start : ℤ
  pub duration : ℤ
  pub error : ℕ
  pub meta : TagMap
  pub metrics : List (Text × D)

module _ {D : Type 0} where
  -- `SpanData::env()`.
  unfoldable pub env : SpanData D → Text
  env span = elim (find (codes "env") span.meta) [ none ↦ [] | some value ↦ value ]
