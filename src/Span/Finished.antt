-- ===== src/Span/Finished.antt =====
-- What a span of src/span.cpp is like when it has been finished.
use dd_opentracing_cpp.Prelude.{
  ℕ, ◌≡◌, ◌≢◌, refl, sym, ◌∙◌, inl, inr, Bool, true, false, not, ◌&&◌, ◌||◌, Option, none, some, [],
  ◌∷◌, Text, codes, is_empty, if◌then◌else◌, if_known, if_both, Option-cases, text_eq, same_iff,
  find, find-assign, find-erase, find-erase-none, erase, arith, ◌==◌,
}
use dd_opentracing_cpp.Floats.{Floats}
use dd_opentracing_cpp.Tags.{TagMap, split_at}
use dd_opentracing_cpp.Tags.RoundTrip.{Free}
use dd_opentracing_cpp.Tribool.{tribool}
use dd_opentracing_cpp.SpanData.{SpanData}
use dd_opentracing_cpp.SpanBuffer.{SpanBuffer}
use dd_opentracing_cpp.Span.{
  Span, has_tag, has_error_details, erase_error_details, is_falsy, finish_error_tags, audit,
  finish_with_options,
}

no_tag : (key : Text) (m : TagMap) → find key m ≡ none → has_tag key m ≡ false
no_tag key m e = rw (has_tag, e) refl

no_details :
    (m : TagMap)
    → find (codes "error.msg") m ≡ none
    → find (codes "error.stack") m ≡ none
    → find (codes "error.type") m ≡ none
    → has_error_details m ≡ false
no_details m e f g =
    rw
      (
        has_error_details,
        no_tag (codes "error.msg") m e,
        no_tag (codes "error.stack") m f,
        no_tag (codes "error.type") m g,
      )
      refl

-- The error details are erased.
erased_details : (meta : TagMap) → has_error_details (erase_error_details meta) ≡ false
erased_details meta =
    let msg_gone : find (codes "error.msg") (erase_error_details meta) ≡ none =
      find-erase (codes "error.type") (codes "error.msg") _
      ∙ find-erase (codes "error.stack") (codes "error.msg") _
      ∙ find-erase (codes "error.msg") (codes "error.msg") meta in
    let stack_gone : find (codes "error.stack") (erase_error_details meta) ≡ none =
      find-erase (codes "error.type") (codes "error.stack") _
      ∙ find-erase (codes "error.stack") (codes "error.stack") _ in
    let type_gone : find (codes "error.type") (erase_error_details meta) ≡ none =
      find-erase (codes "error.type") (codes "error.type") _ in
    no_details (erase_error_details meta) msg_gone stack_gone type_gone

erased : (key : Text) (m : TagMap) → find key (erase key m) ≡ none
erased key m = ground (arith, find-erase key key m, same_iff {A = Text} key key)

and_false : (b : Bool) → (b && false) ≡ false
and_false true = refl
and_false false = refl

if_true {ℓ} : {A : Type ℓ} (b : Bool) (x y : A) → b ≡ true → (if b then x else y) ≡ x
if_true true x y e = refl
if_true false x y e = absurd (ground arith)

module _ {D : Type 0} (error_tag : Text) where
  abbrev IsConsistent : SpanData D → Type 0
  IsConsistent s =
      ((has_error_details s.meta && not (s.error == 1)) ≡ false) × (find error_tag s.meta ≡ none)

  -- After `finish_error_tags` a span that has error details is marked as an error, whatever its
  -- error tag said, and the error tag itself is gone.
  finish_error_tags-consistent :
      (s : SpanData D)
      → ((has_error_details (finish_error_tags error_tag s).meta
            && not ((finish_error_tags error_tag s).error == 1))
          ≡ false)
        × (find error_tag (finish_error_tags error_tag s).meta ≡ none)
  unfolding finish_error_tags
  finish_error_tags-consistent s = elim (Option-cases (find error_tag s.meta)) [
    | inl e ↦
        rw (finish_error_tags, e)
          (if_known IsConsistent (has_error_details s.meta) (record s { error = 1 }) s
            (λ d. (and_false (has_error_details s.meta), e)) (λ d. (rw d refl, e)))
    | inr (value, e) ↦
        rw (finish_error_tags, e)
          (if_both IsConsistent (is_empty value || is_falsy (tribool value)) _ _
            (
              rw (erased_details (erase error_tag s.meta)) refl,
              find-erase-none _ _ _
                  (find-erase-none _ _ _ (find-erase-none _ _ _ (erased error_tag s.meta))),
            )
            (and_false _, erased error_tag _))
  ]

different : (x c : ℕ) → (x == c) ≡ false → x ≢ c
different x c h e = ground arith

same_content : (s t : Text) → some s ≡ some t → s ≡ t
same_content s t e = cc e

no_none : (t : Text) → ¬ (none ≡ some t)
no_none t e = ground arith

before-Free : (c : ℕ) (text : Text) → Free c (split_at c text).0
unfolding split_at
before-Free c [] = tt
before-Free c (x ∷ text) =
    if_known (λ (r : Text × Option Text). Free c r.0) (x == c) _ _ (λ e. tt)
      (λ n. (different x c n, before-Free c text))

module _ {D : Type 0} (http_url : Text) (regex_replace : Text → Text) where
  not_audited :
      (s : SpanData D)
      → find http_url s.meta ≡ none
      → find http_url (audit http_url regex_replace false s).meta ≡ none
  unfolding audit
  not_audited s n = rw (audit, n) n

  audited :
      (s : SpanData D) (u : Text)
      → find http_url s.meta ≡ some u
      → find http_url (audit http_url regex_replace false s).meta ≡ some (split_at b'?' u).0
  unfolding audit
  audited s u f =
      rw (audit, f)
        (ground (
          arith,
          find-assign http_url http_url (split_at b'?' u).0 s.meta,
          same_iff {A = Text} http_url http_url,
        ))

  -- Without the legacy obfuscation the URL tag that a span leaves with has no question mark in it,
  -- so no parameters.
  audit-Free :
      (s : SpanData D) (url : Text)
      → find http_url (audit http_url regex_replace false s).meta ≡ some url
      → Free b'?' url
  unfolding audit
  audit-Free s url e = elim (Option-cases (find http_url s.meta)) [
    | inl n ↦ absurd (no_none url (sym (not_audited s n) ∙ e))
    | inr (u, f) ↦ rw (← same_content _ _ (sym (audited s u f) ∙ e)) (before-Free b'?' u)
  ]

module _ {D : Type 0} (fl : Floats D) (stod : Text → Option D) (error_tag http_url : Text)
    (regex_replace : Text → Text) where
  -- A span finishes once: finishing it again, at any time, changes neither the span nor the buffer.
  finish_with_options-twice :
      (end_time now end_time' now' : ℕ) (clock clock' : ℕ → ℕ) (s : Span D) (b : SpanBuffer D)
      → finish_with_options fl stod error_tag http_url regex_replace end_time' now' clock'
          (finish_with_options fl stod error_tag http_url regex_replace end_time now clock s b).0
          (finish_with_options fl stod error_tag http_url regex_replace end_time now clock s b).1
        ≡ finish_with_options fl stod error_tag http_url regex_replace end_time now clock s b
  unfolding finish_with_options
  finish_with_options-twice end_time now end_time' now' clock clock' s b =
      if_known
        (λ (r : Span D × SpanBuffer D).
          finish_with_options fl stod error_tag http_url regex_replace end_time' now' clock' r.0 r.1
          ≡ r)
        s.is_finished _ _ (λ f. if_true s.is_finished _ _ f) (λ f. refl)
