-- ===== src/Retry/Copied.antt =====
-- What a retry copy carries.
use Prim.Native.String.{String}
use text.Mathlib.Text.{◌==◌}
use rabbitkit.Prelude.{
  ℕ, ◌+◌, max, ◌≡◌, ◌∙◌, inl, inr, true, false, some, Bool-cases, arith, Text, is_empty, pos,
}
use rabbitkit.Failure.Headers.{Value, int, Headers, get, get-put, header_int, header_text}
use rabbitkit.Failure.Classify.{Raised, ClassifiedError}
use rabbitkit.Failure.Sanitizer.{ErrorSanitizer}
use rabbitkit.Failure.Copy.{
  Delivery, MessageEnvelope, first_failed_at, original_message_id, original_queue, copy_envelope,
  validated, stable_message_id,
}
use rabbitkit.Failure.Kept.{IsKept, get-put_same, get-put_other, get-stamp_failure}
use rabbitkit.Retry.{RetryConfig}
use rabbitkit.Retry.Copies.{
  Python, put_count, retry_headers, retry_category, build_retry_envelope, delay_queue, queue_text,
}

pub copy_envelope-fields :
    (d : Delivery) (routing_key : Text) (h : Headers) (id : Text) (e : MessageEnvelope)
    → copy_envelope d routing_key h id ≡ some e
    → (e.headers ≡ h)
      × (e.routing_key ≡ routing_key)
      × (e.body ≡ d.wire_body)
      × (e.message_id ≡ id)
      × (e.mandatory ≡ true)
unfolding copy_envelope validated
copy_envelope-fields d routing_key h id e p = ground arith

-- A name that the copy carries over: it is no stamped name.
pub record IsCarried (k : String) : Type 0 where
  pub kept : IsKept k
  pub not_first : (first_failed_at == k) ≡ false
  pub not_id : (original_message_id == k) ≡ false

stable_message_id-keeps :
    (fresh : Text) (d : Delivery) (h : Headers) (k : String)
    → (original_message_id == k) ≡ false
    → get (stable_message_id fresh d h).1 k ≡ get h k
unfolding stable_message_id
stable_message_id-keeps fresh d h k e =
    elim (Bool-cases (is_empty (header_text (get h original_message_id)))) [
      | inl b ↦ simp (b, get-put, e)
      | inr b ↦ simp b
    ]

module _ (py : Python) (c : RetryConfig) (sanitizer : ErrorSanitizer) (d : Delivery)
    (retry_count : ℕ) (exc : Raised) (classified : ClassifiedError) where
  -- The count of the copy is above the one that was read, and never below the one that was claimed.
  pub retry_headers-count :
      IsCarried c.retry_header
      → get (retry_headers py c sanitizer d retry_count exc classified) c.retry_header
        ≡ some (int (pos (max (retry_count + 1) (header_int (get d.headers c.retry_header)))))
  unfolding retry_headers put_count
  retry_headers-count carried =
      let h = (stable_message_id py.fresh d d.headers).1 in
      let n = max (retry_count + 1) (header_int (get d.headers c.retry_header)) in
      get-stamp_failure py.fromisoformat py.isoformat py.redact c.retry_header (int (pos n))
        sanitizer d exc classified (retry_category exc) (retry_count + 1) py.now
        (put_count c (retry_count + 1) d.headers h) carried.kept
        (get-put_same c.retry_header (int (pos n)) h) (inl carried.not_first)

  pub retry_headers-carried :
      (k : String) (v : Value)
      → IsCarried k
      → (c.retry_header == k) ≡ false
      → get d.headers k ≡ some v
      → get (retry_headers py c sanitizer d retry_count exc classified) k ≡ some v
  unfolding retry_headers put_count
  retry_headers-carried k v carried other e =
      let h = (stable_message_id py.fresh d d.headers).1 in
      get-stamp_failure py.fromisoformat py.isoformat py.redact k v sanitizer d exc classified
        (retry_category exc) (retry_count + 1) py.now (put_count c (retry_count + 1) d.headers h)
        carried.kept
        (get-put_other c.retry_header k
            (int (pos (max (retry_count + 1) (header_int (get d.headers c.retry_header))))) h other
          ∙ stable_message_id-keeps py.fresh d d.headers k carried.not_id
          ∙ e)
        (inl carried.not_first)

  pub build_retry_envelope-fields :
      (e : MessageEnvelope)
      → build_retry_envelope py c sanitizer d retry_count exc classified ≡ some e
      → (e.headers ≡ retry_headers py c sanitizer d retry_count exc classified)
        × (e.routing_key
            ≡ delay_queue py c
                (queue_text py (get d.headers original_queue))
                (retry_count + 1)
                (stable_message_id py.fresh d d.headers).0)
        × (e.body ≡ d.wire_body)
  unfolding build_retry_envelope
  build_retry_envelope-fields e p =
      let (headers, key, body, id, mandatory) = copy_envelope-fields d _ _ _ e p in
      (headers, key, body)
