-- ===== src/Retry/Copies.antt =====
-- middleware/retry.py, RetryMiddleware: the copy of a failed delivery for a delay queue or for the
-- dead-letter queue.
use rabbitkit.Prelude.{
  ℕ, ◌+◌, ◌%◌, max, Bool, not, ◌||◌, Option, none, some, [], ◌++◌, if◌then◌else◌, Text, codes,
  is_empty, pos,
}
use rabbitkit.Failure.Headers.{Value, str, int, Headers, get, put, header_text, header_int}
use rabbitkit.Failure.Classify.{Raised, ClassifiedError}
use rabbitkit.Failure.Sanitizer.{ErrorSanitizer}
use rabbitkit.Failure.Copy.{
  Delivery, MessageEnvelope, FailureCategory, transient, timeout_unknown, original_queue,
  stable_message_id, stamp_failure, copy_envelope, dead_letter_envelope,
}
use rabbitkit.Retry.{RetryConfig, shard_queue_name}

-- What the code takes from Python: the two functions of `datetime`, the regular expressions, `md5`
-- as a number, and `str(value)` of what is no text; and for one failure a fresh uuid and the time.
pub record Python : Type 0 where
  pub fromisoformat : Text → Option ℕ
  pub isoformat : ℕ → Text
  pub redact : Text → Text
  pub md5 : Text → ℕ
  pub shown : Value → Text
  pub fresh : Text
  pub now : ℕ

-- `str(headers.get(original_queue, "unknown"))`
unfoldable pub queue_text : Python → Option Value → Text
queue_text py none = codes "unknown"
queue_text py (some (str t)) = t
queue_text py (some v) = py.shown v

unfoldable pub retry_category : Raised → FailureCategory
retry_category exc = if exc.is_timeout then timeout_unknown else transient

unfoldable pub shard_index : Python → Text → ℕ → ℕ
shard_index py message_id shards = if is_empty message_id then 0 else py.md5 message_id % shards

-- The delay queue's name: shard 0 is the name without a shard.
unfoldable pub delay_queue : Python → RetryConfig → Text → ℕ → Text → Text
unfolding shard_index shard_queue_name
delay_queue py c source_queue attempt message_id =
    let shard = if c.sharded then shard_index py message_id c.jitter_shards else 0 in
    shard_queue_name source_queue attempt shard

unfoldable pub put_count : RetryConfig → ℕ → Headers → Headers → Headers
unfolding put get header_int
put_count c attempt original h =
    put c.retry_header (int (pos (max attempt (header_int (get original c.retry_header))))) h

-- The headers of the retry copy.
unfoldable pub retry_headers :
    Python → RetryConfig → ErrorSanitizer → Delivery → ℕ → Raised → ClassifiedError → Headers
unfolding stable_message_id put_count stamp_failure retry_category
retry_headers py c sanitizer d retry_count exc classified =
    let attempt = retry_count + 1 in
    let (message_id, h) = stable_message_id py.fresh d d.headers in
    stamp_failure py.fromisoformat py.isoformat py.redact sanitizer d exc classified
      (retry_category exc) attempt py.now (put_count c attempt d.headers h)

-- `_build_retry_envelope`, with `none` for ConfigValidationError
unfoldable pub build_retry_envelope :
    Python
    → RetryConfig
    → ErrorSanitizer
    → Delivery
    → ℕ
    → Raised
    → ClassifiedError
    → Option MessageEnvelope
unfolding stable_message_id queue_text delay_queue retry_headers copy_envelope get
build_retry_envelope py c sanitizer d retry_count exc classified =
    let (message_id, h) = stable_message_id py.fresh d d.headers in
    let source_queue = queue_text py (get d.headers original_queue) in
    copy_envelope d (delay_queue py c source_queue (retry_count + 1) message_id)
      (retry_headers py c sanitizer d retry_count exc classified) message_id

-- A copy to publish: there is none, its envelope cannot be built, or its envelope.
pub data Copy : Type 0 where
  no_copy invalid_copy : Copy
  copy : MessageEnvelope → Copy

unfoldable pub as_copy : Option MessageEnvelope → Copy
as_copy none = invalid_copy
as_copy (some e) = copy e

-- `_build_dlq_envelope`
unfoldable pub build_dlq_envelope :
    Python → ErrorSanitizer → Delivery → ℕ → Raised → ClassifiedError → FailureCategory → Copy
unfolding get header_text dead_letter_envelope as_copy
build_dlq_envelope py sanitizer d retry_count exc classified category =
    let source_queue = header_text (get d.headers original_queue) in
    if is_empty source_queue
    then no_copy
    else as_copy (
        dead_letter_envelope py.fromisoformat py.isoformat py.redact py.fresh d
          (source_queue ++ codes ".dlq") exc classified category (retry_count + 1) sanitizer []
          py.now)

-- `_terminal_envelope`
unfoldable pub terminal_envelope :
    Python
    → RetryConfig
    → ErrorSanitizer
    → Bool
    → Delivery
    → ℕ
    → Raised
    → ClassifiedError
    → FailureCategory
    → Copy
unfolding build_dlq_envelope
terminal_envelope py c sanitizer have_publisher d retry_count exc classified category =
    if not c.dead_letters || not have_publisher
    then no_copy
    else build_dlq_envelope py sanitizer d retry_count exc classified category
