-- ===== src/Failure/Copy.antt =====
-- core/failure_copy.py: the copies of a failed delivery, with RabbitMessage's AMQP properties and
-- MessageEnvelope. Bytes and texts are lists of code points.
use Prim.Native.String.{String}
use rabbitkit.Prelude.{
  ℕ, ◌+◌, max, Bool, true, false, ◌||◌, Option, none, some, [], ◌∷◌, if◌then◌else◌, ◌==◌, ltb,
  is_some, Text, codes, is_empty, pos,
}
use rabbitkit.Message.{RabbitMessage}
use rabbitkit.Failure.Headers.{
  Value, str, int, null, Headers, get, put, pop, update, header_text, header_int, parse_iso,
}
use rabbitkit.Failure.Classify.{Raised, ClassifiedError, category_value}
use rabbitkit.Failure.Sanitizer.{ErrorSanitizer, SanitizedError, as_headers, sanitize}

-- A delivery: its settlement, and what it carries. `wire_body` and `wire_content_encoding` are the
-- values on the wire.
pub record Delivery : Type 0 where
  pub message : RabbitMessage
  pub headers : Headers
  pub exchange : Text
  pub routing_key : Text
  pub wire_body : Text
  pub wire_content_encoding : Option Text
  pub content_type : Option Text
  pub correlation_id : Option Text
  pub reply_to : Option Text
  pub priority : Option ℕ
  pub timestamp : Option ℕ
  pub delivery_mode : Option ℕ
  pub expiration : Option Text
  pub type_ : Option Text
  pub app_id : Option Text
  pub user_id : Option Text

pub record MessageEnvelope : Type 0 where
  pub routing_key : Text
  pub body : Text
  pub exchange : Text
  pub headers : Headers
  pub message_id : Text
  pub correlation_id : Option Text
  pub reply_to : Option Text
  pub timestamp : Option ℕ
  pub content_type : Text
  pub content_encoding : Option Text
  pub expiration : Option Text
  pub priority : Option ℕ
  pub mandatory : Bool
  pub delivery_mode : ℕ
  pub type_ : Option Text
  pub user_id : Option Text
  pub app_id : Option Text

-- len(text.encode("utf-8"))
unfoldable pub utf8_length : Text → ℕ
utf8_length [] = 0
utf8_length (c ∷ s) =
    (if ltb c 128 then 1 else if ltb c 2048 then 2 else if ltb c 65536 then 3 else 4)
    + utf8_length s

abbrev pub shortstr_max_bytes : ℕ
shortstr_max_bytes = 255

-- MessageEnvelope.__post_init__, with `none` for ConfigValidationError
unfoldable pub validated : MessageEnvelope → Option MessageEnvelope
unfolding utf8_length
validated e =
    if ltb shortstr_max_bytes (utf8_length e.routing_key)
    then none
    else if ltb shortstr_max_bytes (utf8_length e.exchange)
    then none
    else some e

abbrev pub original_queue : String
original_queue = "x-rabbitkit-original-queue"

abbrev pub original_message_id : String
original_message_id = "x-rabbitkit-original-message-id"

abbrev pub original_expiration : String
original_expiration = "x-rabbitkit-original-expiration"

abbrev pub first_failed_at : String
first_failed_at = "x-rabbitkit-first-failed-at"

abbrev pub attempts_header : String
attempts_header = "x-rabbitkit-attempts"

-- `text or other`
abbrev pub text_or : Option Text → Text → Text
text_or none other = other
text_or (some t) other = if is_empty t then other else t

-- `uuid.uuid4().hex` is an argument. The first copy records the id.
unfoldable pub stable_message_id : Text → Delivery → Headers → Text × Headers
unfolding put get header_text
stable_message_id fresh d headers =
    let recorded = header_text (get headers original_message_id) in
    let chosen = if is_empty recorded then text_or d.message.message_id fresh else recorded in
    (
      text_or d.message.message_id chosen,
      if is_empty recorded then put original_message_id (str chosen) headers else headers,
    )

-- if name not in headers: headers[name] = value
unfoldable pub put_missing : String → Value → Headers → Headers
unfolding put get
put_missing name v h = if is_some (get h name) then h else put name v h

pub data FailureCategory : Type 0 where
  transient timeout_unknown permanent exhausted retry_age_exceeded : FailureCategory

unfoldable pub failure_value : FailureCategory → Text
failure_value transient = codes "transient"
failure_value timeout_unknown = codes "timeout-unknown"
failure_value permanent = codes "permanent"
failure_value exhausted = codes "exhausted"
failure_value retry_age_exceeded = codes "retry-age-exceeded"

abbrev pub or_binary : Option Text → Text
or_binary t = text_or t (codes "application/octet-stream")

-- A delivery mode of 1 or 2 is kept.
unfoldable pub known_mode : Option ℕ → ℕ
known_mode none = 2
known_mode (some n) = if (n == 1) || (n == 2) then n else 2

unfoldable pub copy_envelope : Delivery → Text → Headers → Text → Option MessageEnvelope
unfolding validated known_mode
copy_envelope d routing_key headers message_id = validated (record {
  routing_key = routing_key;
  body = d.wire_body;
  exchange = [];
  headers = headers;
  message_id = message_id;
  correlation_id = d.correlation_id;
  reply_to = d.reply_to;
  timestamp = d.timestamp;
  content_type = or_binary d.content_type;
  content_encoding = d.wire_content_encoding;
  expiration = none;
  priority = d.priority;
  mandatory = true;
  delivery_mode = known_mode d.delivery_mode;
  type_ = d.type_;
  user_id = d.user_id;
  app_id = d.app_id;
})

-- The two functions of Python's `datetime`, and the redaction of the patterns.
module _ (fromisoformat : Text → Option ℕ) (isoformat : ℕ → Text) (redact : Text → Text) where
  -- The headers where the message came from, if they are missing.
  unfoldable pub stamp_origin : Delivery → Headers → Headers
  unfolding put_missing
  stamp_origin d h = put_missing original_queue (str []) (
      put_missing "x-rabbitkit-original-routing-key" (str d.routing_key)
        (put_missing "x-rabbitkit-original-exchange" (str d.exchange) h))

  -- The headers of the error.
  unfoldable pub stamp_error :
      SanitizedError → ClassifiedError → FailureCategory → Headers → Headers
  unfolding as_headers update pop put category_value failure_value
  stamp_error e classified category h =
      put "x-rabbitkit-failure-category" (str (failure_value category)) (
        put "x-rabbitkit-error-class" (str e.code) (
          put "x-rabbitkit-error-category" (str (category_value classified.category))
            (update (pop "x-rabbitkit-error-message" h) (as_headers e))))

  unfoldable pub stamp_attempts : ℕ → Headers → Headers
  unfolding put get header_int
  stamp_attempts attempts h =
      put attempts_header (int (pos (max attempts (header_int (get h attempts_header))))) h

  -- The time of the first failure is set once.
  unfoldable pub stamp_first : ℕ → Headers → Headers
  unfolding put get parse_iso
  stamp_first now h =
      if is_some (parse_iso fromisoformat now (get h first_failed_at))
      then h
      else put first_failed_at (str (isoformat now)) h

  unfoldable pub stamp_times : ℕ → Headers → Headers
  unfolding put stamp_first
  stamp_times now h = put "x-rabbitkit-last-failed-at" (str (isoformat now)) (stamp_first now h)

  unfoldable pub stamp_expiration : Option Text → Headers → Headers
  unfolding put_missing
  stamp_expiration none h = h
  stamp_expiration (some t) h = if is_empty t then h else put_missing original_expiration (str t) h

  unfoldable pub stamp_failure :
      ErrorSanitizer
      → Delivery
      → Raised
      → ClassifiedError
      → FailureCategory
      → ℕ
      → ℕ
      → Headers
      → Headers
  unfolding stamp_origin stamp_error stamp_attempts stamp_times stamp_expiration sanitize
  stamp_failure sanitizer d exc classified category attempts now h =
      let e = sanitize redact sanitizer exc classified.severity in
      stamp_expiration d.expiration (
        stamp_times now
          (stamp_attempts attempts (stamp_error e classified category (stamp_origin d h))))

  -- `headers.get(name) in (None, "")`
  unfoldable pub lacks : Option Value → Bool
  lacks none = true
  lacks (some null) = true
  lacks (some (str t)) = is_empty t
  lacks (some _) = false

  unfoldable pub fill : Headers → Headers → Headers
  unfolding lacks put get
  fill h [] = h
  fill h ((name, v) ∷ more) = fill (if lacks (get h name) then put name v h else h) more

  unfoldable pub dead_letter_envelope :
      Text
      → Delivery
      → Text
      → Raised
      → ClassifiedError
      → FailureCategory
      → ℕ
      → ErrorSanitizer
      → Headers
      → ℕ
      → Option MessageEnvelope
  unfolding stable_message_id fill stamp_failure copy_envelope put
  dead_letter_envelope fresh d dlq exc classified category attempts sanitizer defaults now =
      let (message_id, h) = stable_message_id fresh d (fill d.headers defaults) in
      let stamped = stamp_failure sanitizer d exc classified category attempts now h in
      copy_envelope d dlq (put "x-rabbitkit-dead-lettered-at" (str (isoformat now)) stamped)
        message_id
