-- ===== src/Retry.antt =====
-- middleware/retry.py: the retry count of a delivery, and what becomes of a failure. The child modules
-- have the handoff tracker, the copies and the middleware, and what they guarantee.
pub mod Handoff
pub mod Backoff
pub mod Copies
pub mod Route
pub mod Safety
pub mod Tiers
pub mod Copied
pub mod Ladder
pub mod Ends
mod Examples
use Prim.Native.String.{String}
use rabbitkit.Prelude.{
  ℕ, suc, ◌+◌, ◌-◌, ◌*◌, ◌/◌, ◌%◌, max, min, Bool, true, false, Option, none, some, List, [], ◌∷◌,
  ◌++◌, if◌then◌else◌, leb, ltb, ◌==◌, Text, codes, is_empty, strip_prefix, before, is_decimal,
  digits_value, decimal, Bool-cases,
}
use rabbitkit.Failure.Headers.{
  Death, table, no_table, Value, list, Headers, get, header_text, header_int, parse_iso,
}
use rabbitkit.Failure.Classify.{
  Raised, Opinion, ErrorSeverity, same_severity, ClassifiedError, classify_error,
}
use rabbitkit.Failure.Copy.{
  Delivery, FailureCategory, permanent, exhausted, retry_age_exceeded, original_queue,
  first_failed_at,
}

-- The fields of RetryConfig that the middleware reads. Ages are in ticks.
pub record RetryConfig : Type 0 where
  pub max_retries : ℕ
  pub retry_header : String
  pub sharded : Bool
  pub jitter_shards : ℕ
  pub unknown_policy : ErrorSeverity
  pub max_retry_age : Option ℕ
  pub dead_letters : Bool
  pub trust_retry_header : Bool

-- {source_queue}.retry.
unfoldable pub retry_prefix : Text → Text
retry_prefix source_queue = source_queue ++ codes ".retry."

unfoldable pub shard_queue_name : Text → ℕ → ℕ → Text
unfolding retry_prefix
shard_queue_name source_queue attempt shard =
    let base = retry_prefix source_queue ++ decimal attempt in
    if shard == 0 then base else base ++ codes ".s" ++ decimal shard

unfoldable pub tier_value : Text → ℕ
tier_value tier = if is_decimal tier then digits_value 0 tier else 0

unfoldable pub queue_tier : Option Text → ℕ
unfolding tier_value
queue_tier none = 0
queue_tier (some rest) = tier_value (before b'.' rest)

-- The tier of one entry of the history, for a prefix; an entry without a queue reads as "".
unfoldable pub death_tier : Text → Death → ℕ
unfolding queue_tier strip_prefix
death_tier prefix no_table = 0
death_tier prefix (table none) = queue_tier (strip_prefix prefix [])
death_tier prefix (table (some queue)) = queue_tier (strip_prefix prefix queue)

unfoldable pub floor_of : Text → List Death → ℕ
unfolding death_tier
floor_of prefix [] = 0
floor_of prefix (death ∷ more) = max (death_tier prefix death) (floor_of prefix more)

unfoldable pub deaths_floor : Text → Option Value → ℕ
unfolding floor_of
deaths_floor prefix (some (list deaths)) = floor_of prefix deaths
deaths_floor prefix _ = 0

unfoldable pub xdeath_retry_floor : Headers → Text → ℕ
unfolding get deaths_floor retry_prefix
xdeath_retry_floor headers source_queue =
    deaths_floor (retry_prefix source_queue) (get headers "x-death")

unfoldable pub claimed_count : RetryConfig → Headers → ℕ
unfolding get header_int
claimed_count c headers =
    if c.trust_retry_header then header_int (get headers c.retry_header) else 0

unfoldable pub broker_count : Headers → ℕ
unfolding get header_text xdeath_retry_floor
broker_count headers =
    let source_queue = header_text (get headers original_queue) in
    let floor = xdeath_retry_floor headers source_queue in
    if is_empty source_queue then 0 else floor

unfoldable pub get_retry_count : RetryConfig → Headers → ℕ
unfolding claimed_count broker_count
get_retry_count c headers = min (max (claimed_count c headers) (broker_count headers)) c.max_retries

-- A decision: the count, the classification, and the category of a terminal failure.
pub record Decision : Type 0 where
  pub classified : ClassifiedError
  pub retry_count : ℕ
  pub terminal : Option FailureCategory

module _ (fromisoformat : Text → Option ℕ) where
  unfoldable pub age_since : Option ℕ → ℕ → ℕ → Bool
  age_since none max_age now = false
  age_since (some first) max_age now = ltb max_age (now - first)

  unfoldable pub retry_age_exceeded_at : RetryConfig → Headers → ℕ → Bool
  unfolding get parse_iso age_since
  retry_age_exceeded_at c headers now = elim c.max_retry_age [
    | none ↦ false
    | some max_age ↦
        age_since (parse_iso fromisoformat now (get headers first_failed_at)) max_age now
  ]

  unfoldable pub terminal_of :
      RetryConfig → ErrorSeverity → ℕ → Headers → ℕ → Option FailureCategory
  unfolding retry_age_exceeded_at same_severity
  terminal_of c severity retry_count headers now =
      if same_severity severity ErrorSeverity.permanent
      then some permanent
      else if leb c.max_retries retry_count
      then some exhausted
      else if retry_age_exceeded_at c headers now
      then some retry_age_exceeded
      else none

  unfoldable pub decide : RetryConfig → List (Raised → Opinion) → Raised → Headers → ℕ → Decision
  unfolding classify_error get_retry_count terminal_of
  decide c predicates exc headers now =
      let classified = classify_error predicates c.unknown_policy exc in
      let retry_count = get_retry_count c headers in
      record {
        classified = classified;
        retry_count = retry_count;
        terminal = terminal_of c classified.severity retry_count headers now;
      }
