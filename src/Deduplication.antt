-- ===== src/Deduplication.antt =====
-- middleware/deduplication.py: the key of a message, the local cache and the values under a key. The
-- children have the middleware on one delivery, runs of many, and what they guarantee.
pub mod Stored
pub mod Scope
pub mod Runs
mod Caches
mod Marks
mod Steps
pub mod Safety
pub mod Bounds
mod Examples
use rabbitkit.Prelude.{
  ℕ, ◌+◌, Bool, true, false, ◌||◌, Option, none, some, List, [], ◌∷◌, ◌++◌, keep, not,
  if◌then◌else◌, leb, ltb, ◌==◌, length, Text, codes, is_empty, same_text,
}

-- The names of mark_policy and of on_in_flight.
pub data MarkPolicy : Type 0 where
  on_success on_start claim : MarkPolicy

pub data OnInFlight : Type 0 where
  nack_requeue ack_skip : OnInFlight

pub data KeySource : Type 0 where
  by_message_id by_correlation_id by_body_hash unknown_source : KeySource

-- DeduplicationConfig. Times are in seconds.
pub record DeduplicationConfig : Type 0 where
  pub key_prefix : Text
  pub ttl : ℕ
  pub fallback_on_redis_error : Bool
  pub key_source : KeySource
  pub mark_policy : MarkPolicy
  pub local_cache_size : ℕ
  pub processing_timeout : ℕ
  pub on_in_flight : OnInFlight
  pub store_results : Bool
  pub max_result_bytes : ℕ
  pub namespace_by_queue : Bool

-- What the key is made of. `key_fn` has the answer of the custom function, if there is one, and
-- `body_hash` the hexadecimal SHA-256 of the body.
pub record Keyed : Type 0 where
  pub key_fn : Option Text
  pub message_id : Option Text
  pub correlation_id : Option Text
  pub body_hash : Text
  pub original_queue : Option Text
  pub routing_key : Text

abbrev pub text_of : Option Text → Text
text_of none = []
text_of (some t) = t

unfoldable pub raw_key : KeySource → Keyed → Text
raw_key by_message_id k = text_of k.message_id
raw_key by_correlation_id k = text_of k.correlation_id
raw_key by_body_hash k = k.body_hash
raw_key unknown_source k = text_of k.message_id

abbrev pub first_filled : Text → Text → Text
first_filled t other = if is_empty t then other else t

unfoldable pub identified : KeySource → Keyed → Text
unfolding raw_key
identified source k =
    let raw : Text = elim k.key_fn [ none ↦ raw_key source k | some t ↦ t ] in
    first_filled raw k.body_hash

unfoldable pub queue_of : Keyed → Text
queue_of k = first_filled (text_of k.original_queue) (first_filled k.routing_key (codes "unknown"))

unfoldable pub extract_key : DeduplicationConfig → Keyed → Text
unfolding identified queue_of
extract_key c k =
    let raw = identified c.key_source k in
    if c.namespace_by_queue
    then c.key_prefix ++ codes ":" ++ queue_of k ++ codes ":" ++ raw
    else c.key_prefix ++ codes ":" ++ raw

-- The local cache: keys, the oldest first.
abbrev pub Cache : Type 0
Cache = List Text

unfoldable pub is_in : Text → List Text → Bool
is_in k [] = false
is_in k (j ∷ js) = let rest = is_in k js in same_text j k || rest

unfoldable pub without : Text → List Text → List Text
without k [] = []
without k (j ∷ js) = let rest = without k js in if same_text j k then rest else j ∷ rest

abbrev pub oldest_out : ℕ → Cache → Cache
oldest_out size [] = []
oldest_out size (k ∷ ks) = if ltb size (length (k ∷ ks)) then ks else k ∷ ks

-- With a size of 0 there is no cache.
unfoldable pub local_is_dup : DeduplicationConfig → Text → Cache → Bool
unfolding is_in
local_is_dup c k cache = if c.local_cache_size == 0 then false else is_in k cache

unfoldable pub local_mark : DeduplicationConfig → Text → Cache → Cache
unfolding without
local_mark c k cache =
    let marked = oldest_out c.local_cache_size (without k cache ++ k ∷ []) in
    if c.local_cache_size == 0 then cache else marked

unfoldable pub local_remove : DeduplicationConfig → Text → Cache → Cache
unfolding without
local_remove c k cache = if c.local_cache_size == 0 then cache else without k cache

abbrev pub in_flight : Text
in_flight = codes "in-flight"

abbrev pub completed : Text
completed = codes "completed"

-- The mark of on_success and on_start.
abbrev pub seen : Text
seen = codes "1"

-- `_is_in_flight`
unfoldable pub is_in_flight : Option Text → Bool
is_in_flight none = true
is_in_flight (some v) = same_text v in_flight
