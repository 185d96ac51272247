-- ===== src/Deduplication/Scope.antt =====
-- middleware/deduplication.py, DeduplicationMiddleware on one delivery: what it does before the
-- handler runs, when the handler has ended, and when the pipeline settles. The synchronous and the
-- asynchronous variant have the same body. Redis is a parameter.
use rabbitkit.Prelude.{ℕ, Bool, true, false, Option, none, some, if◌then◌else◌, Text, same_text}
use rabbitkit.Deduplication.{
  DeduplicationConfig, MarkPolicy, on_success, on_start, claim, OnInFlight, nack_requeue, ack_skip,
  Cache, local_is_dup, local_mark, local_remove, in_flight, completed, seen, is_in_flight,
}
use rabbitkit.Deduplication.Stored.{Json, encode_completed, decode_stored}

-- The commands of the client on a store, `none` where a call raises. `delete` may raise and may have
-- been done; the code goes on in either case.
pub record Redis (S : Type 0) : Type 0 where
  pub set : (nx : Bool) (key value : Text) (ex : ℕ) → S → S × Option Bool
  pub exists : Text → S → Option Bool
  pub get : Text → S → Option (Option Text)
  pub delete : Text → S → S

-- Where a delivery stands: before its GET, in its handler (`guarded` unless Redis failed before), with
-- a mark to be written when it is acked, between that mark and the ack, or at an end.
pub data Phase (R : Type 0) : Type 0 where
  reading : Phase R
  running : (guarded : Bool) → Phase R
  awaiting : (nx claims : Bool) (value : Text) → Phase R
  duplicate skipped_in_flight requeued_in_flight : Phase R
  replayed : R → Phase R
  returned requeued raised acking acked ack_raised returned_to_queue : Phase R

-- How the handler ended; `settled` says that the message is settled by then or has no ack function.
pub data Handled (R : Type 0) : Type 0 where
  raises requeues : Handled R
  returns : Option R → (settled : Bool) → Handled R

module _ {S R : Type 0} (redis : Redis S) (json : Json R) (c : DeduplicationConfig) where
  abbrev pub Step : Type 0
  Step = S × Cache × Phase R

  -- A Redis error before the handler.
  unfoldable pub on_error : Bool → Phase R
  on_error guarded = if c.fallback_on_redis_error then running guarded else raised

  abbrev pub seen_phase : Option Bool → Phase R
  seen_phase none = on_error false
  seen_phase (some true) = duplicate
  seen_phase (some false) = running true

  unfoldable pub enter_on_success : Text → S → Cache → Step
  unfolding local_is_dup on_error
  enter_on_success k s cache =
      if local_is_dup c k cache
      then (s, cache, duplicate)
      else (s, cache, seen_phase (redis.exists k s))

  abbrev pub started : Text → Cache → S × Option Bool → Step
  started k cache (s, none) = (s, cache, on_error true)
  started k cache (s, some true) = (s, local_mark c k cache, running true)
  started k cache (s, some false) = (s, cache, duplicate)

  -- `_mark_key` and what follows it
  unfoldable pub enter_on_start : Text → S → Cache → Step
  unfolding local_is_dup on_error local_mark
  enter_on_start k s cache =
      let tried = started k cache (redis.set true k seen c.ttl s) in
      if local_is_dup c k cache then (s, cache, duplicate) else tried

  abbrev pub claimed : Cache → S × Option Bool → Step
  claimed cache (s, none) = (s, cache, on_error false)
  claimed cache (s, some true) = (s, cache, running true)
  claimed cache (s, some false) = (s, cache, reading)

  unfoldable pub enter_claim : Text → S → Cache → Step
  unfolding local_is_dup on_error
  enter_claim k s cache =
      let tried = claimed cache (redis.set true k in_flight c.processing_timeout s) in
      if local_is_dup c k cache then (s, cache, duplicate) else tried

  unfoldable pub enter_by : MarkPolicy → Text → S → Cache → Step
  unfolding enter_on_success enter_on_start enter_claim
  enter_by on_success k s cache = enter_on_success k s cache
  enter_by on_start k s cache = enter_on_start k s cache
  enter_by claim k s cache = enter_claim k s cache

  -- `consume_scope` before the handler
  unfoldable pub enter : Text → S → Cache → Step
  unfolding enter_by
  enter k s cache = enter_by c.mark_policy k s cache

  -- `_handle_in_flight_duplicate`
  unfoldable pub in_flight_phase : OnInFlight → Phase R
  in_flight_phase nack_requeue = requeued_in_flight
  in_flight_phase ack_skip = skipped_in_flight

  unfoldable pub replay : Option R → Phase R
  replay none = duplicate
  replay (some result) = replayed result

  abbrev pub stored_phase : Option Text → Phase R
  stored_phase none = duplicate
  stored_phase (some raw) = if c.store_results then replay (decode_stored json raw) else duplicate

  -- The GET after a claim that was refused.
  abbrev pub read_phase : Option (Option Text) → Phase R
  read_phase none = on_error false
  read_phase (some raw) =
      if is_in_flight raw then in_flight_phase c.on_in_flight else stored_phase raw

  unfoldable pub read : Text → S → Cache → Step
  unfolding on_error is_in_flight in_flight_phase replay decode_stored
  read k s cache = (s, cache, read_phase (redis.get k s))

  -- `_cleanup_key_after_non_success`
  unfoldable pub cleanup : Text → S → Cache → S × Cache
  unfolding local_remove
  cleanup k s cache = (redis.delete k s, local_remove c k cache)

  abbrev pub marked : Text → Cache → S × Option Bool → S × Cache
  marked k cache (s, none) = (s, cache)
  marked k cache (s, some done) = (s, local_mark c k cache)

  -- `_write_mark`
  unfoldable pub write_mark : Text → Text → Bool → S → Cache → S × Cache
  unfolding local_mark
  write_mark k value nx s cache = marked k cache (redis.set nx k value c.ttl s)

  -- `_mark_on_ack`
  unfoldable pub mark_on_ack : Text → Text → Bool → Bool → Bool → S → Cache → Step
  unfolding write_mark
  mark_on_ack k value nx claims settled s cache =
      let (s', cache') = write_mark k value nx s cache in
      if settled then (s', cache', returned) else (s, cache, awaiting nx claims value)

  -- `_completed_value`
  unfoldable pub encoded : Option R → Option Text
  unfolding encode_completed
  encoded none = none
  encoded (some result) =
      if c.store_results then encode_completed json result c.max_result_bytes else none

  abbrev pub value_of : Option Text → Text
  value_of none = completed
  value_of (some v) = v

  -- The handler has ended, under "claim".
  unfoldable pub finish_claim : Handled R → Text → S → Cache → Step
  unfolding cleanup encoded mark_on_ack write_mark
  finish_claim raises k s cache = let (s', cache') = cleanup k s cache in (s', cache', raised)
  finish_claim requeues k s cache = let (s', cache') = cleanup k s cache in (s', cache', requeued)
  finish_claim (returns result settled) k s cache =
      let value = value_of (encoded result) in
      let (s', cache') = write_mark k value false s cache in
      let later = mark_on_ack k value false true settled s cache in
      if same_text value completed then later else (s', cache', returned)

  unfoldable pub finish_on_success : Handled R → Text → S → Cache → Step
  unfolding mark_on_ack
  finish_on_success raises k s cache = (s, cache, raised)
  finish_on_success requeues k s cache = (s, cache, requeued)
  finish_on_success (returns result settled) k s cache =
      mark_on_ack k seen true false settled s cache

  unfoldable pub finish_on_start : Handled R → Text → S → Cache → Step
  unfolding cleanup
  finish_on_start raises k s cache = (s, cache, raised)
  finish_on_start requeues k s cache =
      let (s', cache') = cleanup k s cache in (s', cache', requeued)
  finish_on_start (returns result settled) k s cache = (s, cache, returned)

  -- The handler ran without a check.
  unfoldable pub finish_unguarded : Handled R → Phase R
  finish_unguarded raises = raised
  finish_unguarded requeues = requeued
  finish_unguarded (returns result settled) = returned

  unfoldable pub finish_by : MarkPolicy → Handled R → Text → S → Cache → Step
  unfolding finish_claim finish_on_success finish_on_start
  finish_by on_success h k s cache = finish_on_success h k s cache
  finish_by on_start h k s cache = finish_on_start h k s cache
  finish_by claim h k s cache = finish_claim h k s cache

  -- `consume_scope` after the handler
  unfoldable pub finish : Bool → Handled R → Text → S → Cache → Step
  unfolding finish_by finish_unguarded
  finish false h k s cache = (s, cache, finish_unguarded h)
  finish true h k s cache = finish_by c.mark_policy h k s cache

  -- The pipeline acks a delivery with a mark to write, up to the call of the transport's ack, or it
  -- nacks or rejects it.
  unfoldable pub settle : Bool → Bool → Bool → Text → Text → S → Cache → Step
  unfolding write_mark cleanup
  settle true nx claims value k s cache =
      let (s', cache') = write_mark k value nx s cache in (s', cache', acking)
  settle false nx true value k s cache =
      let (s', cache') = cleanup k s cache in (s', cache', returned_to_queue)
  settle false nx false value k s cache = (s, cache, returned_to_queue)

-- The transport's ack, in `ack_after_mark`, returned or raised.
unfoldable pub acknowledge : {R : Type 0} → Bool → Phase R
acknowledge ok = if ok then acked else ack_raised
