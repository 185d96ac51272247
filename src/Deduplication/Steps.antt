-- ===== src/Deduplication/Steps.antt =====
-- What one step of a delivery does to the marks.
use rabbitkit.Prelude.{
  ◌≡◌, ◌≢◌, if_cases, refl, sym, subst, Bool, true, false, Option, none, some, List, if◌then◌else◌,
  Text, same_text,
}
use rabbitkit.Deduplication.{
  DeduplicationConfig, MarkPolicy, OnInFlight, nack_requeue, ack_skip, on_success, on_start, claim,
  Cache, is_in, local_is_dup, in_flight, completed, seen, is_in_flight,
}
use rabbitkit.Deduplication.Stored.{Json, decode_stored}
use rabbitkit.Deduplication.Scope.{
  Redis, Phase, reading, running, awaiting, duplicate, returned, acking, Handled, raises, requeues,
  returns, raised, requeued, returned_to_queue, finish_by, finish_claim, finish_on_success,
  finish_unguarded, value_of, encoded, write_mark, cleanup, mark_on_ack, on_error, seen_phase,
  claimed, enter_by, enter_on_success, enter_claim, read_phase, stored_phase, in_flight_phase,
  replay, read, finish, settle,
}
use rabbitkit.Deduplication.Runs.{RedisLaws, is_done}
use rabbitkit.Deduplication.Caches.{marks, in_flight-unmarked, marks_of_value, local_is_dup-is_in}
use rabbitkit.Deduplication.Marks.{
  Good, Good-wider, written-GoodStore, write_mark-Good, cleanup-Good, Sound, IsOpen, open-Sound,
  skip-Sound, done-Sound,
}

module _ {S R : Type 0} {redis : Redis S} (laws : RedisLaws redis) (json : Json R)
    (c : DeduplicationConfig) where
  on_error-IsOpen : (guarded : Bool) → IsOpen laws json c (on_error redis json c guarded)
  unfolding on_error
  on_error-IsOpen guarded =
      if_cases (IsOpen laws json c) c.fallback_on_redis_error _ _ (λ h. (refl, refl))
        (λ h. (refl, refl))

  local_dup-Sound :
      (k : Text) (done : List Text) (s : S) (cache : Cache) (other : S × Cache × Phase R)
      → Good laws json c done s cache
      → Sound laws json c done k other
      → Sound laws json c done k (if local_is_dup c k cache then (s, cache, duplicate) else other)
  local_dup-Sound k done s cache other (store, local) sound =
      if_cases (Sound laws json c done k) (local_is_dup c k cache) (s, cache, duplicate) other
        (λ dup.
          skip-Sound laws json c k done s cache duplicate refl
            (local k (local_is_dup-is_in c k cache dup)) (store, local))
        (λ h. sound)

  seen-Sound :
      (k : Text) (done : List Text) (s : S) (cache : Cache) (answer : Option Bool)
      → (answer ≡ some true → is_in k done ≡ true)
      → Good laws json c done s cache
      → Sound laws json c done k (s, cache, seen_phase redis json c answer)
  seen-Sound k done s cache none known good =
      open-Sound laws json c k done s cache (on_error redis json c false) (on_error-IsOpen false)
        good
  seen-Sound k done s cache (some true) known good =
      skip-Sound laws json c k done s cache duplicate refl (known refl) good
  seen-Sound k done s cache (some false) known good =
      open-Sound laws json c k done s cache (running true) (refl, refl) good

  claimed-Sound :
      (k : Text) (done : List Text) (s : S) (cache : Cache) (answer : Option Bool)
      → Good laws json c done s cache
      → Sound laws json c done k (claimed redis json c cache (s, answer))
  claimed-Sound k done s cache none good =
      open-Sound laws json c k done s cache (on_error redis json c false) (on_error-IsOpen false)
        good
  claimed-Sound k done s cache (some true) good =
      open-Sound laws json c k done s cache (running true) (refl, refl) good
  claimed-Sound k done s cache (some false) good =
      open-Sound laws json c k done s cache reading (refl, refl) good

  pub enter_by-Sound :
      (p : MarkPolicy) (k : Text) (done : List Text) (s : S) (cache : Cache)
      → p ≡ c.mark_policy
      → c.mark_policy ≢ on_start
      → Good laws json c done s cache
      → Sound laws json c done k (enter_by redis json c p k s cache)
  unfolding enter_by enter_on_success enter_claim
  enter_by-Sound on_start k done s cache same other good = absurd (other (sym same))
  enter_by-Sound on_success k done s cache same other good =
      local_dup-Sound k done s cache (s, cache, seen_phase redis json c (redis.exists k s)) good
        (seen-Sound k done s cache (redis.exists k s)
          (λ there.
            good.0 k
              (subst (λ q. marks q (laws.value s k) ≡ true) same (laws.value-exists k s there)))
          good)
  enter_by-Sound claim k done s cache same other good =
      let (s', answer) = redis.set true k in_flight c.processing_timeout s in
      let kept =
        written-GoodStore laws json c k in_flight done done s s'
          (laws.value-set true k in_flight c.processing_timeout s) (λ j h. h)
          (λ j here m.
            absurd (in_flight-unmarked (subst (λ q. marks q (some in_flight) ≡ true) (sym same) m)))
          good.0 in
      local_dup-Sound k done s cache (claimed redis json c cache (s', answer)) good
        (claimed-Sound k done s' cache answer (kept, good.1))

  in_flight_phase-IsOpen : (o : OnInFlight) → IsOpen laws json c (in_flight_phase redis json c o)
  unfolding in_flight_phase
  in_flight_phase-IsOpen nack_requeue = (refl, refl)
  in_flight_phase-IsOpen ack_skip = (refl, refl)

  is_done-replay : (o : Option R) → is_done (replay redis json c o) ≡ false
  unfolding replay
  is_done-replay none = refl
  is_done-replay (some result) = refl

  is_done-stored_phase : (found : Option Text) → is_done (stored_phase redis json c found) ≡ false
  is_done-stored_phase none = refl
  is_done-stored_phase (some raw) =
      if_cases (λ p. is_done p ≡ false) c.store_results
        (replay redis json c (decode_stored json raw)) duplicate
        (λ h. is_done-replay (decode_stored json raw)) (λ h. refl)

  read_phase-Sound :
      (k : Text) (done : List Text) (s : S) (cache : Cache) (answer : Option (Option Text))
      → ((found : Option Text) → answer ≡ some found → laws.value s k ≡ found)
      → c.mark_policy ≢ on_start
      → Good laws json c done s cache
      → Sound laws json c done k (s, cache, read_phase redis json c answer)
  read_phase-Sound k done s cache none says other good =
      open-Sound laws json c k done s cache (on_error redis json c false) (on_error-IsOpen false)
        good
  read_phase-Sound k done s cache (some found) says other good =
      if_cases (λ p. Sound laws json c done k (s, cache, p)) (is_in_flight found)
        (in_flight_phase redis json c c.on_in_flight) (stored_phase redis json c found)
        (λ h. open-Sound laws json c k done s cache _ (in_flight_phase-IsOpen c.on_in_flight) good)
        (λ h.
          skip-Sound laws json c k done s cache (stored_phase redis json c found)
            (is_done-stored_phase found)
            (good.0 k (
              subst (λ v. marks c.mark_policy v ≡ true) (sym (says found refl))
                (marks_of_value c.mark_policy found other h)))
            good)

  pub read-Sound :
      (k : Text) (done : List Text) (s : S) (cache : Cache)
      → c.mark_policy ≢ on_start
      → Good laws json c done s cache
      → Sound laws json c done k (read redis json c k s cache)
  unfolding read
  read-Sound k done s cache other good =
      read_phase-Sound k done s cache (redis.get k s) (laws.value-get k s) other good

  mark_on_ack-Sound :
      (k v : Text) (nx claims settled : Bool) (done : List Text) (s : S) (cache : Cache)
      → Good laws json c done s cache
      → Sound laws json c done k (mark_on_ack redis json c k v nx claims settled s cache)
  unfolding mark_on_ack
  mark_on_ack-Sound k v nx claims settled done s cache good =
      let (s', cache') = write_mark redis json c k v nx s cache in
      if_cases (Sound laws json c done k) settled (s', cache', returned)
        (s, cache, awaiting nx claims v)
        (λ h.
          done-Sound laws json c k done s' cache' returned refl
            (write_mark-Good laws json c k v nx done s cache good))
        (λ h. open-Sound laws json c k done s cache (awaiting nx claims v) (refl, refl) good)

  finish_by-Sound :
      (p : MarkPolicy) (h : Handled R) (k : Text) (done : List Text) (s : S) (cache : Cache)
      → p ≢ on_start
      → Good laws json c done s cache
      → Sound laws json c done k (finish_by redis json c p h k s cache)
  unfolding finish_by finish_claim finish_on_success
  finish_by-Sound on_start h k done s cache other good = absurd (other refl)
  finish_by-Sound on_success raises k done s cache other good =
      open-Sound laws json c k done s cache raised (refl, refl) good
  finish_by-Sound on_success requeues k done s cache other good =
      open-Sound laws json c k done s cache requeued (refl, refl) good
  finish_by-Sound on_success (returns result settled) k done s cache other good =
      mark_on_ack-Sound k seen true false settled done s cache good
  finish_by-Sound claim raises k done s cache other good =
      let (s', cache') = cleanup redis json c k s cache in
      open-Sound laws json c k done s' cache' raised (refl, refl)
        (cleanup-Good laws json c k done s cache good)
  finish_by-Sound claim requeues k done s cache other good =
      let (s', cache') = cleanup redis json c k s cache in
      open-Sound laws json c k done s' cache' requeued (refl, refl)
        (cleanup-Good laws json c k done s cache good)
  finish_by-Sound claim (returns result settled) k done s cache other good =
      let v = value_of redis json c (encoded redis json c result) in
      let (s', cache') = write_mark redis json c k v false s cache in
      if_cases (Sound laws json c done k) (same_text v completed)
        (mark_on_ack redis json c k v false true settled s cache) (s', cache', returned)
        (λ h. mark_on_ack-Sound k v false true settled done s cache good)
        (λ h.
          done-Sound laws json c k done s' cache' returned refl
            (write_mark-Good laws json c k v false done s cache good))

  unguarded-Good :
      (h : Handled R) (k : Text) (done : List Text) (s : S) (cache : Cache)
      → Good laws json c done s cache
      → Sound laws json c done k (s, cache, finish_unguarded redis json c h)
  unfolding finish_unguarded
  unguarded-Good raises k done s cache good =
      open-Sound laws json c k done s cache raised (refl, refl) good
  unguarded-Good requeues k done s cache good =
      open-Sound laws json c k done s cache requeued (refl, refl) good
  unguarded-Good (returns result settled) k done s cache good =
      done-Sound laws json c k done s cache returned refl
        (Good-wider laws json c k done s cache good)

  pub finish-Sound :
      (guarded : Bool) (h : Handled R) (k : Text) (done : List Text) (s : S) (cache : Cache)
      → c.mark_policy ≢ on_start
      → Good laws json c done s cache
      → Sound laws json c done k (finish redis json c guarded h k s cache)
  unfolding finish
  finish-Sound false h k done s cache other good = unguarded-Good h k done s cache good
  finish-Sound true h k done s cache other good =
      finish_by-Sound c.mark_policy h k done s cache other good

  pub settle-Sound :
      (acks nx claims : Bool) (v k : Text) (done : List Text) (s : S) (cache : Cache)
      → Good laws json c done s cache
      → Sound laws json c done k (settle redis json c acks nx claims v k s cache)
  unfolding settle
  settle-Sound true nx claims v k done s cache good =
      let (s', cache') = write_mark redis json c k v nx s cache in
      done-Sound laws json c k done s' cache' acking refl
        (write_mark-Good laws json c k v nx done s cache good)
  settle-Sound false nx true v k done s cache good =
      let (s', cache') = cleanup redis json c k s cache in
      open-Sound laws json c k done s' cache' returned_to_queue (refl, refl)
        (cleanup-Good laws json c k done s cache good)
  settle-Sound false nx false v k done s cache good =
      open-Sound laws json c k done s cache returned_to_queue (refl, refl) good
