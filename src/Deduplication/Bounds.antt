-- ===== src/Deduplication/Bounds.antt =====
-- The size of the local caches.
use rabbitkit.Prelude.{
  ℕ, ◌+◌, ◌≤◌, if_cases, Bool, none, some, List, [], ◌∷◌, ◌++◌, arith, ◌==◌, Text, length,
  length-append,
}
use rabbitkit.Deduplication.{
  DeduplicationConfig, MarkPolicy, Cache, without, oldest_out, local_mark, local_remove,
}
use rabbitkit.Deduplication.Stored.{Json}
use rabbitkit.Deduplication.Scope.{
  acking, acknowledge, Redis, Phase, reading, running, awaiting, Handled, enter, enter_by, read,
  finish, finish_by, settle, enter_on_success, enter_on_start, enter_claim, write_mark, cleanup,
  mark_on_ack, finish_claim, finish_on_success, finish_on_start,
}
use rabbitkit.Deduplication.Runs.{
  RedisLaws, Delivery, System, Event, enters, reads, ends, settles, acknowledges, crashes, expires,
  moved, on_read, on_end, on_settle, on_acknowledge, happens, all_happen, begin,
}

length-without_le : (k : Text) (ks : List Text) → length (without k ks) ≤ length ks
unfolding without
length-without_le k [] = omega arith
length-without_le k (j ∷ ks) = ground (arith, length-without_le k ks)

length-oldest_out_le : (n : ℕ) (ks : List Text) → length ks ≤ n + 1 → length (oldest_out n ks) ≤ n
length-oldest_out_le n [] h = omega arith
length-oldest_out_le n (k ∷ ks) h = ground arith

module _ (c : DeduplicationConfig) where
  Fits : Cache → Type 0
  Fits cache = length cache ≤ c.local_cache_size

  local_mark-Fits : (k : Text) (cache : Cache) → Fits cache → Fits (local_mark c k cache)
  unfolding local_mark Fits
  local_mark-Fits k cache h = ground (
    arith,
    length-oldest_out_le c.local_cache_size (without k cache ++ k ∷ []),
    length-append (without k cache) (k ∷ []),
    length-without_le k cache,
  )

  local_remove-Fits : (k : Text) (cache : Cache) → Fits cache → Fits (local_remove c k cache)
  unfolding local_remove Fits
  local_remove-Fits k cache h = ground (arith, length-without_le k cache)

  module _ {S R : Type 0} {redis : Redis S} (laws : RedisLaws redis) (json : Json R) where
    enter_by-Fits :
        (p : MarkPolicy) (k : Text) (s : S) (cache : Cache)
        → Fits cache
        → Fits (enter_by redis json c p k s cache).1
    unfolding enter_by enter_on_success enter_on_start enter_claim Fits
    enter_by-Fits p k s cache h = ground (arith, local_mark-Fits k cache h)

    finish-Fits :
        (guarded : Bool) (handled : Handled R) (k : Text) (s : S) (cache : Cache)
        → Fits cache
        → Fits (finish redis json c guarded handled k s cache).1
    unfolding finish finish_by finish_claim finish_on_success finish_on_start cleanup mark_on_ack
        write_mark Fits
    finish-Fits guarded handled k s cache h =
        ground (arith, local_mark-Fits k cache h, local_remove-Fits k cache h)

    settle-Fits :
        (acks nx claims : Bool) (v k : Text) (s : S) (cache : Cache)
        → Fits cache
        → Fits (settle redis json c acks nx claims v k s cache).1
    unfolding settle cleanup write_mark Fits
    settle-Fits acks nx claims v k s cache h =
        ground (arith, local_mark-Fits k cache h, local_remove-Fits k cache h)

    AllFit : System S R → Type 0
    AllFit w = (p : ℕ) → Fits (w.caches p)

    moved-AllFit :
        (w : System S R) (id process : ℕ) (key : Text) (s : S) (cache : Cache) (phase : Phase R)
        → AllFit w
        → Fits cache
        → AllFit (moved laws json c w id process key (s, cache, phase))
    unfolding AllFit moved
    moved-AllFit w id process key s cache phase all h p =
        if_cases Fits (process == p) cache (w.caches p) (λ e. h) (λ e. all p)

    moved_step :
        (w : System S R) (id : ℕ) (d : Delivery R) (step : S × Cache × Phase R)
        → AllFit w
        → (Fits (w.caches d.process) → Fits step.1)
        → AllFit (moved laws json c w id d.process d.key step)
    unfolding AllFit
    moved_step w id d (s, cache, phase) all f =
        moved-AllFit w id d.process d.key s cache phase all (f (all d.process))

    on_read-AllFit :
        (w : System S R) (id : ℕ) (d : Delivery R) (phase : Phase R)
        → AllFit w
        → AllFit (on_read laws json c w id d phase)
    unfolding on_read read
    on_read-AllFit w id d reading all =
        moved_step w id d (read redis json c d.key w.store (w.caches d.process)) all (λ h. h)
    on_read-AllFit w id d _ all = all

    on_end-AllFit :
        (w : System S R) (id : ℕ) (d : Delivery R) (h : Handled R) (phase : Phase R)
        → AllFit w
        → AllFit (on_end laws json c w id d h phase)
    unfolding on_end
    on_end-AllFit w id d h (running guarded) all =
        moved_step w id d (finish redis json c guarded h d.key w.store (w.caches d.process)) all
          (finish-Fits guarded h d.key w.store (w.caches d.process))
    on_end-AllFit w id d h _ all = all

    on_settle-AllFit :
        (w : System S R) (id : ℕ) (d : Delivery R) (acks : Bool) (phase : Phase R)
        → AllFit w
        → AllFit (on_settle laws json c w id d acks phase)
    unfolding on_settle
    on_settle-AllFit w id d acks (awaiting nx claims v) all =
        moved_step w id d (settle redis json c acks nx claims v d.key w.store (w.caches d.process))
          all (settle-Fits acks nx claims v d.key w.store (w.caches d.process))
    on_settle-AllFit w id d acks _ all = all

    on_acknowledge-AllFit :
        (w : System S R) (id : ℕ) (d : Delivery R) (ok : Bool) (phase : Phase R)
        → AllFit w
        → AllFit (on_acknowledge laws json c w id d ok phase)
    unfolding on_acknowledge
    on_acknowledge-AllFit w id d ok acking all =
        moved_step w id d (w.store, w.caches d.process, acknowledge ok) all (λ h. h)
    on_acknowledge-AllFit w id d ok _ all = all

    at_delivery :
        (w : System S R) (id : ℕ) (f : Delivery R → System S R)
        → AllFit w
        → ((d : Delivery R) → AllFit (f d))
        → AllFit (elim (w.deliveries id) [ none ↦ w | some d ↦ f d ])
    at_delivery w id f all k =
        elim (w.deliveries id) as (λ o. AllFit (elim o [ none ↦ w | some d ↦ f d ])) [
          | none ↦ all
          | some d ↦ k d
        ]

    happens-AllFit : (w : System S R) (e : Event R) → AllFit w → AllFit (happens laws json c w e)
    unfolding happens enter AllFit Fits
    happens-AllFit w (enters id process key) all =
        let d : Delivery R = record { process = process; key = key; phase = reading } in
        moved_step w id d (enter redis json c key w.store (w.caches process)) all
          (enter_by-Fits c.mark_policy key w.store (w.caches process))
    happens-AllFit w (reads id) all =
        at_delivery w id (λ d. on_read laws json c w id d d.phase) all
          (λ d. on_read-AllFit w id d d.phase all)
    happens-AllFit w (ends id h) all =
        at_delivery w id (λ d. on_end laws json c w id d h d.phase) all
          (λ d. on_end-AllFit w id d h d.phase all)
    happens-AllFit w (settles id acks) all =
        at_delivery w id (λ d. on_settle laws json c w id d acks d.phase) all
          (λ d. on_settle-AllFit w id d acks d.phase all)
    happens-AllFit w (acknowledges id ok) all =
        at_delivery w id (λ d. on_acknowledge laws json c w id d ok d.phase) all
          (λ d. on_acknowledge-AllFit w id d ok d.phase all)
    happens-AllFit w (crashes process) all =
        λ p. if_cases Fits (process == p) [] (w.caches p) (λ e. omega arith) (λ e. all p)
    happens-AllFit w expires all = all

    all_happen-AllFit :
        (w : System S R) (es : List (Event R)) → AllFit w → AllFit (all_happen laws json c w es)
    unfolding all_happen
    all_happen-AllFit w [] all = all
    all_happen-AllFit w (e ∷ es) all =
        all_happen-AllFit (happens laws json c w e) es (happens-AllFit w e all)

    -- Under every policy and in every run, the local cache of a process has at most `local_cache_size`
    -- keys.
    pub length-caches_le :
        (s : S) (es : List (Event R)) (p : ℕ)
        → length ((all_happen laws json c (begin laws json c s) es).caches p) ≤ c.local_cache_size
    unfolding AllFit Fits begin
    length-caches_le s es p = all_happen-AllFit (begin laws json c s) es (λ q. omega arith) p
