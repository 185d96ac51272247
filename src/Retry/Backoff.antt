-- ===== src/Retry/Backoff.antt =====
-- The backoff of a failed handoff, and the state that a run of handoffs leaves.
use native.Mathlib.Nat.{pow-le-pow_right, mul-le-mul_left, mul-le-mul_right}
use rabbitkit.Prelude.{
  ℕ, zero, suc, ◌+◌, ◌-◌, ◌*◌, ◌^◌, ◌≤◌, min, ◌≡◌, refl, inl, inr, ◌||◌, ap, ◌∙◌, Option, none,
  some, Bool-cases, List, [], ◌∷◌, arith, if◌then◌else◌, leb,
}
use rabbitkit.Retry.Handoff.{
  RetryHandoffConfig, RetryHandoffTracker, HandoffState, healthy, degraded, exhausted, max_exponent,
  capped_exponential, new_tracker, deadline_passed, state_at, jittered, first_at, record_failure,
  record_success, reset,
}

-- The exponent that is capped gives the same minimum as the one that is not.
capped_exponential-exact :
    (initial maximum n : ℕ)
    → maximum ≤ initial * 2 ^ max_exponent
    → capped_exponential initial maximum (n + 1) ≡ min maximum (initial * 2 ^ n)
unfolding capped_exponential
capped_exponential-exact initial maximum zero h = ground arith
capped_exponential-exact initial maximum (suc n) h =
    let grows : max_exponent ≤ suc n → initial * 2 ^ max_exponent ≤ initial * 2 ^ suc n =
      λ large. mul-le-mul_left initial (pow-le-pow_right (omega arith) large) in
    elim (Bool-cases (leb (suc n) max_exponent)) [
      | inl small ↦
          let same : min (suc n + 1 - 1) max_exponent ≡ suc n = ground (arith, small) in
          rw (capped_exponential, same) (ground arith)
      | inr large ↦
          let same : min (suc n + 1 - 1) max_exponent ≡ max_exponent = ground (arith, large) in
          rw (capped_exponential, same) (ground (arith, grows (ground (arith, large))))
    ]

jittered-window :
    (c : RetryHandoffConfig) (base rng : ℕ)
    → c.jitter ≤ c.parts
    → rng ≤ c.parts
    → (base * c.parts * c.parts ≤ jittered c base rng + base * c.jitter * c.parts)
      × (jittered c base rng ≤ base * c.parts * c.parts + base * c.jitter * c.parts)
unfolding jittered
jittered-window c base rng small h =
    let scaled : base * c.jitter * rng ≤ base * c.jitter * c.parts =
      mul-le-mul_left (base * c.jitter) h in
    let spread : base * c.jitter * c.parts ≤ base * c.parts * c.parts =
      mul-le-mul_right c.parts (mul-le-mul_left base small) in
    ground (arith, scaled, spread)

-- A handoff that failed, at a time and with a random number, one that was accepted, and a reset.
pub data Event : Type 0 where
  fails : (now rng : ℕ) → Event
  succeeds resets : Event

pub happens : RetryHandoffTracker → Event → RetryHandoffTracker
happens t (fails now rng) = record_failure now rng t
happens t succeeds = record_success t
happens t resets = reset t

pub all_happen : RetryHandoffTracker → List Event → RetryHandoffTracker
unfolding happens
all_happen t [] = t
all_happen t (e ∷ es) = all_happen (happens t e) es

-- The failures since the last handoff that was accepted, with the time of the first: after `n` of
-- them from `first` on, and then `es`.
abbrev pub streak : ℕ → Option ℕ → List Event → ℕ × Option ℕ
streak n first [] = (n, first)
streak n first (fails now rng ∷ es) = streak (n + 1) (first_at first now) es
streak n first (succeeds ∷ es) = streak 0 none es
streak n first (resets ∷ es) = streak 0 none es

-- The state that a streak calls for.
abbrev pub streak_state : RetryHandoffConfig → ℕ × Option ℕ → ℕ → HandoffState
streak_state c (zero, first) now = healthy
streak_state c (suc n, none) now =
    if leb c.max_consecutive_failures (suc n) then exhausted else degraded
streak_state c (suc n, some first) now =
    if leb c.max_consecutive_failures (suc n) || leb c.recovery_deadline (now - first)
    then exhausted
    else degraded

IsTracked : RetryHandoffConfig → RetryHandoffTracker → Type 0
IsTracked c t = (t.config ≡ c) × (t.last_backoff ≤ c.backoff_max * c.parts * c.parts)

happens-IsTracked :
    (c : RetryHandoffConfig) (t : RetryHandoffTracker) (e : Event)
    → IsTracked c t
    → IsTracked c (happens t e)
unfolding IsTracked happens record_failure record_success reset
happens-IsTracked c t (fails now rng) (same, h) = (same, rw same (ground arith))
happens-IsTracked c t succeeds (same, h) = (same, omega arith)
happens-IsTracked c t resets (same, h) = (same, omega arith)

state_at-streak :
    (t : RetryHandoffTracker) (now : ℕ)
    → state_at t now ≡ streak_state t.config (t.consecutive, t.first_failure_at) now
unfolding state_at deadline_passed
state_at-streak t now = ground arith

all_happen-IsTracked :
    (c : RetryHandoffConfig) (t : RetryHandoffTracker) (es : List Event)
    → IsTracked c t
    → let t' = all_happen t es in
      IsTracked c t'
      × ((t'.consecutive, t'.first_failure_at) ≡ streak t.consecutive t.first_failure_at es)
unfolding all_happen happens record_failure record_success reset
all_happen-IsTracked c t [] h = (h, refl)
all_happen-IsTracked c t (fails now rng ∷ es) h =
    all_happen-IsTracked c (record_failure now rng t) es (happens-IsTracked c t (fails now rng) h)
all_happen-IsTracked c t (succeeds ∷ es) h =
    all_happen-IsTracked c (record_success t) es (happens-IsTracked c t succeeds h)
all_happen-IsTracked c t (resets ∷ es) h =
    all_happen-IsTracked c (reset t) es (happens-IsTracked c t resets h)

-- After any run of handoffs the tracker's state is the one that the failures since the last accepted
-- handoff call for, by their number and by the time since the first of them; and its backoff is at
-- most the maximum.
pub state_at-all_happen :
    (c : RetryHandoffConfig) (es : List Event) (now : ℕ)
    → let t = all_happen (new_tracker c) es in
      (state_at t now ≡ streak_state c (streak 0 none es) now)
      × (t.last_backoff ≤ c.backoff_max * c.parts * c.parts)
unfolding new_tracker IsTracked
state_at-all_happen c es now =
    let t = all_happen (new_tracker c) es in
    let ((same, bounded), counted) =
      all_happen-IsTracked c (new_tracker c) es (refl, omega arith) in
    (
      state_at-streak t now
          ∙ ap (λ d. streak_state d (t.consecutive, t.first_failure_at) now) same
          ∙ ap (λ s. streak_state c s now) counted,
      bounded,
    )

-- The backoff after one more failure of a streak is within the jitter of the initial backoff, doubled
-- for each failure before in the streak and capped at the maximum, and it is at most the maximum:
-- where the jitter and the random number are at most one, and doubling a thousand times passes the
-- maximum.
pub record_failure-window :
    (t : RetryHandoffTracker) (now rng : ℕ)
    → rng ≤ t.config.parts
    → t.config.jitter ≤ t.config.parts
    → t.config.backoff_max ≤ t.config.backoff_initial * 2 ^ 1000
    → let c = t.config in
      let base = min c.backoff_max (c.backoff_initial * 2 ^ t.consecutive) in
      let backoff = (record_failure now rng t).last_backoff in
      (base * c.parts * c.parts ≤ backoff + base * c.jitter * c.parts)
      × (backoff ≤ base * c.parts * c.parts + base * c.jitter * c.parts)
      × (backoff ≤ c.backoff_max * c.parts * c.parts)
unfolding record_failure
record_failure-window t now rng random small far =
    let c = t.config in
    let base = min c.backoff_max (c.backoff_initial * 2 ^ t.consecutive) in
    let capped : base * c.parts * c.parts ≤ c.backoff_max * c.parts * c.parts =
      mul-le-mul_right c.parts (mul-le-mul_right c.parts (omega arith)) in
    rw (capped_exponential-exact c.backoff_initial c.backoff_max t.consecutive far)
      (ground (arith, jittered-window c base rng small random, capped))
