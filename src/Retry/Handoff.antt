-- ===== src/Retry/Handoff.antt =====
-- core/retry_handoff.py, RetryHandoffTracker. Times are in ticks of a clock; `jitter` and the random
-- number are in `parts` of one, and a backoff is in parts of parts of a tick, so that nothing is
-- rounded.
use rabbitkit.Prelude.{
  ℕ, ◌+◌, ◌-◌, ◌*◌, ◌^◌, min, Bool, false, Option, none, some, if◌then◌else◌, leb, ltb, ◌==◌,
}

pub record RetryHandoffConfig : Type 0 where
  pub backoff_initial : ℕ
  pub backoff_max : ℕ
  pub jitter : ℕ
  pub parts : ℕ
  pub max_consecutive_failures : ℕ
  pub recovery_deadline : ℕ

pub record RetryHandoffTracker : Type 0 where
  pub config : RetryHandoffConfig
  pub consecutive : ℕ
  pub total : ℕ
  pub first_failure_at : Option ℕ
  pub last_failure_at : Option ℕ
  pub last_backoff : ℕ

pub data HandoffState : Type 0 where
  healthy degraded exhausted : HandoffState

abbrev pub max_exponent : ℕ
max_exponent = 1000

unfoldable pub capped_exponential : ℕ → ℕ → ℕ → ℕ
capped_exponential initial maximum failures =
    if leb failures 1
    then min maximum initial
    else min maximum (initial * 2 ^ min (failures - 1) max_exponent)

unfoldable pub new_tracker : RetryHandoffConfig → RetryHandoffTracker
new_tracker c = record {
  config = c;
  consecutive = 0;
  total = 0;
  first_failure_at = none;
  last_failure_at = none;
  last_backoff = 0;
}

unfoldable pub deadline_passed : RetryHandoffTracker → ℕ → Bool
deadline_passed t now = elim t.first_failure_at [
  | none ↦ false
  | some first ↦ leb t.config.recovery_deadline (now - first)
]

unfoldable pub state_at : RetryHandoffTracker → ℕ → HandoffState
unfolding deadline_passed
state_at t now =
    if t.consecutive == 0
    then healthy
    else if leb t.config.max_consecutive_failures t.consecutive
    then exhausted
    else if deadline_passed t now
    then exhausted
    else degraded

-- The backoff for a base, with `rng` parts for the random number.
unfoldable pub jittered : RetryHandoffConfig → ℕ → ℕ → ℕ
jittered c base rng =
    let whole = base * c.parts * c.parts in
    let spread = base * c.jitter * c.parts in
    if ltb 0 c.jitter then whole - spread + 2 * (base * c.jitter * rng) else whole

unfoldable pub first_at : Option ℕ → ℕ → Option ℕ
first_at none now = some now
first_at (some first) now = some first

-- The backoff that it returns is `last_backoff` of the result.
unfoldable pub record_failure : ℕ → ℕ → RetryHandoffTracker → RetryHandoffTracker
unfolding capped_exponential jittered first_at
record_failure now rng t =
    let base =
      capped_exponential t.config.backoff_initial t.config.backoff_max (t.consecutive + 1) in
    record t {
      consecutive = t.consecutive + 1;
      total = t.total + 1;
      first_failure_at = first_at t.first_failure_at now;
      last_failure_at = some now;
      last_backoff =
          min (t.config.backoff_max * t.config.parts * t.config.parts) (jittered t.config base rng);
    }

unfoldable pub record_success : RetryHandoffTracker → RetryHandoffTracker
record_success t = record t {
  consecutive = 0;
  first_failure_at = none;
  last_failure_at = none;
  last_backoff = 0;
}

unfoldable pub reset : RetryHandoffTracker → RetryHandoffTracker
reset t = record t {
  consecutive = 0;
  total = 0;
  first_failure_at = none;
  last_failure_at = none;
  last_backoff = 0;
}
