-- ===== src/Backpressure.antt =====
-- highload/backpressure.py: the token bucket and FlowController. One `acquire` is a state machine
-- whose steps are the critical sections and the waits. Times are in ticks of a clock.
pub mod Bounds
pub mod Rate
mod Examples
use rabbitkit.Prelude.{
  ℕ, suc, ◌+◌, ◌-◌, ◌*◌, min, Bool, true, false, Option, none, some, if◌then◌else◌, ltb, leb,
}

-- `tokens` counts parts of a token, of which one token has `ticks`, as many as a second has ticks: in
-- one tick the bucket gains `rate` of them. (The code counts whole tokens in floating point.)
pub record TokenBucket : Type 0 where
  pub rate : ℕ
  pub ticks : ℕ
  pub tokens : ℕ
  pub last_refill : ℕ

unfoldable pub new_bucket : ℕ → ℕ → ℕ → TokenBucket
new_bucket rate ticks now = record {
  rate = rate;
  ticks = ticks;
  tokens = rate * ticks;
  last_refill = now;
}

unfoldable pub refill : TokenBucket → ℕ → TokenBucket
refill b now = record b {
  tokens = min (b.rate * b.ticks) (b.tokens + (now - b.last_refill) * b.rate);
  last_refill = now;
}

unfoldable pub take_token : TokenBucket → TokenBucket × Bool
take_token b =
    if leb b.ticks b.tokens then (record b { tokens = b.tokens - b.ticks }, true) else (b, false)

unfoldable pub acquire_token : TokenBucket → ℕ → TokenBucket × Bool
unfolding refill take_token
acquire_token b now = take_token (refill b now)

pub record FlowController : Type 0 where
  pub max_in_flight : ℕ
  pub in_flight : ℕ
  pub blocked : Bool
  -- The events, and the optional limiter.
  pub slot_event : Bool
  pub unblock_event : Bool
  pub rate_limiter : Option TokenBucket

unfoldable pub new_controller : ℕ → Option TokenBucket → FlowController
new_controller max_in_flight rate_limiter = record {
  max_in_flight = max_in_flight;
  in_flight = 0;
  blocked = false;
  slot_event = true;
  unblock_event = true;
  rate_limiter = rate_limiter;
}

unfoldable pub on_blocked : FlowController → FlowController
on_blocked f = record f { blocked = true; unblock_event = false }

unfoldable pub on_unblocked : FlowController → FlowController
on_unblocked f = record f { blocked = false; unblock_event = true }

unfoldable pub release_slot : FlowController → FlowController
release_slot f = record f { in_flight = f.in_flight - 1; slot_event = true }

-- One slot more; the last one clears the event.
unfoldable pub take_slot : FlowController → FlowController
take_slot f = record f {
  in_flight = f.in_flight + 1;
  slot_event = if leb f.max_in_flight (f.in_flight + 1) then false else f.slot_event;
}

pub data Policy : Type 0 where
  waits raises drops : Policy

-- Where an `acquire` stands: at its first line, before its critical section, under one of the three
-- pressures, with a token and no slot, after losing the slot to another, or at an end.
pub data Phase : Type 0 where
  entering checking block_pressed rate_pressed slot_pressed has_token slot_lost : Phase
  acquired dropped raised : Phase

unfoldable pub enter : FlowController → Phase
enter f = if f.blocked then block_pressed else checking

-- The first critical section.
unfoldable pub check_rate : FlowController → Option TokenBucket → ℕ → FlowController × Phase
unfolding take_slot
check_rate f none now = (take_slot f, acquired)
check_rate f (some b) now =
    let (b', taken) = acquire_token b now in
    if taken
    then (take_slot (record f { rate_limiter = some b' }), acquired)
    else (record f { rate_limiter = some b' }, rate_pressed)

unfoldable pub check : FlowController → ℕ → FlowController × Phase
unfolding check_rate
check f now =
    if ltb f.in_flight f.max_in_flight
    then check_rate f f.rate_limiter now
    else (record f { slot_event = false }, slot_pressed)

-- A wait on an event: it is set, or the deadline has passed, or it goes on.
unfoldable pub wait_event : Bool → Bool → Phase → Phase
wait_event set expired here = if set then checking else if expired then dropped else here

unfoldable pub handle : Policy → Phase → Phase
handle waits after = after
handle raises after = raised
handle drops after = dropped

-- The wait for a token, which tries the bucket and then the deadline.
unfoldable pub wait_token : FlowController → Option TokenBucket → Bool → ℕ → FlowController × Phase
wait_token f none expired now = (f, dropped)
wait_token f (some b) expired now =
    let (b', taken) = acquire_token b now in
    (
      record f { rate_limiter = some b' },
      if taken then has_token else if expired then dropped else rate_pressed,
    )

unfoldable pub handle_rate : FlowController → Policy → Bool → ℕ → FlowController × Phase
unfolding wait_token
handle_rate f waits expired now = wait_token f f.rate_limiter expired now
handle_rate f raises expired now = (f, raised)
handle_rate f drops expired now = (f, dropped)

-- The second critical section: a token is held.
unfoldable pub claim_slot : FlowController → FlowController × Phase
unfolding take_slot
claim_slot f = if ltb f.in_flight f.max_in_flight then (take_slot f, acquired) else (f, slot_lost)

-- One step of `acquire`; `expired` says that its deadline has passed.
unfoldable pub acquire_step : Policy → Bool → ℕ → FlowController → Phase → FlowController × Phase
unfolding enter check wait_event handle handle_rate claim_slot
acquire_step policy expired now f entering = (f, enter f)
acquire_step policy expired now f checking = check f now
acquire_step policy expired now f block_pressed =
    (f, handle policy (wait_event f.unblock_event expired block_pressed))
acquire_step policy expired now f rate_pressed = handle_rate f policy expired now
acquire_step policy expired now f slot_pressed =
    (f, handle policy (wait_event f.slot_event expired slot_pressed))
acquire_step policy expired now f has_token = claim_slot f
acquire_step policy expired now f slot_lost = (f, wait_event f.slot_event expired slot_lost)
acquire_step policy expired now f acquired = (f, acquired)
acquire_step policy expired now f dropped = (f, dropped)
acquire_step policy expired now f raised = (f, raised)
