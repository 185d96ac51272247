-- ===== src/Retry/Route.antt =====
-- middleware/retry.py, RetryMiddleware: what becomes of a delivery whose handler failed. The world
-- holds the broker and the application; publishing, the settlement functions, the sleep and the hooks
-- are functions on it.
use rabbitkit.Prelude.{
  ℕ, ◌*◌, Bool, true, false, not, ◌&&◌, Option, none, some, List, if◌then◌else◌, ltb,
}
use rabbitkit.Message
use rabbitkit.Message.{RabbitMessage, Settlement, ack, nack, is_settled, settle_sync, settle_async}
use rabbitkit.Bulk.{PublishStatus, confirmed, sent}
use rabbitkit.Failure.Classify.{Raised, Opinion, ClassifiedError}
use rabbitkit.Failure.Sanitizer.{ErrorSanitizer}
use rabbitkit.Failure.Copy.{Delivery, MessageEnvelope, FailureCategory}
use rabbitkit.Retry.{RetryConfig, decide}
use rabbitkit.Retry.Handoff.{
  RetryHandoffTracker, HandoffState, healthy, exhausted, state_at, record_failure, record_success,
}
use rabbitkit.Retry.Copies.{
  Python, Copy, no_copy, invalid_copy, copy, as_copy, build_retry_envelope, terminal_envelope,
}

-- The answer of a publish function: it raised an Exception, it was interrupted (by a CancelledError of
-- the event loop, or another exception that is no Exception), it returned nothing, or an outcome.
pub data Answer : Type 0 where
  raises interrupts returns_none : Answer
  returns : PublishStatus → Answer

-- PublishOutcome.ok
unfoldable pub is_ok : PublishStatus → Bool
is_ok confirmed = true
is_ok sent = true
is_ok _ = false

-- `_safe_publish` and `_outcome_ok`, of what comes through
unfoldable pub outcome_ok : Answer → Bool
unfolding is_ok
outcome_ok (returns status) = is_ok status
outcome_ok _ = false

-- `except Exception` of `_safe_publish` does not catch it.
unfoldable pub is_interrupted : Answer → Bool
is_interrupted interrupts = true
is_interrupted _ = false

-- How `consume_scope` ends for a caught exception: it returns REQUEUED_FOR_RETRY, it raises the
-- exception as a terminal one, with its two marks, or another error comes through.
pub data Ending : Type 0 where
  requeued_for_retry : Ending
  terminal : (category : FailureCategory) (dead_lettered dead_letter_failed : Bool) → Ending
  settlement_raised : Message.Outcome → Ending
  config_error cancelled interrupted : Ending

pub record Middleware : Type 0 where
  pub config : RetryConfig
  pub sanitizer : ErrorSanitizer
  pub predicates : List (Raised → Opinion)
  pub has_publish : Bool
  pub sleeps : Bool
  pub tracker : RetryHandoffTracker
  pub exhausted_logged : Bool

unfoldable pub is_exhausted : HandoffState → Bool
is_exhausted exhausted = true
is_exhausted _ = false

unfoldable pub is_healthy : HandoffState → Bool
is_healthy healthy = true
is_healthy _ = false

-- `_record_handoff_failure` before its hooks, with the backoff. The clock is read once more.
unfoldable pub failed_handoff : ℕ → ℕ → ℕ → Middleware → Middleware × ℕ
unfolding record_failure state_at is_exhausted
failed_handoff now rng then_now mw =
    let t = record_failure now rng mw.tracker in
    let held = t.config.backoff_max * t.config.parts * t.config.parts in
    let worn = is_exhausted (state_at t then_now) in
    (
      record mw { tracker = t; exhausted_logged = if worn then true else mw.exhausted_logged },
      if worn then held else t.last_backoff,
    )

-- `_record_handoff_success`
unfoldable pub succeeded_handoff : Middleware → Middleware
unfolding record_success
succeeded_handoff mw = record mw { tracker = record_success mw.tracker; exhausted_logged = false }

-- What the middleware, the delivery's message and the world are after a call, and how it ended.
pub record Run (W : Type 0) : Type 0 where
  pub middleware : Middleware
  pub message : RabbitMessage
  pub world : W
  pub ending : Ending

-- The world's functions. The hooks cannot fail the caller: what they raise is logged.
pub record World (W : Type 0) : Type 0 where
  pub publish : MessageEnvelope → W → W × Answer
  pub settle : Settlement → W → W × Bool
  pub sleep : ℕ → W → W × Bool
  pub on_handoff_failure : ℕ → W → W
  pub on_handoff_exhausted : W → W

-- The readings of the clock and the random number of one failure.
pub record Moment : Type 0 where
  pub now : ℕ
  pub rng : ℕ
  pub then_now : ℕ

-- Whether the handler runs on the event loop.
pub data Mode : Type 0 where
  blocking on_loop : Mode

unfoldable pub did_return : Message.Outcome → Bool
did_return Message.returned = true
did_return _ = false

unfoldable pub after_hold : Bool → Ending
after_hold slept = if slept then requeued_for_retry else cancelled

module _ {W : Type 0} (world : World W) where
  -- `if not message.is_settled:` and the call
  unfoldable pub settle_open :
      Mode → Settlement → RabbitMessage → W → Message.Outcome × RabbitMessage × W
  unfolding is_settled settle_sync settle_async
  settle_open blocking s m w =
      if is_settled m then (Message.returned, m, w) else settle_sync world.settle m s w
  settle_open on_loop s m w =
      if is_settled m then (Message.returned, m, w) else settle_async world.settle m s w

  -- A settlement, then the ending `after` and the middleware `mw`, unless the call raises.
  unfoldable pub settle_then :
      Mode → Settlement → RabbitMessage → W → Middleware → Middleware → Ending → Run W
  unfolding settle_open did_return
  settle_then mode s m w old mw after =
      let (outcome, m', w') = settle_open mode s m w in
      if did_return outcome
      then record { middleware = mw; message = m'; world = w'; ending = after }
      else record { middleware = old; message = m'; world = w'; ending = settlement_raised outcome }

  -- The hooks of a failed handoff.
  unfoldable pub run_hooks : ℕ → Moment → Middleware → W → W
  unfolding state_at is_exhausted
  run_hooks backoff moment mw w =
      let heard = world.on_handoff_failure backoff w in
      if is_exhausted (state_at mw.tracker moment.then_now)
      then world.on_handoff_exhausted heard
      else heard

  unfoldable pub hold : Middleware → ℕ → RabbitMessage → W → W × Bool
  unfolding is_settled
  hold mw backoff m w =
      if mw.sleeps && ltb 0 backoff && not (is_settled m) then world.sleep backoff w else (w, true)

  -- The publish to the delay queue failed: requeue, after the hold where the handler runs on the loop.
  unfoldable pub handoff_failed : Mode → Moment → RabbitMessage → W → Middleware → Run W
  unfolding settle_open failed_handoff run_hooks hold after_hold settle_then did_return
  handoff_failed blocking moment m w mw =
      let (outcome, m', w') = settle_open blocking (nack true) m w in
      let (mw', backoff) = failed_handoff moment.now moment.rng moment.then_now mw in
      if did_return outcome
      then record {
        middleware = mw';
        message = m';
        world = run_hooks backoff moment mw' w';
        ending = requeued_for_retry;
      }
      else record { middleware = mw; message = m'; world = w'; ending = settlement_raised outcome }
  handoff_failed on_loop moment m w mw =
      let (mw', backoff) = failed_handoff moment.now moment.rng moment.then_now mw in
      let (w', slept) = hold mw' backoff m (run_hooks backoff moment mw' w) in
      settle_then on_loop (nack true) m w' mw' mw' (after_hold slept)

  -- An interrupted publish: the delivery is left as it was.
  abbrev pub stopped : RabbitMessage → W → Middleware → Run W
  stopped m w mw = record { middleware = mw; message = m; world = w; ending = interrupted }

  -- What follows the publish to the delay queue.
  unfoldable pub after_publish : Mode → Moment → RabbitMessage → W × Answer → Middleware → Run W
  unfolding is_interrupted outcome_ok settle_then succeeded_handoff handoff_failed
  after_publish mode moment m (w, answer) mw =
      let handed_off = settle_then mode ack m w mw (succeeded_handoff mw) requeued_for_retry in
      if is_interrupted answer
      then stopped m w mw
      else if outcome_ok answer
      then handed_off
      else handoff_failed mode moment m w mw

  -- `_route_to_delay_queue`
  unfoldable pub route_to_delay_queue :
      Mode → Moment → Copy → RabbitMessage → W → Middleware → Run W
  unfolding after_publish settle_then
  route_to_delay_queue mode moment (copy e) m w mw =
      let published = after_publish mode moment m (world.publish e w) mw in
      let kept = settle_then mode (nack true) m w mw mw requeued_for_retry in
      if mw.has_publish then published else kept
  route_to_delay_queue mode moment _ m w mw = record {
    middleware = mw;
    message = m;
    world = w;
    ending = config_error;
  }

  -- What follows the publish to the dead-letter queue.
  unfoldable pub after_dead_letter :
      Mode → FailureCategory → RabbitMessage → W × Answer → Middleware → Run W
  unfolding is_interrupted outcome_ok settle_then
  after_dead_letter mode category m (w, answer) mw =
      if is_interrupted answer
      then stopped m w mw
      else if outcome_ok answer
      then settle_then mode ack m w mw mw (terminal category true false)
      else record { middleware = mw; message = m; world = w; ending = terminal category false true }

  -- `_terminal_sync`, `_terminal_async` and `_mark_terminal_and_raise`
  unfoldable pub give_up : Mode → FailureCategory → Copy → RabbitMessage → W → Middleware → Run W
  unfolding after_dead_letter
  give_up mode category (copy e) m w mw = after_dead_letter mode category m (world.publish e w) mw
  give_up mode category no_copy m w mw = record {
    middleware = mw;
    message = m;
    world = w;
    ending = terminal category false false;
  }
  give_up mode category invalid_copy m w mw = record {
    middleware = mw;
    message = m;
    world = w;
    ending = config_error;
  }

  -- `_handle_retry_sync` and `_handle_retry_async` for a decision
  unfoldable pub handle_decision :
      Mode
      → Python
      → Moment
      → Raised
      → Delivery
      → ClassifiedError
      → ℕ
      → Option FailureCategory
      → W
      → Middleware
      → Run W
  unfolding route_to_delay_queue give_up build_retry_envelope terminal_envelope as_copy
  handle_decision mode py moment exc d classified count none w mw =
      let e = build_retry_envelope py mw.config mw.sanitizer d count exc classified in
      route_to_delay_queue mode moment (as_copy e) d.message w mw
  handle_decision mode py moment exc d classified count (some category) w mw =
      let c =
        terminal_envelope py mw.config mw.sanitizer mw.has_publish d count exc classified
          category in
      give_up mode category c d.message w mw

  unfoldable pub handle_retry : Mode → Python → Moment → Raised → Delivery → W → Middleware → Run W
  unfolding handle_decision decide
  handle_retry mode py moment exc d w mw =
      let decision = decide py.fromisoformat mw.config mw.predicates exc d.headers py.now in
      handle_decision mode py moment exc d decision.classified decision.retry_count
        decision.terminal w mw
