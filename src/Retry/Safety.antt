-- ===== src/Retry/Safety.antt =====
-- Proofs about middleware/retry.py: how the source of a failed delivery is settled.
use rabbitkit.Prelude.{
  ℕ, ◌≡◌, ◌⊎◌, inl, inr, refl, sym, subst, Bool, true, false, Option, none, some, ◌&&◌, ◌||◌,
  if_cases, Bool-cases, arith, if◌then◌else◌,
}
use rabbitkit.Message.{
  RabbitMessage, Settlement, ack, nack, acked, nacked, is_settled, claimed_by, settle_sync,
  settle_async, claim, finish,
}
use rabbitkit.Bulk.{confirmed, sent}
use rabbitkit.Failure.Classify.{Raised, ClassifiedError}
use rabbitkit.Failure.Copy.{Delivery, FailureCategory}
use rabbitkit.Retry.{decide}
use rabbitkit.Retry.Copies.{
  Python, Copy, no_copy, invalid_copy, copy, as_copy, build_retry_envelope, terminal_envelope,
}
use rabbitkit.Retry.Route.{
  Answer, returns, is_ok, outcome_ok, is_interrupted, stopped, interrupted, Ending,
  requeued_for_retry, terminal, settlement_raised, config_error, cancelled, Middleware, Run, World,
  Moment, Mode, blocking, on_loop, settle_open, did_return, settle_then, handoff_failed, hold,
  after_hold, run_hooks, failed_handoff, after_publish, succeeded_handoff, route_to_delay_queue,
  after_dead_letter, give_up, handle_decision, handle_retry,
}

-- The copy that a decision asks for.
abbrev pub intended_copy :
    Python → Raised → Delivery → ClassifiedError → ℕ → Option FailureCategory → Middleware → Copy
intended_copy py exc d classified count none mw =
    as_copy (build_retry_envelope py mw.config mw.sanitizer d count exc classified)
intended_copy py exc d classified count (some category) mw =
    terminal_envelope py mw.config mw.sanitizer mw.has_publish d count exc classified category

-- What a pending message is after an attempt to settle it by `s`: as it was, or settled so.
module _ {W : Type 0} (world : World W) where
  settle_open-disposition :
      (mode : Mode) (s : Settlement) (m : RabbitMessage) (w : W)
      → is_settled m ≡ false
      → let (outcome, m', w') = settle_open world mode s m w in
        (m'.disposition ≡ claimed_by s) ⊎ ((m' ≡ m) × (did_return outcome ≡ false))
  unfolding settle_open settle_sync settle_async claim finish did_return
  settle_open-disposition blocking s m w h = ground arith
  settle_open-disposition on_loop s m w h = ground arith

-- What a publish reported: the broker's confirm, or, of a transport that does not wait for one, that
-- the copy was written to the socket.
abbrev pub reports_confirmed : Answer → Bool
reports_confirmed (returns status) = elim status [ confirmed ↦ true | _ ↦ false ]
reports_confirmed _ = false

abbrev pub reports_sent : Answer → Bool
reports_sent (returns status) = elim status [ sent ↦ true | _ ↦ false ]
reports_sent _ = false

abbrev pub handed_over : Answer → Bool
handed_over a = reports_confirmed a || reports_sent a

outcome_ok-handed_over : (a : Answer) → outcome_ok a ≡ handed_over a
unfolding outcome_ok is_ok
outcome_ok-handed_over a = ground arith

-- How a failure may end for a message that was pending: `accepted` says whether the copy was handed
-- over.
abbrev pub Accounts : Bool → RabbitMessage → Ending → RabbitMessage → Type 0
Accounts accepted m requeued_for_retry m' =
    (m'.disposition ≡ nacked) ⊎ ((m'.disposition ≡ acked) × (accepted ≡ true))
Accounts accepted m (terminal category true failed) m' =
    (m'.disposition ≡ acked) × (accepted ≡ true) × (failed ≡ false)
Accounts accepted m (terminal category false failed) m' = m' ≡ m
Accounts accepted m (settlement_raised outcome) m' =
    (m' ≡ m) ⊎ (m'.disposition ≡ nacked) ⊎ ((m'.disposition ≡ acked) × (accepted ≡ true))
Accounts accepted m config_error m' = m' ≡ m
Accounts accepted m cancelled m' = m'.disposition ≡ nacked
Accounts accepted m interrupted m' = m' ≡ m

module _ {W : Type 0} (world : World W) where
  -- A settlement that is allowed gives what the ending wants, or raised.
  settle_then-Accounts :
      (accepted : Bool) (mode : Mode) (s : Settlement) (m : RabbitMessage) (w : W)
      (old mw : Middleware) (after : Ending)
      → is_settled m ≡ false
      → (claimed_by s ≡ nacked) ⊎ ((claimed_by s ≡ acked) × (accepted ≡ true))
      → ((m' : RabbitMessage) → m'.disposition ≡ claimed_by s → Accounts accepted m after m')
      → let r = settle_then world mode s m w old mw after in Accounts accepted m r.ending r.message
  unfolding settle_then
  settle_then-Accounts accepted mode s m w old mw after h allowed k =
      let (outcome, m', w') = settle_open world mode s m w in
      let open_lem = settle_open-disposition world mode s m w h in
      elim (Bool-cases (did_return outcome)) [
        | inl e ↦
            rw e
              (elim open_lem [ inl same ↦ k m' same | inr (same, failed) ↦ absurd (ground arith) ])
        | inr e ↦
            rw e
              (elim open_lem [ inl same ↦ inr (rw same allowed) | inr (same, failed) ↦ inl same ])
      ]

  handoff_failed-Accounts :
      (accepted : Bool) (mode : Mode) (moment : Moment) (m : RabbitMessage) (w : W)
      (mw : Middleware)
      → is_settled m ≡ false
      → let r = handoff_failed world mode moment m w mw in Accounts accepted m r.ending r.message
  unfolding handoff_failed after_hold claimed_by
  handoff_failed-Accounts accepted blocking moment m w mw h =
      let (mw', backoff) = failed_handoff moment.now moment.rng moment.then_now mw in
      let (outcome, m', w') = settle_open world blocking (nack true) m w in
      let open_lem = settle_open-disposition world blocking (nack true) m w h in
      elim (Bool-cases (did_return outcome)) [
        | inl e ↦
            rw e
              (elim open_lem [ inl same ↦ inl same | inr (same, failed) ↦ absurd (ground arith) ])
        | inr e ↦ rw e (elim open_lem [ inl same ↦ inr (inl same) | inr (same, failed) ↦ inl same ])
      ]
  handoff_failed-Accounts accepted on_loop moment m w mw h =
      let (mw', backoff) = failed_handoff moment.now moment.rng moment.then_now mw in
      let (w', slept) = hold world mw' backoff m (run_hooks world backoff moment mw' w) in
      settle_then-Accounts accepted on_loop (nack true) m w' mw' mw' (after_hold slept) h (inl refl)
        (λ n same. elim (Bool-cases slept) [ inl e ↦ rw e (inl same) | inr e ↦ rw e same ])

  after_publish-Accounts :
      (mode : Mode) (moment : Moment) (m : RabbitMessage) (w : W) (answer : Answer)
      (mw : Middleware)
      → is_settled m ≡ false
      → let r = after_publish world mode moment m (w, answer) mw in
        Accounts (outcome_ok answer) m r.ending r.message
  unfolding after_publish claimed_by
  after_publish-Accounts mode moment m w answer mw h =
      let handed = settle_then world mode ack m w mw (succeeded_handoff mw) requeued_for_retry in
      let failed = handoff_failed world mode moment m w mw in
      if_cases (λ (r : Run W). Accounts (outcome_ok answer) m r.ending r.message)
        (is_interrupted answer) (stopped world m w mw)
        (if outcome_ok answer then handed else failed) (λ i. refl)
        (λ i. elim (Bool-cases (outcome_ok answer)) [
          | inl e ↦ rw e (
              settle_then-Accounts true mode ack m w mw (succeeded_handoff mw) requeued_for_retry h
                (inr (refl, refl)) (λ m' same. inr (same, refl)))
          | inr e ↦ rw e (handoff_failed-Accounts false mode moment m w mw h)
        ])

  -- Whether the broker accepts the copy that a decision asks for.
  abbrev pub accepts : Middleware → Copy → W → Bool
  accepts mw (copy e) w = mw.has_publish && handed_over (world.publish e w).1
  accepts mw no_copy w = false
  accepts mw invalid_copy w = false

  if-Accounts :
      (wired accepted : Bool) (m : RabbitMessage) (x y : Run W)
      → Accounts accepted m x.ending x.message
      → Accounts false m y.ending y.message
      → let r = if wired then x else y in Accounts (wired && accepted) m r.ending r.message
  if-Accounts true accepted m x y hx hy = hx
  if-Accounts false accepted m x y hx hy = hy

  route-Accounts :
      (mode : Mode) (moment : Moment) (c : Copy) (m : RabbitMessage) (w : W) (mw : Middleware)
      → is_settled m ≡ false
      → let r = route_to_delay_queue world mode moment c m w mw in
        Accounts (accepts mw c w) m r.ending r.message
  unfolding route_to_delay_queue claimed_by
  route-Accounts mode moment no_copy m w mw h = refl
  route-Accounts mode moment invalid_copy m w mw h = refl
  route-Accounts mode moment (copy e) m w mw h =
      let (w', answer) = world.publish e w in
      if-Accounts mw.has_publish (handed_over answer) m
        (after_publish world mode moment m (w', answer) mw)
        (settle_then world mode (nack true) m w mw mw requeued_for_retry)
        (subst
          (λ b.
            Accounts b m (after_publish world mode moment m (w', answer) mw).ending
              (after_publish world mode moment m (w', answer) mw).message)
          (outcome_ok-handed_over answer) (after_publish-Accounts mode moment m w' answer mw h))
        (settle_then-Accounts false mode (nack true) m w mw mw requeued_for_retry h (inl refl)
          (λ m' same. inl same))

  after_dead_letter-Accounts :
      (mode : Mode) (category : FailureCategory) (m : RabbitMessage) (w : W) (answer : Answer)
      (mw : Middleware)
      → is_settled m ≡ false
      → let r = after_dead_letter world mode category m (w, answer) mw in
        Accounts (outcome_ok answer) m r.ending r.message
  unfolding after_dead_letter claimed_by
  after_dead_letter-Accounts mode category m w answer mw h =
      let done = settle_then world mode ack m w mw mw (terminal category true false) in
      let kept : Run W = record {
        middleware = mw;
        message = m;
        world = w;
        ending = terminal category false true;
      } in
      if_cases (λ (r : Run W). Accounts (outcome_ok answer) m r.ending r.message)
        (is_interrupted answer) (stopped world m w mw) (if outcome_ok answer then done else kept)
        (λ i. refl)
        (λ i. elim (Bool-cases (outcome_ok answer)) [
          | inl e ↦ rw e (
              settle_then-Accounts true mode ack m w mw mw (terminal category true false) h
                (inr (refl, refl)) (λ m' same. (same, refl, refl)))
          | inr e ↦ rw e refl
        ])

  give_up-Accounts :
      (mode : Mode) (category : FailureCategory) (c : Copy) (m : RabbitMessage) (w : W)
      (mw : Middleware)
      → is_settled m ≡ false
      → (mw.has_publish ≡ false → c ≡ no_copy)
      → let r = give_up world mode category c m w mw in
        Accounts (accepts mw c w) m r.ending r.message
  unfolding give_up
  give_up-Accounts mode category no_copy m w mw h k = refl
  give_up-Accounts mode category invalid_copy m w mw h k = refl
  give_up-Accounts mode category (copy e) m w mw h k =
      let (w', answer) = world.publish e w in
      let r = after_dead_letter world mode category m (w', answer) mw in
      let known = after_dead_letter-Accounts mode category m w' answer mw h in
      elim (Bool-cases mw.has_publish) [
        | inr unwired ↦ absurd (ground (arith, k unwired))
        | inl wired ↦
            subst (λ b. Accounts (b && handed_over answer) m r.ending r.message) (sym wired)
              (subst (λ b. Accounts b m r.ending r.message) (outcome_ok-handed_over answer) known)
      ]

  terminal_envelope-unwired :
      (py : Python) (exc : Raised) (d : Delivery) (classified : ClassifiedError) (count : ℕ)
      (category : FailureCategory) (mw : Middleware)
      → mw.has_publish ≡ false
      → terminal_envelope py mw.config mw.sanitizer mw.has_publish d count exc classified category
        ≡ no_copy
  unfolding terminal_envelope
  terminal_envelope-unwired py exc d classified count category mw h = ground arith

  handle_decision-Accounts :
      (mode : Mode) (py : Python) (moment : Moment) (exc : Raised) (d : Delivery)
      (classified : ClassifiedError) (count : ℕ) (category : Option FailureCategory) (w : W)
      (mw : Middleware)
      → is_settled d.message ≡ false
      → let r = handle_decision world mode py moment exc d classified count category w mw in
        let c = intended_copy py exc d classified count category mw in
        Accounts (accepts mw c w) d.message r.ending r.message
  unfolding handle_decision
  handle_decision-Accounts mode py moment exc d classified count none w mw h =
      route-Accounts mode moment (intended_copy py exc d classified count none mw) d.message w mw h
  handle_decision-Accounts mode py moment exc d classified count (some category) w mw h =
      give_up-Accounts mode category (intended_copy py exc d classified count (some category) mw)
        d.message w mw h (terminal_envelope-unwired py exc d classified count category mw)

  -- The copy that the middleware asks for when a delivery failed.
  abbrev pub copy_of : Python → Raised → Delivery → Middleware → Copy
  copy_of py exc d mw =
      let decision = decide py.fromisoformat mw.config mw.predicates exc d.headers py.now in
      intended_copy py exc d decision.classified decision.retry_count decision.terminal mw

  -- A failure of a delivery that is not settled, on a thread or on the event loop, whatever the
  -- transport and the broker do: the source is acked only where the publish of the retry copy or the
  -- dead-letter copy reported CONFIRMED or SENT, which a transport reports that does not wait for
  -- confirms; a call that returns has acked it so or has nacked it; a terminal failure that is marked
  -- as dead-lettered has acked it so, any other leaves the message as it was, and so do a publish
  -- that is cancelled and an envelope that cannot be built; and after a backoff that is cancelled
  -- it is nacked.
  pub handle_retry-Accounts :
      (mode : Mode) (py : Python) (moment : Moment) (exc : Raised) (d : Delivery) (w : W)
      (mw : Middleware)
      → is_settled d.message ≡ false
      → let r = handle_retry world mode py moment exc d w mw in
        Accounts (accepts mw (copy_of py exc d mw) w) d.message r.ending r.message
  unfolding handle_retry
  handle_retry-Accounts mode py moment exc d w mw h =
      let decision = decide py.fromisoformat mw.config mw.predicates exc d.headers py.now in
      handle_decision-Accounts mode py moment exc d decision.classified decision.retry_count
        decision.terminal w mw h
