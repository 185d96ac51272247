-- ===== src/Bulk/Outcomes.antt =====
-- core/bulk.py, the two classifications: bounded reasons, and no success or safe repetition that
-- the transport did not report.
use rabbitkit.Prelude.{
  ◌≡◌, refl, Bool, true, false, Option, none, some, List, [], ◌∷◌, ◌++◌, arith, if_cases,
  if◌then◌else◌, Text, codes, same_text, is_empty,
}
use rabbitkit.Bulk.{
  PublishStatus, confirmed, sent, nacked, timeout, returned, errored, not_sent, unknown, invalid,
  bulk_not_sent, bulk_unknown, unroutable, Fault, PublishOutcome, member, publish_reasons,
  own_reasons, all_reasons, Verdict, verdict, asked, equals, own_reason, or_code, not_sent_reason,
  by_fault, classify_error_status, classify_status, ok, classify_publish_outcome, safe_to_resubmit,
}

-- What the transport reported: a broker's confirm; that the message may not have left.
abbrev pub reports_confirm : Option PublishOutcome → Bool
reports_confirm none = false
reports_confirm (some o) = elim o.status [ confirmed ↦ true | _ ↦ false ]

abbrev pub reports_unsent : Option PublishOutcome → Bool
reports_unsent none = false
reports_unsent (some o) = elim o.status [ not_sent ↦ true | errored ↦ true | _ ↦ false ]

member-append : (t : Text) (us ws : List Text) → member t ws ≡ true → member t (us ++ ws) ≡ true
member-append t [] ws h = h
member-append t (u ∷ us) ws h = ground (arith, member-append t us ws h)

abbrev Bounded : Text → Type 0
Bounded t = member t all_reasons ≡ true

abbrev BoundedOwn : Option Text → Type 0
BoundedOwn none = Unit
BoundedOwn (some r) = Bounded r

publish_reasons-Bounded : (t : Text) → member t publish_reasons ≡ true → Bounded t
publish_reasons-Bounded t h = member-append t own_reasons publish_reasons h

own_reason-BoundedOwn : (o : Option Text) → BoundedOwn (own_reason o)
unfolding own_reason
own_reason-BoundedOwn none = tt
own_reason-BoundedOwn (some r) =
    if_cases BoundedOwn (member r publish_reasons) (some r) none (publish_reasons-Bounded r)
      (λ h. tt)

or_code-Bounded : (o : Option Text) (t : Text) → BoundedOwn o → Bounded t → Bounded (or_code o t)
or_code-Bounded none t h k = k
or_code-Bounded (some r) t h k = if_cases Bounded (is_empty r) t r (λ e. k) (λ e. h)

-- A verdict that the exception alone leads to.
abbrev Open : Verdict → Type 0
Open v = Bounded v.reason × (ok v.status ≡ false)

either : (b : Bool) (v w : Verdict) → Open v → Open w → Open (if b then v else w)
either b v w h k = if_cases Open b v w (λ e. h) (λ e. k)

by_fault-Open : (e : Option Fault) (t : Text) → Bounded t → Open (by_fault e t)
unfolding by_fault ok same_text
by_fault-Open e t h =
    let dropped = verdict bulk_not_sent (codes "backpressure_dropped") in
    let stopped = verdict bulk_not_sent (codes "broker_not_started") in
    let large = verdict invalid (codes "body_too_large") in
    let wrong = verdict invalid (codes "invalid_envelope") in
    let rest = verdict bulk_unknown t in
    let on_wrong = asked (λ f. f.is_value_or_type) e in
    let on_large = asked (λ f. f.is_too_large) e in
    let on_stopped = asked (λ f. f.is_not_started) e in
    let after_large = if on_wrong then wrong else rest in
    let after_stopped = if on_large then large else after_large in
    let after_dropped = if on_stopped then stopped else after_stopped in
    either (asked (λ f. f.is_backpressure) e) dropped after_dropped (refl, refl)
      (either on_stopped stopped after_stopped (refl, refl)
        (either on_large large after_large (refl, refl)
          (either on_wrong wrong rest (refl, refl) (h, refl))))

classify_error_status-Open :
    (r : Option Text) (e : Option Fault) → BoundedOwn r → Open (classify_error_status r e)
unfolding classify_error_status ok same_text
classify_error_status-Open r e h =
    let fallback = or_code r (codes "publish_error") in
    let absent = verdict unroutable (codes "exchange_not_found") in
    either (equals r (codes "exchange_not_found")) absent (by_fault e fallback) (refl, refl)
      (by_fault-Open e fallback (or_code-Bounded r (codes "publish_error") h refl))

not_sent_reason-Bounded :
    (r : Option Text) (e : Option Fault) → BoundedOwn r → Bounded (not_sent_reason r e)
unfolding not_sent_reason same_text
not_sent_reason-Bounded none e h =
    if_cases Bounded (asked (λ f. f.is_backpressure) e) (codes "backpressure_dropped")
      (codes "not_sent") (λ b. refl) (λ b. refl)
not_sent_reason-Bounded (some r) e h = or_code-Bounded (some r) (codes "not_sent") h refl

-- What holds of the verdict on an outcome.
abbrev Honest : Option PublishOutcome → Verdict → Type 0
Honest o v =
    Bounded v.reason
    × (ok v.status ≡ reports_confirm o)
    × (safe_to_resubmit v.status ≡ true → reports_unsent o ≡ true)

status-Honest :
    (s : PublishStatus) (given r : Option Text) (e : Option Fault)
    → BoundedOwn r
    → Honest (some (record { status = s; reason = given; error = e })) (classify_status s r e)
unfolding classify_status ok safe_to_resubmit same_text
status-Honest confirmed given r e h = (refl, refl, λ k. ground arith)
status-Honest sent given r e h = (refl, refl, λ k. ground arith)
status-Honest nacked given r e h = (refl, refl, λ k. ground arith)
status-Honest returned given r e h = (refl, refl, λ k. ground arith)
status-Honest timeout given r e h =
    (or_code-Bounded r (codes "confirm_timeout") h refl, refl, λ k. ground arith)
status-Honest unknown given r e h =
    (or_code-Bounded r (codes "publish_error") h refl, refl, λ k. ground arith)
status-Honest not_sent given r e h = (not_sent_reason-Bounded r e h, refl, λ k. refl)
status-Honest errored given r e h =
    let (bounded, closed) = classify_error_status-Open r e h in (bounded, closed, λ k. refl)

-- Whatever a publish call returned, the reason of its verdict is one of the bounded codes; the
-- verdict is a success exactly if the transport reported a broker's confirm, and calls a repetition
-- safe only if the transport reported NOT_SENT or ERROR, never for a message that was sent,
-- confirmed, returned, nacked, timed out or unknown.
pub classify_publish_outcome-Honest :
    (o : Option PublishOutcome)
    → let v = classify_publish_outcome o in
      (member v.reason all_reasons ≡ true)
      × (ok v.status ≡ reports_confirm o)
      × (safe_to_resubmit v.status ≡ true → reports_unsent o ≡ true)
unfolding classify_publish_outcome ok safe_to_resubmit same_text
classify_publish_outcome-Honest none = (refl, refl, λ k. ground arith)
classify_publish_outcome-Honest (some o) =
    status-Honest o.status o.reason (own_reason o.reason) o.error (own_reason-BoundedOwn o.reason)
