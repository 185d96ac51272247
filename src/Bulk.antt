-- ===== src/Bulk.antt =====
-- core/bulk.py: what became of one envelope of a bulk publish, with PublishReason and
-- PublishOutcome of core/types.py.
use rabbitkit.Prelude.{
  ℕ, Bool, true, false, ◌&&◌, Option, none, some, List, [], ◌∷◌, ◌++◌, if◌then◌else◌, ltb, Text,
  codes, same_text, is_empty, map,
}
pub mod Outcomes
pub mod Preparation
pub mod Run
pub mod Account
pub mod Tracked
pub mod Accounts
pub mod Bounds
pub mod Sequence
mod Examples

pub data PublishStatus : Type 0 where
  confirmed sent nacked timeout returned errored not_sent unknown : PublishStatus

pub data BulkPublishStatus : Type 0 where
  bulk_confirmed unroutable bulk_nacked invalid bulk_not_sent bulk_unknown : BulkPublishStatus

-- An exception: which of the classes that the code asks about it is an instance of. CancelledError and
-- KeyboardInterrupt are no Exception.
pub record Fault : Type 0 where
  pub is_exception : Bool
  pub is_cancelled : Bool
  pub is_timeout : Bool
  pub is_backpressure : Bool
  pub is_not_started : Bool
  pub is_too_large : Bool
  pub is_value_or_type : Bool

pub record PublishOutcome : Type 0 where
  pub status : PublishStatus
  pub reason : Option Text
  pub error : Option Fault

abbrev pub member : Text → List Text → Bool
member t [] = false
member t (u ∷ us) = let rest = member t us in if same_text t u then true else rest

-- PublishReason.ALL
abbrev pub publish_reasons : List Text
publish_reasons =
    codes "admission_timeout"
    ∷ codes "publisher_closed"
    ∷ codes "not_connected"
    ∷ codes "channel_unavailable"
    ∷ codes "exceeds_max_in_flight_bytes"
    ∷ codes "backpressure_dropped"
    ∷ codes "connection_lost"
    ∷ codes "channel_closed"
    ∷ codes "shutdown"
    ∷ codes "cancelled"
    ∷ codes "confirm_timeout"
    ∷ codes "publish_timeout"
    ∷ codes "returned"
    ∷ codes "nacked"
    ∷ codes "exchange_not_found"
    ∷ codes "access_refused"
    ∷ codes "precondition_failed"
    ∷ codes "invalid_envelope"
    ∷ codes "publish_error"
    ∷ []

-- The codes of bulk.py's own.
abbrev pub own_reasons : List Text
own_reasons =
    codes "confirmed"
    ∷ codes "sent_unconfirmed"
    ∷ codes "confirm_timeout"
    ∷ codes "returned"
    ∷ codes "nacked"
    ∷ codes "publish_error"
    ∷ codes "backpressure_dropped"
    ∷ codes "broker_not_started"
    ∷ codes "admission_timeout"
    ∷ codes "overall_timeout"
    ∷ codes "cancelled"
    ∷ codes "input_iteration_error"
    ∷ codes "body_too_large"
    ∷ codes "exceeds_max_buffer_bytes"
    ∷ codes "invalid_type"
    ∷ codes "invalid_headers"
    ∷ codes "invalid_envelope"
    ∷ codes "no_outcome"
    ∷ codes "not_sent"
    ∷ []

-- ALL_REASONS
abbrev pub all_reasons : List Text
all_reasons = own_reasons ++ publish_reasons

-- A status with its reason code.
pub record Verdict : Type 0 where
  pub status : BulkPublishStatus
  pub reason : Text

abbrev pub verdict : BulkPublishStatus → Text → Verdict
verdict s r = record { status = s; reason = r }

-- `outcome.reason if outcome.reason in PublishReason.ALL else None`
unfoldable pub own_reason : Option Text → Option Text
own_reason none = none
own_reason (some r) = if member r publish_reasons then some r else none

abbrev pub or_code : Option Text → Text → Text
or_code none fallback = fallback
or_code (some r) fallback = if is_empty r then fallback else r

abbrev pub asked : (Fault → Bool) → Option Fault → Bool
asked test none = false
asked test (some e) = test e

abbrev pub equals : Option Text → Text → Bool
equals none t = false
equals (some r) t = same_text r t

-- The status NOT_SENT.
unfoldable pub not_sent_reason : Option Text → Option Fault → Text
not_sent_reason none error =
    if asked (λ e. e.is_backpressure) error then codes "backpressure_dropped" else codes "not_sent"
not_sent_reason (some r) error = or_code (some r) (codes "not_sent")

-- The branches on the exception that both classifications share.
unfoldable pub by_fault : Option Fault → Text → Verdict
by_fault error fallback =
    if asked (λ e. e.is_backpressure) error
    then verdict bulk_not_sent (codes "backpressure_dropped")
    else if asked (λ e. e.is_not_started) error
    then verdict bulk_not_sent (codes "broker_not_started")
    else if asked (λ e. e.is_too_large) error
    then verdict invalid (codes "body_too_large")
    else if asked (λ e. e.is_value_or_type) error
    then verdict invalid (codes "invalid_envelope")
    else verdict bulk_unknown fallback

unfoldable pub classify_error_status : Option Text → Option Fault → Verdict
unfolding by_fault
classify_error_status reason error =
    if equals reason (codes "exchange_not_found")
    then verdict unroutable (codes "exchange_not_found")
    else by_fault error (or_code reason (codes "publish_error"))

unfoldable pub classify_status : PublishStatus → Option Text → Option Fault → Verdict
unfolding not_sent_reason classify_error_status
classify_status returned reason error = verdict unroutable (codes "returned")
classify_status confirmed reason error = verdict bulk_confirmed (codes "confirmed")
classify_status sent reason error = verdict bulk_unknown (codes "sent_unconfirmed")
classify_status nacked reason error = verdict bulk_nacked (codes "nacked")
classify_status timeout reason error =
    verdict bulk_unknown (or_code reason (codes "confirm_timeout"))
classify_status unknown reason error = verdict bulk_unknown (or_code reason (codes "publish_error"))
classify_status not_sent reason error = verdict bulk_not_sent (not_sent_reason reason error)
classify_status errored reason error = classify_error_status reason error

unfoldable pub classify_publish_outcome : Option PublishOutcome → Verdict
unfolding classify_status own_reason
classify_publish_outcome none = verdict bulk_unknown (codes "no_outcome")
classify_publish_outcome (some o) = classify_status o.status (own_reason o.reason) o.error

unfoldable pub classify_publish_exception : Fault → Verdict
unfolding by_fault
classify_publish_exception exc =
    if exc.is_cancelled
    then verdict bulk_unknown (codes "cancelled")
    else if exc.is_timeout
    then verdict bulk_unknown (codes "confirm_timeout")
    else by_fault (some exc) (codes "publish_error")

-- BulkPublishItem.ok, BulkPublishItem.safe_to_resubmit
unfoldable pub ok : BulkPublishStatus → Bool
ok bulk_confirmed = true
ok _ = false

unfoldable pub safe_to_resubmit : BulkPublishStatus → Bool
safe_to_resubmit bulk_not_sent = true
safe_to_resubmit invalid = true
safe_to_resubmit _ = false

pub record Item : Type 0 where
  pub index : ℕ
  pub verdict : Verdict

abbrev pub follows : ℕ → List ℕ → Bool
follows i [] = true
follows i (j ∷ is) = ltb i j

-- BulkPublishResult.__post_init__: the indices ascend strictly.
unfoldable pub indices_ascend : List ℕ → Bool
indices_ascend [] = true
indices_ascend (i ∷ is) = let rest = indices_ascend is in follows i is && rest

unfoldable pub input_ordered : List Item → Bool
unfolding indices_ascend
input_ordered items = indices_ascend (map (λ x. x.index) items)
