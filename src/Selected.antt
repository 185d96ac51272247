-- ===== src/Selected.antt =====
-- core/settlement.py, `ack_many`, `nack_many` and `reject_many`: validation of a list of deliveries,
-- settling those that pass, and the report. The messages are objects in a store, by their `id()`.
pub mod Settled
pub mod Calls
mod Examples
pub mod Indices
use rabbitkit.Prelude.{
  Text, ℕ, suc, Bool, true, false, not, ◌&&◌, ◌||◌, Option, none, some, List, [], ◌∷◌, ◌++◌, map,
  if◌then◌else◌, ◌==◌, contains, keep, or_default, is_some,
}
use rabbitkit.Prelude.Sort.{sort_by}
use rabbitkit.Types.{
  SettlementAction, SettlementItemStatus, dispatched, already_settled, duplicate, invalid, stale,
  not_attempted, failed,
}
use rabbitkit.Message.{
  RabbitMessage, Settlement, Outcome, returned, settlement_error, transport_error, is_settled,
  channel_alive, settle_sync, settle_async,
}

pub data Reason : Type 0 where
  reason_ok reason_already reason_duplicate reason_not_message reason_no_settlement_fn : Reason
  reason_wrong_runtime reason_stale_channel reason_validation_abort reason_transport_error : Reason

pub record SettlementItem : Type 0 where
  pub index : ℕ
  pub status : SettlementItemStatus
  pub reason : Reason
  pub delivery_tag : Option ℕ
  pub message_id : Option Text

pub record SettlementPlan : Type 0 where
  pub approved : List (ℕ × ℕ)
  pub rejected : List SettlementItem

pub data Runtime : Type 0 where
  sync async : Runtime

abbrev pub Store : Type 0
Store = ℕ → RabbitMessage

-- An item of a message.
abbrev pub item_of : ℕ → RabbitMessage → SettlementItemStatus → Reason → SettlementItem
item_of index m status reason = record {
  index = index;
  status = status;
  reason = reason;
  delivery_tag = m.delivery_tag;
  message_id = m.message_id;
}

-- The item of an input that is not a message.
abbrev pub not_message : ℕ → SettlementItem
not_message index = record {
  index = index;
  status = invalid;
  reason = reason_not_message;
  delivery_tag = none;
  message_id = none;
}

-- `alive is not None` and the probe does not answer true.
unfoldable pub is_stale : RabbitMessage → Bool
is_stale m = elim (channel_alive m) [ none ↦ false | some alive ↦ not alive ]

unfoldable pub lacks_runtime : Runtime → RabbitMessage → Bool
lacks_runtime sync m = not m.ack_fn
lacks_runtime async m = false

-- Why a message is not approved, if it is not; `again` says that it was seen before.
unfoldable pub refusal : Runtime → Bool → RabbitMessage → Option (SettlementItemStatus × Reason)
unfolding is_stale lacks_runtime
refusal runtime again m =
    if again
    then some (duplicate, reason_duplicate)
    else if is_settled m
    then some (already_settled, reason_already)
    else if not m.ack_fn && not m.ack_async_fn
    then some (invalid, reason_no_settlement_fn)
    else if lacks_runtime runtime m
    then some (invalid, reason_wrong_runtime)
    else if is_stale m
    then some (stale, reason_stale_channel)
    else none

unfoldable pub approve_one : ℕ → ℕ → SettlementPlan → SettlementPlan
approve_one index id rest = record {
  approved = (index, id) ∷ rest.approved;
  rejected = rest.rejected;
}

unfoldable pub reject_one : SettlementItem → SettlementPlan → SettlementPlan
reject_one item rest = record { approved = rest.approved; rejected = item ∷ rest.rejected }

-- The plan of the inputs from `index` on; an input is a message object or something else.
unfoldable pub validate : Store → Runtime → List ℕ → ℕ → List (Option ℕ) → SettlementPlan
unfolding approve_one reject_one
validate store runtime seen index [] = record { approved = []; rejected = [] }
validate store runtime seen index (none ∷ inputs) =
    reject_one (not_message index) (validate store runtime seen (suc index) inputs)
validate store runtime seen index (some id ∷ inputs) =
    let rest = validate store runtime (id ∷ seen) (suc index) inputs in
    elim (refusal runtime (contains seen id) (store id)) [
      | none ↦ approve_one index id rest
      | some (status, reason) ↦ reject_one (item_of index (store id) status reason) rest
    ]

unfoldable pub is_problem : SettlementItem → Bool
is_problem item = elim item.status [ already_settled ↦ false | _ ↦ true ]

unfoldable pub any_problem : List SettlementItem → Bool
any_problem [] = false
any_problem (item ∷ items) = is_problem item || any_problem items

unfoldable pub has_problems : SettlementPlan → Bool
has_problems plan = any_problem plan.rejected

unfoldable pub aborted : Store → List (ℕ × ℕ) → List SettlementItem
aborted store [] = []
aborted store ((index, id) ∷ approved) =
    item_of index (store id) not_attempted reason_validation_abort ∷ aborted store approved

abbrev pub is_empty {ℓ} : {A : Type ℓ} → List A → Bool
is_empty [] = true
is_empty (x ∷ xs) = false

abbrev pub index_of : SettlementItem → ℕ
index_of item = item.index

-- Nothing is approved, and what would have been is reported as not attempted.
unfoldable pub abort_all : Store → SettlementPlan → SettlementPlan
unfolding aborted
abort_all store plan = record {
  approved = [];
  rejected = sort_by index_of (plan.rejected ++ aborted store plan.approved);
}

-- The end of `plan_selected_settlement`.
unfoldable pub fail_fast_on : Store → Bool → SettlementPlan → SettlementPlan
unfolding abort_all
fail_fast_on store fail_fast plan =
    if fail_fast && has_problems plan && not (is_empty plan.approved)
    then abort_all store plan
    else plan

unfoldable pub plan_selected_settlement : Store → Runtime → Bool → List (Option ℕ) → SettlementPlan
unfolding fail_fast_on
plan_selected_settlement store runtime fail_fast inputs =
    fail_fast_on store fail_fast (validate store runtime [] 0 inputs)

pub record SettlementReport : Type 0 where
  pub action : SettlementAction
  pub items : List SettlementItem
  pub requeue : Option Bool

unfoldable pub build_report :
    SettlementAction → List SettlementItem → Option Bool → SettlementReport
build_report action items requeue = record {
  action = action;
  items = sort_by index_of items;
  requeue = requeue;
}

-- `report.problems` is everything except DISPATCHED and ALREADY_SETTLED.
unfoldable pub is_report_problem : SettlementItem → Bool
is_report_problem item = elim item.status [
  | dispatched ↦ false
  | already_settled ↦ false
  | _ ↦ true
]

pub problems : SettlementReport → List SettlementItem
problems report = keep is_report_problem report.items

pub all_dispatched : SettlementReport → Bool
unfolding problems
all_dispatched report = is_empty (problems report)

-- The call that an action makes on a message.
unfoldable pub settlement_of : SettlementAction → Option Bool → Settlement
settlement_of SettlementAction.ack requeue = Settlement.ack
settlement_of SettlementAction.nack requeue = Settlement.nack (or_default requeue true)
settlement_of SettlementAction.reject requeue = Settlement.reject (or_default requeue false)

unfoldable pub put_message : ℕ → RabbitMessage → Store → Store
put_message id m store u = if u == id then m else store u

unfoldable pub outcome_item : ℕ → RabbitMessage → Outcome → SettlementItem
outcome_item index m returned = item_of index m dispatched reason_ok
outcome_item index m settlement_error = item_of index m failed reason_transport_error
outcome_item index m transport_error = item_of index m failed reason_transport_error

-- `call` is the transport function of a message.
module _ {W : Type 0} (call : ℕ → Settlement → W → W × Bool) where
  unfoldable pub settle_by :
      Runtime → ℕ → RabbitMessage → Settlement → W → Outcome × RabbitMessage × W
  settle_by sync id m s w = settle_sync (call id) m s w
  settle_by async id m s w = settle_async (call id) m s w

  -- The loop over the approved messages.
  unfoldable pub settle_each :
      Runtime → Settlement → List (ℕ × ℕ) → Store → W → List SettlementItem × Store × W
  unfolding settle_by outcome_item put_message
  settle_each runtime s [] store w = ([], store, w)
  settle_each runtime s ((index, id) ∷ approved) store w =
      let (outcome, m, w') = settle_by runtime id (store id) s w in
      let rest = settle_each runtime s approved (put_message id m store) w' in
      (outcome_item index m outcome ∷ rest.0, rest.1, rest.2)

  unfoldable pub settle_planned :
      Runtime
      → SettlementAction
      → Option Bool
      → SettlementPlan
      → Store
      → W
      → SettlementReport × Store × W
  unfolding settle_each settlement_of build_report
  settle_planned runtime action requeue plan store w =
      let done = settle_each runtime (settlement_of action requeue) plan.approved store w in
      (build_report action (plan.rejected ++ done.0) requeue, done.1, done.2)

  unfoldable pub settle_many :
      Runtime
      → SettlementAction
      → Option Bool
      → Bool
      → List (Option ℕ)
      → Store
      → W
      → SettlementReport × Store × W
  unfolding settle_planned plan_selected_settlement
  settle_many runtime action requeue fail_fast inputs store w =
      settle_planned runtime action requeue
        (plan_selected_settlement store runtime fail_fast inputs) store w
