-- ===== src/Selected/Examples.antt =====
-- Selected settlement of two messages, of which the second is settled already, and of other inputs.
use rabbitkit.Prelude.{
  ℕ, ◌≡◌, refl, Bool, true, false, Option, none, some, List, [], ◌∷◌, map, All, if◌then◌else◌, ◌==◌,
}
use rabbitkit.Prelude.Sort.{sort_by}
use rabbitkit.Types.{SettlementAction}
use rabbitkit.Message.{
  RabbitMessage, Disposition, Settlement, is_settled, is_pending, channel_alive, claimed_by,
  sync_fn, settle_sync,
}
use rabbitkit.Selected.{
  Store, sync, async, index_of, settle_many, settle_planned, settle_each, settle_by,
  plan_selected_settlement, validate, approve_one, reject_one, refusal, fail_fast_on, abort_all,
  aborted, build_report, put_message, outcome_item, has_problems, any_problem, is_problem,
  is_report_problem, all_dispatched, problems, is_stale, lacks_runtime, settlement_of,
}
use rabbitkit.Selected.Indices.{index-settle_many}
use rabbitkit.Selected.Settled.{IsMessage, settle_many-all_dispatched}
use rabbitkit.Selected.Calls.{Distinct, recording, settle_many_problem, settle_many-Distinct}

abbrev message : Disposition → RabbitMessage
message disposition = record {
  delivery_tag = some 7;
  message_id = none;
  ack_fn = true;
  nack_fn = true;
  reject_fn = true;
  ack_async_fn = false;
  nack_async_fn = false;
  reject_async_fn = false;
  disposition = disposition;
  settle_unknown = false;
  probe = none;
}

abbrev store : Store
store id = if id == 1 then message Disposition.pending else message Disposition.acked

-- The message 1 twice, something else, and the settled message 2.
abbrev mixed : List (Option ℕ)
mixed = some 1 ∷ none ∷ some 2 ∷ some 1 ∷ []

abbrev returns : ℕ → Settlement → Bool
returns id s = true

index-settle_many_example :
    map index_of
      (settle_many (recording returns) sync SettlementAction.nack none false mixed store []).0.items
    ≡ 0 ∷ 1 ∷ 2 ∷ 3 ∷ []
index-settle_many_example =
    index-settle_many (recording returns) sync SettlementAction.nack none false mixed store []

settle_many-all_dispatched_example :
    let done =
      settle_many
        (recording returns)
        sync
        SettlementAction.ack
        none
        true
        (some 1 ∷ some 2 ∷ [])
        store
        [] in
    All (IsMessage (λ id. is_settled (done.1 id) ≡ true)) (some 1 ∷ some 2 ∷ [])
unfolding all_dispatched problems is_report_problem settle_many settle_planned settle_each settle_by
    settle_sync sync_fn claimed_by plan_selected_settlement fail_fast_on abort_all aborted sort_by
    build_report put_message outcome_item has_problems any_problem is_problem validate reject_one
    approve_one refusal is_settled is_pending is_stale lacks_runtime channel_alive settlement_of
settle_many-all_dispatched_example =
    settle_many-all_dispatched (recording returns) sync SettlementAction.ack none true
      (some 1 ∷ some 2 ∷ []) store [] refl

settle_many_problem_example :
    let done = settle_many (recording returns) sync SettlementAction.ack none true mixed store [] in
    (done.1 ≡ store) × (done.2 ≡ [])
unfolding has_problems any_problem is_problem validate reject_one approve_one refusal is_settled
    is_pending is_stale lacks_runtime channel_alive
settle_many_problem_example =
    settle_many_problem (recording returns) sync SettlementAction.ack none mixed store [] refl

settle_many-Distinct_example :
    Distinct
      (settle_many (recording returns) async SettlementAction.reject none false mixed store []).2
settle_many-Distinct_example =
    settle_many-Distinct returns async SettlementAction.reject none false mixed store
