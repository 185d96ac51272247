-- ===== src/Emit.antt =====
-- core/settlement.py: `_emit_one`, `apply_commands` and `emit_batch`, which put a plan on the wire.
-- The three callables are one function `wire` of the frame; it says whether the call returned.
pub mod Report
pub mod Ledger
use rabbitkit.Prelude.{
  ℕ, ◌+◌, Bool, true, false, Option, none, some, List, [], ◌∷◌, ◌++◌, length, ltb, ◌&&◌, ◌-◌,
  if◌then◌else◌,
}
use rabbitkit.Types.{SettlementAction}
use rabbitkit.Coordinator.{Coordinator}
use rabbitkit.Plan.Walk.{SettlementCommand}
use rabbitkit.Plan.{SettlementBatch, commit_command, fail_command, release_commands}

-- A call of `ack(tag, multiple)`, `nack(tag, requeue)` or `reject(tag, requeue)`.
pub data Frame : Type 0 where
  ack nack reject : ℕ → Bool → Frame

frame_by : SettlementAction → SettlementCommand → Frame
frame_by SettlementAction.ack command = ack command.delivery_tag command.multiple
frame_by SettlementAction.nack command = nack command.delivery_tag command.requeue
frame_by SettlementAction.reject command = reject command.delivery_tag command.requeue

unfoldable pub emit_one : SettlementCommand → Frame
unfolding frame_by
emit_one command = frame_by command.kind command

pub record EmissionReport : Type 0 where
  pub batch_id : ℕ
  pub generation : ℕ
  pub emitted : List SettlementCommand
  pub failed : Option SettlementCommand
  pub not_attempted : List SettlementCommand
  pub invalidated : Bool
  pub unresolved_tags : List ℕ

unfoldable pub settled_tags : List SettlementCommand → ℕ
settled_tags [] = 0
settled_tags (command ∷ commands) = length command.covers + settled_tags commands

unfoldable pub coalesced_tags : List SettlementCommand → ℕ
coalesced_tags [] = 0
coalesced_tags (command ∷ commands) =
    let rest = coalesced_tags commands in
    if command.multiple && ltb 1 (length command.covers)
    then (length command.covers - 1) + rest
    else rest

-- `report.ok`
unfoldable pub report_ok : EmissionReport → Bool
report_ok report = elim report.failed [
  | some _ ↦ false
  | none ↦ elim report.not_attempted [ [] ↦ true | _ ∷ _ ↦ false ]
]

-- The report of a batch whose command failed, with `rest` not attempted. The ledger is that of a
-- flush with nothing in between; System has what other threads do between its parts.
unfoldable pub on_failure :
    SettlementBatch
    → List SettlementCommand
    → SettlementCommand
    → List SettlementCommand
    → Coordinator
    → EmissionReport × Coordinator
on_failure batch emitted command rest c =
    let (c', invalidated) = fail_command c batch command in
    (
      record {
        batch_id = batch.batch_id;
        generation = batch.generation;
        emitted = emitted;
        failed = some command;
        not_attempted = rest;
        invalidated = invalidated;
        unresolved_tags = command.covers;
      },
      if invalidated then c' else release_commands c' batch rest,
    )

module _ {W : Type 0} (wire : Frame → W → W × Bool) where
  -- The attempted commands, each with whether it was sent, and the world after them.
  unfoldable pub apply_commands : List SettlementCommand → W → List (SettlementCommand × Bool) × W
  apply_commands [] w = ([], w)
  apply_commands (command ∷ commands) w =
      let (w', sent) = wire (emit_one command) w in
      let rest = apply_commands commands w' in
      if sent then ((command, true) ∷ rest.0, rest.1) else ((command, false) ∷ [], w')

  -- The loop of `emit_batch`: the commands emitted so far, and those left.
  unfoldable pub emit_from :
      SettlementBatch
      → List SettlementCommand
      → List SettlementCommand
      → Coordinator
      → W
      → EmissionReport × Coordinator × W
  emit_from batch emitted [] c w = (
    record {
      batch_id = batch.batch_id;
      generation = batch.generation;
      emitted = emitted;
      failed = none;
      not_attempted = [];
      invalidated = false;
      unresolved_tags = [];
    },
    c,
    w,
  )
  emit_from batch emitted (command ∷ rest) c w =
      let (w', sent) = wire (emit_one command) w in
      let sent_on =
        emit_from batch (emitted ++ command ∷ []) rest (commit_command c batch command) w' in
      let failure = on_failure batch emitted command rest c in
      if sent then sent_on else (failure.0, failure.1, w')

  unfoldable pub emit_batch : SettlementBatch → Coordinator → W → EmissionReport × Coordinator × W
  unfolding emit_from
  emit_batch batch c w = emit_from batch [] batch.commands c w
