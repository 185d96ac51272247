-- ===== src/Plan.antt =====
-- core/settlement.py: the planning walk of SettlementCoordinator, and the plan/emit/commit protocol
-- on the ledger. Putting a batch on the wire is in Emit.antt.
pub mod Walk
pub mod Runs
pub mod Order
pub mod Frames
pub mod Settled
pub mod Coverage
pub mod Complete
pub mod Reserve
use Walk.{plan_locked}
use rabbitkit.Prelude.{
  ℕ, zero, suc, ◌+◌, ◌-◌, Bool, true, false, not, ◌&&◌, Option, none, some, List, [], ◌∷◌, ◌++◌,
  if◌then◌else◌, ltb, ◌==◌, length, contains,
}
use rabbitkit.Prelude.Dict.{Dict, get, put, pop, keys}
use rabbitkit.Types.{SettlementAction, ack, nack, reject}
use rabbitkit.Coordinator.{Coordinator, invalidate}
use Walk.{SettlementCommand}

pub record SettlementBatch : Type 0 where
  pub commands : List SettlementCommand
  pub generation : ℕ
  pub batch_id : ℕ

-- `_settle_tags_locked`
unfoldable pub settle_tags : List ℕ → Coordinator → Coordinator
settle_tags [] c = c
settle_tags (tag ∷ tags) c = settle_tags tags (record c {
  ledger = pop tag c.ledger;
  hold = pop tag c.hold;
  requeue = pop tag c.requeue;
  registered_at = pop tag c.registered_at;
  reserved = pop tag c.reserved;
})

-- `for tag in covered: self._reserved[tag] = batch_id`
unfoldable pub reserve : ℕ → List ℕ → Dict ℕ → Dict ℕ
reserve batch_id [] d = d
reserve batch_id (tag ∷ tags) d = reserve batch_id tags (put tag batch_id d)

prepare_walked :
    Coordinator → List SettlementCommand × List ℕ × Dict ℕ → SettlementBatch × Coordinator
unfolding reserve
prepare_walked c (commands, covered, hold) = (
  record { commands = commands; generation = c.generation; batch_id = c.next_batch_id },
  record c {
    hold = hold;
    next_batch_id = c.next_batch_id + 1;
    reserved = reserve c.next_batch_id covered c.reserved;
  },
)

unfoldable pub prepare : Coordinator → Bool → SettlementBatch × Coordinator
unfolding prepare_walked
prepare c force_individual = elim c.ledger [
  | [] ↦ (record { commands = []; generation = c.generation; batch_id = 0 }, c)
  | _ ∷ _ ↦ prepare_walked c (plan_locked c force_individual)
]

unfoldable pub commit_command : Coordinator → SettlementBatch → SettlementCommand → Coordinator
commit_command c batch command =
    if not (batch.generation == c.generation)
    then c
    else let settled = settle_tags command.covers c in
      record settled {
        settled_count = settled.settled_count + length command.covers;
        frames_sent = settled.frames_sent + 1;
        coalesced_count =
            if command.multiple && ltb 1 (length command.covers)
            then settled.coalesced_count + length command.covers
            else settled.coalesced_count;
      }

unfoldable pub must_invalidate : SettlementAction → Bool
must_invalidate ack = false
must_invalidate nack = true
must_invalidate reject = true

-- The ledger after a failed frame, before any invalidation.
unfoldable pub unresolve : Coordinator → SettlementCommand → Coordinator
unresolve c command =
    let settled = settle_tags command.covers c in
    record settled {
      unresolved_count = settled.unresolved_count + length command.covers;
      frames_failed = settled.frames_failed + 1;
    }

-- The second part says that the generation was invalidated.
unfoldable pub fail_command : Coordinator → SettlementBatch → SettlementCommand → Coordinator × Bool
unfolding must_invalidate
fail_command c batch command =
    if not (batch.generation == c.generation)
    then (c, false)
    else if must_invalidate command.kind
    then ((invalidate (unresolve c command)).0, true)
    else (unresolve c command, false)

-- `del` of the tags that this batch still holds
unreserve : ℕ → List ℕ → Dict ℕ → Dict ℕ
unreserve batch_id [] d = d
unreserve batch_id (tag ∷ tags) d =
    unreserve batch_id tags
      (elim (get d tag) [ none ↦ d | some b ↦ if b == batch_id then pop tag d else d ])

release_each : ℕ → List SettlementCommand → Coordinator → Coordinator
unfolding unreserve
release_each batch_id [] c = c
release_each batch_id (command ∷ commands) c = release_each batch_id commands (record c {
  reserved = unreserve batch_id command.covers c.reserved;
  frames_not_attempted = c.frames_not_attempted + 1;
})

unfoldable pub release_commands :
    Coordinator → SettlementBatch → List SettlementCommand → Coordinator
unfolding release_each
release_commands c batch commands =
    if not (batch.generation == c.generation) then c else release_each batch.batch_id commands c

-- The tags that cumulative frames of a plan settle.
coalesced_in : List SettlementCommand → ℕ
coalesced_in [] = 0
coalesced_in (command ∷ commands) =
    let rest = coalesced_in commands in
    if command.multiple && ltb 1 (length command.covers) then length command.covers + rest else rest

plan_walked :
    Coordinator → List SettlementCommand × List ℕ × Dict ℕ → List SettlementCommand × Coordinator
unfolding coalesced_in
plan_walked c (commands, covered, hold) =
    let settled = settle_tags covered (record c { hold = hold }) in
    (
      commands,
      record settled {
        settled_count = settled.settled_count + length covered;
        frames_sent = settled.frames_sent + length commands;
        coalesced_count = settled.coalesced_count + coalesced_in commands;
      },
    )

-- `plan`, which plans and settles at once.
unfoldable pub plan : Coordinator → Bool → List SettlementCommand × Coordinator
unfolding plan_walked
plan c force_individual = elim c.ledger [
  | [] ↦ ([], c)
  | _ ∷ _ ↦ plan_walked c (plan_locked c force_individual)
]

pub drain_plan : Coordinator → List SettlementCommand × Coordinator
drain_plan c = plan c true

pub prepare_drain : Coordinator → SettlementBatch × Coordinator
prepare_drain c = prepare c true
