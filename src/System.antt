-- ===== src/System.antt =====
-- A coordinator, the channel that it settles, and a flush in progress, under every interleaving of
-- deliveries, registrations, decisions, frames and reconnects.
pub mod Sound
pub mod Prepares
pub mod Flight
pub mod Safety
mod Examples
use rabbitkit.Prelude.{
  ℕ, zero, suc, ◌≤◌, ◌≡◌, Bool, true, false, ◌&&◌, ◌==◌, List, [], ◌∷◌, Option, if◌then◌else◌,
}
use rabbitkit.Types.{DeliveryState}
use rabbitkit.Coordinator.{Coordinator, ok, register, set_intent, release, invalidate}
use rabbitkit.Plan.Walk.{SettlementCommand}
use rabbitkit.Plan.{
  SettlementBatch, prepare, commit_command, unresolve, must_invalidate, release_commands,
}
use rabbitkit.Emit.{emit_one}
use rabbitkit.Broker.{Broker}
use rabbitkit.Wire.Knows.{approve}

-- `fail_command` under its lock, and whether it is to invalidate when it has let go of it.
unfoldable pub fail_locked : Coordinator → SettlementBatch → SettlementCommand → Coordinator × Bool
fail_locked c batch command =
    if batch.generation == c.generation
    then (unresolve c command, must_invalidate command.kind)
    else (c, false)

-- What `emit_batch` has still to do, without the lock: nothing before a command has failed, then the
-- invalidation of `fail_command`, or else the release of the rest.
pub data Stage : Type 0 where
  idle invalidating : Stage
  releasing : List SettlementCommand → Stage

unfoldable pub is_invalidating : Stage → Bool
is_invalidating invalidating = true
is_invalidating _ = false

unfoldable pub stage_after : Bool → List SettlementCommand → Stage
stage_after must rest = if must then invalidating else releasing rest

module _ (broker : Broker) where
  open broker use {Channel, opened, unacked, receive, deliver as deliver_on}

  -- `approved` records on which tags of the channel `mark_success` has returned, `delivered` the
  -- last tag that the broker used, and `in_flight` what the flush has still to send of `batch`.
  -- `attached` says that the flush began on this channel: its callables are bound to that channel,
  -- as CoalescingAcker (highload/batch.py) asks ("One acker per channel"). `stage` is where the flush stands after a command that failed.
  pub record System : Type 0 where
    pub coordinator : Coordinator
    pub channel : Channel
    pub approved : ℕ → Bool
    pub delivered : ℕ
    pub batch : SettlementBatch
    pub in_flight : List SettlementCommand
    pub attached : Bool
    pub stage : Stage

  pub data Step (s : System) : System → Type 0 where
    delivers :
        Step s (record s {
          channel = deliver_on (suc s.delivered) s.channel;
          delivered = suc s.delivered;
        })
    registers :
        (tag now : ℕ) (c : Coordinator)
        → tag ≤ s.delivered
        → register s.coordinator tag now ≡ ok c
        → Step s (record s { coordinator = c })
    decides :
        (tag : ℕ) (state : DeliveryState) (requeue : Option Bool) (c : Coordinator)
        → set_intent s.coordinator tag state requeue ≡ ok c
        → Step s (record s { coordinator = c; approved = approve state tag s.approved })
    -- `release` is for a delivery that was settled elsewhere.
    releases :
        (tag : ℕ)
        → unacked s.channel tag ≡ false
        → Step s (record s { coordinator = release s.coordinator tag })
    -- One flush at a time: the ackers hold a lock until `emit_batch` has returned.
    prepares :
        (force : Bool)
        → s.in_flight ≡ []
        → s.stage ≡ idle
        → Step s (record s {
          coordinator = (prepare s.coordinator force).1;
          batch = (prepare s.coordinator force).0;
          in_flight = (prepare s.coordinator force).0.commands;
          attached = true;
        })
    sends :
        (command : SettlementCommand) (rest : List SettlementCommand)
        → s.in_flight ≡ command ∷ rest
        → Step s (record s {
          coordinator = commit_command s.coordinator s.batch command;
          channel = if s.attached then receive (emit_one command) s.channel else s.channel;
          in_flight = rest;
        })
    -- The call raised; the frame may have arrived all the same. What is left of `emit_batch` follows in
    -- a step of its own, `ends_invalidated` or `ends_released`.
    fails :
        (command : SettlementCommand) (rest : List SettlementCommand) (arrived : Bool)
        → s.in_flight ≡ command ∷ rest
        → Step s (record s {
          coordinator = (fail_locked s.coordinator s.batch command).0;
          channel =
              if s.attached && arrived then receive (emit_one command) s.channel else s.channel;
          in_flight = [];
          stage = stage_after (fail_locked s.coordinator s.batch command).1 rest;
        })
    ends_invalidated :
        s.stage ≡ invalidating
        → Step s (record s { coordinator = (invalidate s.coordinator).0; stage = idle })
    ends_released :
        (rest : List SettlementCommand)
        → s.stage ≡ releasing rest
        → Step s
            (record s { coordinator = release_commands s.coordinator s.batch rest; stage = idle })
    invalidates : Step s (record s { coordinator = (invalidate s.coordinator).0 })
    -- A new channel: no tag of it is approved. A flush in progress goes on, on the old one.
    reconnects : Step s (record s {
      coordinator = (invalidate s.coordinator).0;
      channel = opened;
      approved = λ u. false;
      delivered = 0;
      attached = false;
    })

  pub data Reach (s : System) : System → Type 0 where
    here : Reach s s
    next : {t u : System} → Reach s t → Step t u → Reach s u
