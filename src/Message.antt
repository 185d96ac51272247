-- ===== src/Message.antt =====
-- core/message.py, class RabbitMessage: the settlement of one delivery. The transport's settlement
-- functions are one function `call` on a world; it says whether the call returned.
pub mod Once
use rabbitkit.Prelude.{Text, ℕ, Bool, true, false, not, ◌||◌, Option, none, some, if◌then◌else◌}

pub data Disposition : Type 0 where
  pending acked nacked rejected : Disposition

-- What the probe `_channel_alive` does when it is called.
pub data Probe : Type 0 where
  answers : Bool → Probe
  raises : Probe

-- The settlement state of a message. A function field says whether the transport has set one.
pub record RabbitMessage : Type 0 where
  pub delivery_tag : Option ℕ
  pub message_id : Option Text
  pub ack_fn : Bool
  pub nack_fn : Bool
  pub reject_fn : Bool
  pub ack_async_fn : Bool
  pub nack_async_fn : Bool
  pub reject_async_fn : Bool
  pub disposition : Disposition
  pub settle_unknown : Bool
  pub probe : Option Probe

unfoldable pub is_pending : Disposition → Bool
is_pending pending = true
is_pending _ = false

unfoldable pub is_settled : RabbitMessage → Bool
unfolding is_pending
is_settled m = not (is_pending m.disposition)

unfoldable pub probe_value : Probe → Bool
probe_value (answers b) = b
probe_value raises = false

unfoldable pub channel_alive : RabbitMessage → Option Bool
unfolding probe_value
channel_alive m = elim m.probe [ none ↦ none | some p ↦ some (probe_value p) ]

-- A settlement, with its `requeue`.
pub data Settlement : Type 0 where
  ack : Settlement
  nack reject : Bool → Settlement

-- How a call ended: it returned, it raised SettlementError, or the transport raised.
pub data Outcome : Type 0 where
  returned settlement_error transport_error : Outcome

unfoldable pub claimed_by : Settlement → Disposition
claimed_by ack = acked
claimed_by (nack requeue) = nacked
claimed_by (reject requeue) = rejected

unfoldable pub sync_fn : RabbitMessage → Settlement → Bool
sync_fn m ack = m.ack_fn
sync_fn m (nack requeue) = m.nack_fn
sync_fn m (reject requeue) = m.reject_fn

unfoldable pub async_fn : RabbitMessage → Settlement → Bool
async_fn m ack = m.ack_async_fn
async_fn m (nack requeue) = m.nack_async_fn
async_fn m (reject requeue) = m.reject_async_fn

-- The part of `_settle_async` before its await: nothing to do, an error, or a claim to send.
pub data Claim : Type 0 where
  already no_function : Claim
  claims : RabbitMessage → Claim

unfoldable pub claim : RabbitMessage → Settlement → Claim
unfolding is_settled
claim m s =
    if is_settled m
    then already
    else if not (async_fn m s || sync_fn m s)
    then no_function
    else claims (record m { disposition = claimed_by s })

-- The part after the await, which may have raised.
unfoldable pub finish : RabbitMessage → Bool → RabbitMessage
finish m sent = if sent then m else record m { settle_unknown = true }

module _ {W : Type 0} (call : Settlement → W → W × Bool) where
  -- `ack`, `nack` and `reject`
  unfoldable pub settle_sync : RabbitMessage → Settlement → W → Outcome × RabbitMessage × W
  unfolding is_settled
  settle_sync m s w =
      if is_settled m
      then (returned, m, w)
      else if not (sync_fn m s)
      then (settlement_error, m, w)
      else let (w', sent) = call s w in
        if sent
        then (returned, record m { disposition = claimed_by s }, w')
        else (transport_error, m, w')

  await_call : RabbitMessage → Settlement → W → Outcome × RabbitMessage × W
  await_call m s w =
      let (w', sent) = call s w in (if sent then returned else transport_error, finish m sent, w')

  -- `ack_async`, `nack_async` and `reject_async`, run without interruption.
  unfoldable pub settle_async : RabbitMessage → Settlement → W → Outcome × RabbitMessage × W
  unfolding await_call
  settle_async m s w = elim (claim m s) [
    | already ↦ (returned, m, w)
    | no_function ↦ (settlement_error, m, w)
    | claims m' ↦ await_call m' s w
  ]
