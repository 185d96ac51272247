-- ===== src/Types.antt =====
-- core/types.py: the enums that settlement uses.
use rabbitkit.Prelude.{Bool, true, false, not}

pub data SettlementAction : Type 0 where
  ack nack reject : SettlementAction

pub data DeliveryState : Type 0 where
  outstanding success retry_pending failed cancelled nack reject : DeliveryState

unfoldable pub is_ack_safe : DeliveryState → Bool
is_ack_safe DeliveryState.success = true
is_ack_safe _ = false

unfoldable pub is_emittable : DeliveryState → Bool
is_emittable DeliveryState.success = true
is_emittable DeliveryState.nack = true
is_emittable DeliveryState.reject = true
is_emittable _ = false

unfoldable pub blocks_frontier : DeliveryState → Bool
unfolding is_emittable
blocks_frontier s = not (is_emittable s)

pub data SettlementItemStatus : Type 0 where
  dispatched already_settled duplicate invalid stale not_attempted failed : SettlementItemStatus
