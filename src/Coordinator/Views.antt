-- ===== src/Coordinator/Views.antt =====
-- core/settlement.py, class SettlementCoordinator: its counts, the frontier and the oldest entry.
use rabbitkit.Prelude.{
  ℕ, suc, ◌-◌, min, Bool, true, false, ◌&&◌, none, some, List, [], ◌∷◌, if◌then◌else◌, ltb, length,
}
use rabbitkit.Prelude.Dict.{Dict, get}
use rabbitkit.Types.{DeliveryState, outstanding, is_ack_safe}
use rabbitkit.Coordinator.{Coordinator, sorted_tags}

count_states : (DeliveryState → Bool) → Dict DeliveryState → ℕ
count_states test [] = 0
count_states test ((_, s) ∷ d) = let rest = count_states test d in if test s then suc rest else rest

is_outstanding : DeliveryState → Bool
is_outstanding outstanding = true
is_outstanding _ = false

pub outstanding_count : Coordinator → ℕ
unfolding count_states is_outstanding
outstanding_count c = count_states is_outstanding c.ledger

unfoldable pub pending : Coordinator → ℕ
pending c = length c.ledger

pub ack_ready : Coordinator → ℕ
unfolding count_states
ack_ready c = count_states is_ack_safe c.ledger

-- The loop of `_frontier_locked` over the tags left, with the frontier so far.
unfoldable pub frontier_from : ℕ → Dict DeliveryState → ℕ → List ℕ → ℕ
frontier_from gap_floor ledger frontier [] = frontier
frontier_from gap_floor ledger frontier (tag ∷ tags) =
    let further = frontier_from gap_floor ledger tag tags in
    if ltb 0 gap_floor && ltb gap_floor tag then frontier else elim (get ledger tag) [
      | none ↦ frontier
      | some state ↦ if is_ack_safe state then further else frontier
    ]

unfoldable pub frontier : Coordinator → ℕ
unfolding frontier_from sorted_tags
frontier c = frontier_from c.gap_floor c.ledger 0 (sorted_tags c)

-- The ages of the entries; an empty ledger has age 0.
min_time : ℕ → Dict ℕ → ℕ
min_time t [] = t
min_time t ((_, r) ∷ d) = min_time (min t r) d

age_from : ℕ → Dict ℕ → ℕ
age_from now [] = 0
age_from now ((_, r) ∷ d) = now - min_time r d

pub oldest_pending_age : Coordinator → ℕ → ℕ
unfolding age_from min_time
oldest_pending_age c now = age_from now c.registered_at
