-- ===== src/Coordinator.antt =====
-- core/settlement.py, class SettlementCoordinator: the ledger of one channel generation, its
-- registration and its settlement decisions. Planning is in Plan.antt. Times are an argument.
pub mod Invariant
pub mod Intents
pub mod Views
pub mod Frontier
use rabbitkit.Prelude.{
  ℕ, zero, suc, ◌+◌, ◌-◌, ◌<◌, max, min, Bool, true, false, not, ◌&&◌, Option, none, some, List, [],
  ◌∷◌, if◌then◌else◌, ltb, leb, ◌==◌, length, contains,
}
use rabbitkit.Prelude.Dict.{Dict, get, has, put, pop, keys}
use rabbitkit.Prelude.Sort.{sort_by}
use rabbitkit.Types.{
  DeliveryState, outstanding, success, retry_pending, failed, cancelled, nack, reject, is_ack_safe,
  blocks_frontier,
}

-- The raised classes; `invalid_tag` is a bare CoordinatorError of `register`.
pub data CoordinatorError : Type 0 where
  invalid_tag unknown_delivery stale_generation contradictory_settlement : CoordinatorError
  ledger_full : CoordinatorError

pub data Result {ℓ} (A : Type ℓ) : Type ℓ where
  ok : A → Result A
  err : CoordinatorError → Result A

pub record Coordinator : Type 0 where
  pub generation : ℕ
  pub coalesce : Bool
  pub max_hold : ℕ
  pub max_pending : ℕ
  pub ledger : Dict DeliveryState
  pub hold : Dict ℕ
  pub requeue : Dict Bool
  pub registered_at : Dict ℕ
  pub last_registered : ℕ
  pub gap_floor : ℕ
  pub unregistered_gaps : ℕ
  pub prev_high_water : ℕ
  pub registered_count : ℕ
  pub settled_count : ℕ
  pub coalesced_count : ℕ
  pub frames_sent : ℕ
  pub invalidations : ℕ
  pub dropped_on_invalidate : ℕ
  pub reserved : Dict ℕ
  pub next_batch_id : ℕ
  pub unresolved_count : ℕ
  pub frames_failed : ℕ
  pub frames_not_attempted : ℕ

unfoldable pub init : ℕ → Bool → ℕ → ℕ → Coordinator
init generation coalesce max_hold max_pending = record {
  generation = generation;
  coalesce = coalesce;
  max_hold = max_hold;
  max_pending = max_pending;
  ledger = [];
  hold = [];
  requeue = [];
  registered_at = [];
  last_registered = 0;
  gap_floor = 0;
  unregistered_gaps = 0;
  prev_high_water = 0;
  registered_count = 0;
  settled_count = 0;
  coalesced_count = 0;
  frames_sent = 0;
  invalidations = 0;
  dropped_on_invalidate = 0;
  reserved = [];
  next_batch_id = 1;
  unresolved_count = 0;
  frames_failed = 0;
  frames_not_attempted = 0;
}

-- `sorted(self._ledger)`
unfoldable pub sorted_tags : Coordinator → List ℕ
sorted_tags c = sort_by (λ t. t) (keys c.ledger)

unfoldable pub state_of : Coordinator → ℕ → Option DeliveryState
state_of c tag = get c.ledger tag

-- The ledger after the checks of `register`.
unfoldable pub registered : Coordinator → ℕ → ℕ → Coordinator
registered c tag now =
    let skips = ltb (c.last_registered + 1) tag in
    record c {
      unregistered_gaps = if skips then c.unregistered_gaps + 1 else c.unregistered_gaps;
      gap_floor = if skips && not (ltb 0 c.gap_floor) then c.last_registered + 1 else c.gap_floor;
      ledger = put tag outstanding c.ledger;
      registered_at = put tag now c.registered_at;
      last_registered = tag;
      registered_count = c.registered_count + 1;
    }

unfoldable pub register : Coordinator → ℕ → ℕ → Result Coordinator
register c tag now =
    if leb tag 0
    then err invalid_tag
    else if leb tag c.last_registered
    then err invalid_tag
    else if ltb 0 c.max_pending && leb c.max_pending (length c.ledger)
    then err ledger_full
    else ok (registered c tag now)

-- `_missing`: which error a tag outside the ledger raises.
unfoldable pub missing : Coordinator → ℕ → CoordinatorError
missing c tag =
    if leb tag c.last_registered
    then contradictory_settlement
    else if leb tag c.prev_high_water
    then stale_generation
    else unknown_delivery

-- `state in _TRANSITIONS[current]`, from the first state to the second.
unfoldable pub can_become : DeliveryState → DeliveryState → Bool
can_become outstanding outstanding = false
can_become outstanding _ = true
can_become retry_pending outstanding = false
can_become retry_pending retry_pending = false
can_become retry_pending _ = true
can_become failed nack = true
can_become failed reject = true
can_become cancelled nack = true
can_become cancelled reject = true
can_become _ _ = false

-- `a is b` on the enum
unfoldable pub same_state : DeliveryState → DeliveryState → Bool
same_state outstanding outstanding = true
same_state success success = true
same_state retry_pending retry_pending = true
same_state failed failed = true
same_state cancelled cancelled = true
same_state nack nack = true
same_state reject reject = true
same_state _ _ = false

same_flag : Option Bool → Bool → Bool
same_flag none b = false
same_flag (some true) b = b
same_flag (some false) b = not b

-- `requeue is not None and self._requeue.get(tag) != requeue`
changes_requeue : Coordinator → ℕ → Option Bool → Bool
changes_requeue c tag none = false
changes_requeue c tag (some r) = not (same_flag (get c.requeue tag) r)

put_requeue : ℕ → Option Bool → Dict Bool → Dict Bool
put_requeue tag none d = d
put_requeue tag (some r) d = put tag r d

-- The decision written.
unfoldable pub intended : Coordinator → ℕ → DeliveryState → Option Bool → Coordinator
unfolding put_requeue
intended c tag state requeue = record c {
  ledger = put tag state c.ledger;
  requeue = put_requeue tag requeue c.requeue;
}

unfoldable pub set_intent : Coordinator → ℕ → DeliveryState → Option Bool → Result Coordinator
unfolding same_flag changes_requeue
set_intent c tag state requeue = elim (get c.ledger tag) [
  | none ↦ err (missing c tag)
  | some current ↦
      if same_state current state
      then (if changes_requeue c tag requeue then err contradictory_settlement else ok c)
      else if not (can_become current state)
      then err contradictory_settlement
      else ok (intended c tag state requeue)
]

abbrev pub mark_success : Coordinator → ℕ → Result Coordinator
mark_success c tag = set_intent c tag success none

abbrev pub mark_retry_pending : Coordinator → ℕ → Result Coordinator
mark_retry_pending c tag = set_intent c tag retry_pending none

abbrev pub mark_failed : Coordinator → ℕ → Result Coordinator
mark_failed c tag = set_intent c tag failed none

abbrev pub mark_cancelled : Coordinator → ℕ → Result Coordinator
mark_cancelled c tag = set_intent c tag cancelled none

abbrev pub mark_nack : Coordinator → ℕ → Bool → Result Coordinator
mark_nack c tag requeue = set_intent c tag nack (some requeue)

abbrev pub mark_reject : Coordinator → ℕ → Bool → Result Coordinator
mark_reject c tag requeue = set_intent c tag reject (some requeue)

unfoldable pub release : Coordinator → ℕ → Coordinator
release c tag = record c {
  ledger = pop tag c.ledger;
  hold = pop tag c.hold;
  requeue = pop tag c.requeue;
  registered_at = pop tag c.registered_at;
}

-- The new coordinator, and the dropped tags.
unfoldable pub invalidate : Coordinator → Coordinator × List ℕ
invalidate c =
    let dropped = sorted_tags c in
    (
      record c {
        prev_high_water = max c.prev_high_water c.last_registered;
        ledger = [];
        hold = [];
        requeue = [];
        registered_at = [];
        reserved = [];
        last_registered = 0;
        gap_floor = 0;
        generation = c.generation + 1;
        invalidations = c.invalidations + 1;
        dropped_on_invalidate = c.dropped_on_invalidate + length dropped;
      },
      dropped,
    )
