-- ===== src/Plan/Walk.antt =====
-- core/settlement.py, `_plan_locked`: the walk over the ledger that chooses the frames.
use rabbitkit.Prelude.{
  ℕ, ◌+◌, Bool, true, false, not, ◌&&◌, none, some, List, [], ◌∷◌, ◌++◌, map, if◌then◌else◌, ltb,
  leb, length, drop, keep, last_or, or_default,
}
use rabbitkit.Prelude.Dict.{Dict, get, has, put}
use rabbitkit.Prelude.Sort.{sort_by}
use rabbitkit.Types.{
  SettlementAction, DeliveryState, outstanding, success, retry_pending, failed, cancelled,
}
use rabbitkit.Coordinator.{Coordinator, sorted_tags}

pub record SettlementCommand : Type 0 where
  pub kind : SettlementAction
  pub delivery_tag : ℕ
  pub multiple : Bool
  pub requeue : Bool
  pub covers : List ℕ
  pub generation : ℕ

abbrev pub tag_of : SettlementCommand → ℕ
tag_of command = command.delivery_tag

-- The locals of the walk, and `self._hold`, which it writes.
pub record Progress : Type 0 where
  pub commands : List SettlementCommand
  pub covered : List ℕ
  pub run : List ℕ
  pub blocked : Bool
  pub hold : Dict ℕ

-- One individual ack.
abbrev pub ack_one : ℕ → ℕ → SettlementCommand
ack_one generation tag = record {
  kind = SettlementAction.ack;
  delivery_tag = tag;
  multiple = false;
  requeue = false;
  covers = tag ∷ [];
  generation = generation;
}

-- The cumulative ack of a run.
abbrev pub ack_run : ℕ → List ℕ → SettlementCommand
ack_run generation safe = record {
  kind = SettlementAction.ack;
  delivery_tag = last_or 0 safe;
  multiple = true;
  requeue = false;
  covers = safe;
  generation = generation;
}

-- The part of a run below the gap, and the rest.
unfoldable pub safe_part : ℕ → List ℕ → List ℕ
safe_part gap_floor run = if ltb 0 gap_floor then keep (λ t. ltb t gap_floor) run else run

unfoldable pub rest_part : ℕ → List ℕ → List ℕ
unfolding safe_part
rest_part gap_floor run =
    if ltb 0 gap_floor then drop (length (safe_part gap_floor run)) run else []

-- The commands that `flush_run` appends for a run that is not empty.
unfoldable pub run_commands : Coordinator → Bool → List ℕ → List SettlementCommand
run_commands c force_individual run =
    let safe = safe_part c.gap_floor run in
    if c.coalesce && not force_individual && leb 2 (length safe)
    then ack_run c.generation safe ∷ map (ack_one c.generation) (rest_part c.gap_floor run)
    else map (ack_one c.generation) run

unfoldable pub flush_run : Coordinator → Bool → Progress → Progress
flush_run c force_individual w = elim w.run [
  | [] ↦ w
  | _ ∷ _ ↦ record w {
    commands = w.commands ++ run_commands c force_individual w.run;
    covered = w.covered ++ w.run;
    run = [];
  }
]

-- An ack-safe delivery above a blocking one: it is held back, or acked alone.
unfoldable pub visit_held : Coordinator → Bool → Progress → ℕ → Progress
visit_held c force_individual w tag =
    let held = or_default (get w.hold tag) 0 in
    if c.coalesce && not force_individual && ltb held c.max_hold
    then record w { hold = put tag (held + 1) w.hold }
    else record w {
      commands = w.commands ++ ack_one c.generation tag ∷ [];
      covered = w.covered ++ tag ∷ [];
    }

-- Any other ack-safe delivery joins the run.
unfoldable pub visit_ack_safe : Coordinator → Bool → Progress → ℕ → Progress
visit_ack_safe c force_individual w tag =
    if not w.blocked
    then record w { run = w.run ++ tag ∷ [] }
    else visit_held c force_individual w tag

-- The frame of a nack or a reject; `default` is the `requeue` of a nack.
abbrev pub return_one : Coordinator → ℕ → SettlementAction → Bool → SettlementCommand
return_one c tag kind default = record {
  kind = kind;
  delivery_tag = tag;
  multiple = false;
  requeue = or_default (get c.requeue tag) default;
  covers = tag ∷ [];
  generation = c.generation;
}

unfoldable pub visit_return : Coordinator → Bool → Progress → ℕ → SettlementAction → Bool → Progress
visit_return c force_individual w tag kind default =
    let flushed = flush_run c force_individual w in
    record flushed {
      commands = flushed.commands ++ return_one c tag kind default ∷ [];
      covered = flushed.covered ++ tag ∷ [];
    }

unfoldable pub visit_blocking : Coordinator → Bool → Progress → Progress
visit_blocking c force_individual w = record (flush_run c force_individual w) { blocked = true }

unfoldable pub visit_state : Coordinator → Bool → Progress → ℕ → DeliveryState → Progress
visit_state c force_individual w tag success = visit_ack_safe c force_individual w tag
visit_state c force_individual w tag DeliveryState.nack =
    visit_return c force_individual w tag SettlementAction.nack true
visit_state c force_individual w tag DeliveryState.reject =
    visit_return c force_individual w tag SettlementAction.reject false
visit_state c force_individual w tag outstanding = visit_blocking c force_individual w
visit_state c force_individual w tag retry_pending = visit_blocking c force_individual w
visit_state c force_individual w tag failed = visit_blocking c force_individual w
visit_state c force_individual w tag cancelled = visit_blocking c force_individual w

-- The body of the loop. The tags are keys of the ledger, so the lookup finds one.
unfoldable pub visit : Coordinator → Bool → Progress → ℕ → Progress
visit c force_individual w tag =
    if has c.reserved tag then visit_blocking c force_individual w else elim (get c.ledger tag) [
      | none ↦ w
      | some state ↦ visit_state c force_individual w tag state
    ]

unfoldable pub walk : Coordinator → Bool → Progress → List ℕ → Progress
walk c force_individual w [] = flush_run c force_individual w
walk c force_individual w (tag ∷ tags) =
    walk c force_individual (visit c force_individual w tag) tags

unfoldable pub begin : Coordinator → Progress
begin c = record { commands = []; covered = []; run = []; blocked = false; hold = c.hold }

-- The commands, the tags that they cover, and the new `self._hold`.
unfoldable pub plan_locked : Coordinator → Bool → List SettlementCommand × List ℕ × Dict ℕ
plan_locked c force_individual =
    let w = walk c force_individual (begin c) (sorted_tags c) in
    (sort_by tag_of w.commands, w.covered, w.hold)
