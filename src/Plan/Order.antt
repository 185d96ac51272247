-- ===== src/Plan/Order.antt =====
-- The walk emits in ascending tag order, so the sort that ends `_plan_locked` moves nothing.
use rabbitkit.Prelude.{
  ℕ, suc, ◌≤◌, ◌<◌, ◌≡◌, refl, Bool, true, false, not, ◌&&◌, List, [], ◌∷◌, ◌++◌, map, arith, inl,
  inr, ltb, leb, length, Bool-cases, append-nil, Option-cases, Above, All, or_default, last_or,
}
use rabbitkit.Prelude.Dict.{get, has, keys}
use rabbitkit.Prelude.Sort.{
  Within, Within-append, Within-mono, Within-le, sort_by_id, Within-Ordered,
}
use rabbitkit.Types.{SettlementAction, DeliveryState, success}
use rabbitkit.Coordinator.{Coordinator}
use rabbitkit.Coordinator.Invariant.{IsLedger, sorted_tags-keys, keys-Above, keys-le_last}
use rabbitkit.Plan.Walk.{
  SettlementCommand, tag_of, Progress, run_commands, flush_run, visit_held, visit_ack_safe,
  visit_return, visit_blocking, visit_state, visit, walk, begin, plan_locked, safe_part, rest_part,
  ack_one, return_one,
}
use rabbitkit.Plan.Runs.{Tags, Tags-split, Tags-ack_one, safe-append-rest}

-- The walk up to the tags from `b` on: commands in order, then the run, then `b`.
pub record InOrder (b : ℕ) (w : Progress) : Type 0 where
  pub middle : ℕ
  pub commands_within : Within tag_of 0 middle w.commands
  pub run_within : Tags middle b w.run
  pub idle : w.blocked ≡ true → w.run ≡ []

pub InOrder-begin : (c : Coordinator) → InOrder 0 (begin c)
unfolding begin
InOrder-begin c = record {
  middle = 0;
  commands_within = omega arith;
  run_within = omega arith;
  idle = λ _. refl;
}

module _ (c : Coordinator) (force : Bool) where
  pub run_commands-nil : run_commands c force [] ≡ []
  unfolding run_commands safe_part
  run_commands-nil = ground arith

  -- A flush appends the commands of the run, also of an empty one.
  pub flush_run_lem :
      (w : Progress) (run : List ℕ)
      → w.run ≡ run
      → flush_run c force w ≡ record w {
        commands = w.commands ++ run_commands c force w.run;
        covered = w.covered ++ w.run;
        run = [];
      }
  unfolding flush_run
  flush_run_lem w [] e =
      ground (arith, run_commands-nil, append-nil w.commands, append-nil w.covered)
  flush_run_lem w (t ∷ ts) e = ground arith

  run_commands-Within :
      (n b : ℕ) (run : List ℕ) → Tags n b run → Within tag_of n b (run_commands c force run)
  unfolding run_commands
  run_commands-Within n b run k =
      elim (Bool-cases (c.coalesce && not force && leb 2 (length (safe_part c.gap_floor run)))) [
        | inl e ↦ rw e (split e)
        | inr e ↦ rw e (Tags-ack_one c.generation n b run k)
      ]
    where
      safe : List ℕ
      safe = safe_part c.gap_floor run

      rest : List ℕ
      rest = rest_part c.gap_floor run

      split :
          (c.coalesce && not force && leb 2 (length safe)) ≡ true
          → (n ≤ last_or 0 safe)
            × Within tag_of (suc (last_or 0 safe)) b (map (ack_one c.generation) rest)
      split e =
          let (low, high) =
            Tags-split n b safe rest (rw (safe-append-rest c.gap_floor n b run k) k) 0
              (ground arith) in
          (low, Tags-ack_one c.generation (suc (last_or 0 safe)) b rest high)

  pub run-flush : (w : Progress) → (flush_run c force w).run ≡ []
  run-flush w = rw (flush_run_lem w w.run refl) refl

  flush-Within :
      (b : ℕ) (w : Progress) → InOrder b w → Within tag_of 0 b (flush_run c force w).commands
  flush-Within b w o = rw (flush_run_lem w w.run refl) (
      Within-append tag_of 0 o.middle b w.commands (run_commands c force w.run) o.commands_within
        (run_commands-Within o.middle b w.run o.run_within))

  -- A frame of one tag after a walk that has no run.
  InOrder-alone :
      (b t : ℕ) (w : Progress) (command : SettlementCommand) (tags : List ℕ)
      → b ≤ t
      → tag_of command ≡ t
      → Within tag_of 0 b w.commands
      → w.run ≡ []
      → InOrder
          (suc t)
          (record w { commands = w.commands ++ command ∷ []; covered = w.covered ++ tags })
  InOrder-alone b t w command tags h e k empty = record {
    middle = suc t;
    commands_within =
        Within-append tag_of 0 b (suc t) w.commands (command ∷ []) k (omega (arith, e));
    run_within = rw empty (omega arith);
    idle = λ _. empty;
  }

  pub InOrder-mono : (b d : ℕ) (w : Progress) → b ≤ d → InOrder b w → InOrder d w
  InOrder-mono b d w h o = record {
    middle = o.middle;
    commands_within = o.commands_within;
    run_within = Within-mono (λ u. u) o.middle b d w.run h o.run_within;
    idle = o.idle;
  }

  InOrder-visit_held :
      (b t : ℕ) (w : Progress)
      → b ≤ t
      → w.blocked ≡ true
      → InOrder b w
      → InOrder (suc t) (visit_held c force w t)
  unfolding visit_held
  InOrder-visit_held b t w h e o =
      let held = or_default (get w.hold t) 0 in
      let below = Within-le (λ u. u) o.middle b w.run o.run_within in
      elim (Bool-cases (c.coalesce && not force && ltb held c.max_hold)) [
        | inl hold ↦ rw hold (record {
          middle = o.middle;
          commands_within = o.commands_within;
          run_within = Within-mono (λ u. u) o.middle b (suc t) w.run (omega arith) o.run_within;
          idle = o.idle;
        })
        | inr send ↦ rw send (
            InOrder-alone b t w (ack_one c.generation t) (t ∷ []) h refl
              (Within-mono tag_of 0 o.middle b w.commands below o.commands_within) (o.idle e))
      ]

  InOrder-visit_ack_safe :
      (b t : ℕ) (w : Progress) → b ≤ t → InOrder b w → InOrder (suc t) (visit_ack_safe c force w t)
  unfolding visit_ack_safe
  InOrder-visit_ack_safe b t w h o = elim (Bool-cases w.blocked) [
    | inl e ↦ simp e (InOrder-visit_held b t w h e o)
    | inr e ↦ rw e (record {
      middle = o.middle;
      commands_within = o.commands_within;
      run_within =
          Within-append (λ u. u) o.middle t (suc t) w.run (t ∷ [])
            (Within-mono (λ u. u) o.middle b t w.run h o.run_within) (omega arith);
      idle = λ f. cc;
    })
  ]

  InOrder-visit_return :
      (b t : ℕ) (w : Progress) (kind : SettlementAction) (default : Bool)
      → b ≤ t
      → InOrder b w
      → InOrder (suc t) (visit_return c force w t kind default)
  unfolding visit_return
  InOrder-visit_return b t w kind default h o =
      InOrder-alone b t (flush_run c force w) (return_one c t kind default) (t ∷ []) h refl
        (flush-Within b w o) (run-flush w)

  InOrder-visit_blocking :
      (b : ℕ) (w : Progress) → InOrder b w → InOrder b (visit_blocking c force w)
  unfolding visit_blocking
  InOrder-visit_blocking b w o = record {
    middle = b;
    commands_within = flush-Within b w o;
    run_within = rw (run-flush w) (omega arith);
    idle = λ _. run-flush w;
  }

  InOrder-visit_state :
      (b t : ℕ) (w : Progress) (s : DeliveryState)
      → b ≤ t
      → InOrder b w
      → InOrder (suc t) (visit_state c force w t s)
  unfolding visit_state
  InOrder-visit_state b t w success h o = InOrder-visit_ack_safe b t w h o
  InOrder-visit_state b t w DeliveryState.nack h o =
      InOrder-visit_return b t w SettlementAction.nack true h o
  InOrder-visit_state b t w DeliveryState.reject h o =
      InOrder-visit_return b t w SettlementAction.reject false h o
  InOrder-visit_state b t w _ h o =
      InOrder-mono b (suc t) _ (omega arith) (InOrder-visit_blocking b w o)

  pub InOrder-visit :
      (b t : ℕ) (w : Progress) → b ≤ t → InOrder b w → InOrder (suc t) (visit c force w t)
  unfolding visit
  InOrder-visit b t w h o = elim (Bool-cases (has c.reserved t)) [
    | inl e ↦ rw e (InOrder-mono b (suc t) _ (omega arith) (InOrder-visit_blocking b w o))
    | inr e ↦ elim (Option-cases (get c.ledger t)) [
      | inl f ↦ rw (e, f, visit) (InOrder-mono b (suc t) w (omega arith) o)
      | inr (s, f) ↦ rw (e, f, visit) (InOrder-visit_state b t w s h o)
    ]
  ]

  walk-Within :
      (b e : ℕ) (w : Progress) (ts : List ℕ)
      → Above b ts
      → All (λ t. t < e) ts
      → b ≤ e
      → InOrder b w
      → Within tag_of 0 e (walk c force w ts).commands
  unfolding walk
  walk-Within b e w [] a l h o = Within-mono tag_of 0 b e _ h (flush-Within b w o)
  walk-Within b e w (t ∷ ts) a l h o =
      walk-Within (suc t) e (visit c force w t) ts a.1 l.1 l.0 (InOrder-visit b t w a.0 o)

  module _ (i : IsLedger c) where
    -- The walk's commands come in strictly ascending tag order, none past the last registration.
    pub walk_all-Within :
        Within tag_of 0 (suc c.last_registered) (walk c force (begin c) (keys c.ledger)).commands
    walk_all-Within =
        walk-Within 0 (suc c.last_registered) (begin c) (keys c.ledger) (keys-Above c i)
          (keys-le_last c i) (omega arith) (InOrder-begin c)

    -- So the plan is the walk's commands, unsorted.
    pub plan_locked_commands :
        (plan_locked c force).0 ≡ (walk c force (begin c) (keys c.ledger)).commands
    unfolding plan_locked
    plan_locked_commands = rw (sorted_tags-keys c i) (
        sort_by_id tag_of 0 _
          (Within-Ordered tag_of 0 0 (suc c.last_registered) _ (omega arith) walk_all-Within))

    -- The commands of a plan of a well-formed ledger come in strictly ascending order of their delivery
    -- tags, none past the last tag that was registered.
    pub plan_locked-Within : Within tag_of 0 (suc c.last_registered) (plan_locked c force).0
    plan_locked-Within = rw plan_locked_commands walk_all-Within

    pub plan_locked_covered :
        (plan_locked c force).1 ≡ (walk c force (begin c) (keys c.ledger)).covered
    unfolding plan_locked
    plan_locked_covered = rw (sorted_tags-keys c i) refl
