-- ===== src/Plan/Frames.antt =====
-- What holds of each command of a plan, by the ways in which the walk makes commands.
use rabbitkit.Prelude.{
  ℕ, suc, ◌≤◌, ◌<◌, ◌≡◌, refl, Bool, true, false, not, ◌&&◌, inl, inr, List, [], ◌∷◌, ◌++◌, map,
  arith, All, All-append, Above, length, leb, ltb, Bool-cases, Option-cases, some, or_default,
}
use rabbitkit.Prelude.Dict.{get, has, keys}
use rabbitkit.Types.{SettlementAction, DeliveryState, success}
use rabbitkit.Coordinator.{Coordinator}
use rabbitkit.Coordinator.Invariant.{IsLedger, keys-Above}
use rabbitkit.Plan.Walk.{
  SettlementCommand, Progress, ack_one, ack_run, return_one, run_commands, safe_part, rest_part,
  flush_run, visit_held, visit_ack_safe, visit_return, visit_blocking, visit_state, visit, walk,
  begin, plan_locked,
}
use rabbitkit.Plan.Runs.{Tags, Tags-left, All-left, All-right, safe_part_below, safe-append-rest}
use rabbitkit.Plan.Order.{
  InOrder, InOrder-begin, InOrder-visit, flush_run_lem, run-flush, plan_locked_commands,
}

-- Not reserved, and in the state `s`.
abbrev pub IsFree : Coordinator → DeliveryState → ℕ → Type 0
IsFree c s t = (has c.reserved t ≡ false) × (get c.ledger t ≡ some s)

-- A predicate on commands, with a rule for each way to make one.
pub record Rules (c : Coordinator) (force : Bool) (Q : SettlementCommand → Type 0) : Type 0 where
  pub one : (t : ℕ) → IsFree c success t → Q (ack_one c.generation t)
  pub nacked :
      (t : ℕ) → IsFree c DeliveryState.nack t → Q (return_one c t SettlementAction.nack true)
  pub rejected :
      (t : ℕ) → IsFree c DeliveryState.reject t → Q (return_one c t SettlementAction.reject false)
  pub many :
      (n b : ℕ) (ts : List ℕ)
      → (c.coalesce && not force) ≡ true
      → 2 ≤ length ts
      → Tags n b ts
      → All (IsFree c success) ts
      → (0 < c.gap_floor → All (λ t. t < c.gap_floor) ts)
      → Q (ack_run c.generation ts)

module _ (c : Coordinator) (force : Bool) (Q : SettlementCommand → Type 0)
    (r : Rules c force Q) where
  record Made (w : Progress) : Type 0 where
    sent : All Q w.commands
    ready : All (IsFree c success) w.run

  ones : (ts : List ℕ) → All (IsFree c success) ts → All Q (map (ack_one c.generation) ts)
  ones [] a = tt
  ones (t ∷ ts) a = (r.one t a.0, ones ts a.1)

  run_commands-All :
      (n b : ℕ) (run : List ℕ)
      → Tags n b run
      → All (IsFree c success) run
      → All Q (run_commands c force run)
  unfolding run_commands
  run_commands-All n b run k a =
      elim (Bool-cases (c.coalesce && not force && leb 2 (length (safe_part c.gap_floor run)))) [
        | inl e ↦ rw e (together e)
        | inr e ↦ rw e (ones run a)
      ]
    where
      safe : List ℕ
      safe = safe_part c.gap_floor run

      rest : List ℕ
      rest = rest_part c.gap_floor run

      pieces : safe ++ rest ≡ run
      pieces = safe-append-rest c.gap_floor n b run k

      together :
          (c.coalesce && not force && leb 2 (length safe)) ≡ true
          → All Q (ack_run c.generation safe ∷ map (ack_one c.generation) rest)
      together e = (
        r.many n b safe (ground arith) (ground arith) (Tags-left n b safe rest (rw pieces k))
            (All-left (IsFree c success) safe rest (rw pieces a)) (safe_part_below c.gap_floor run),
        ones rest (All-right (IsFree c success) safe rest (rw pieces a)),
      )

  flush-All : (b : ℕ) (w : Progress) → InOrder b w → Made w → All Q (flush_run c force w).commands
  flush-All b w o m = rw (flush_run_lem c force w w.run refl) (
      All-append Q w.commands (run_commands c force w.run) m.sent
        (run_commands-All o.middle b w.run o.run_within m.ready))

  Made-visit_held :
      (t : ℕ) (w : Progress) → IsFree c success t → Made w → Made (visit_held c force w t)
  unfolding visit_held
  Made-visit_held t w f m =
      let held = or_default (get w.hold t) 0 in
      elim (Bool-cases (c.coalesce && not force && ltb held c.max_hold)) [
        | inl hold ↦ rw hold (record { sent = m.sent; ready = m.ready })
        | inr send ↦ rw send (record {
          sent = All-append Q w.commands (ack_one c.generation t ∷ []) m.sent (r.one t f, tt);
          ready = m.ready;
        })
      ]

  Made-visit_ack_safe :
      (t : ℕ) (w : Progress) → IsFree c success t → Made w → Made (visit_ack_safe c force w t)
  unfolding visit_ack_safe
  Made-visit_ack_safe t w f m = elim (Bool-cases w.blocked) [
    | inl e ↦ simp e (Made-visit_held t w f m)
    | inr e ↦ simp e (record {
      sent = m.sent;
      ready = All-append (IsFree c success) w.run (t ∷ []) m.ready (f, tt);
    })
  ]

  Made-visit_return :
      (b t : ℕ) (w : Progress) (kind : SettlementAction) (default : Bool)
      → Q (return_one c t kind default)
      → InOrder b w
      → Made w
      → Made (visit_return c force w t kind default)
  unfolding visit_return
  Made-visit_return b t w kind default q o m = record {
    sent =
        All-append Q (flush_run c force w).commands (return_one c t kind default ∷ [])
          (flush-All b w o m) (q, tt);
    ready = rw (run-flush c force w) tt;
  }

  Made-visit_blocking :
      (b : ℕ) (w : Progress) → InOrder b w → Made w → Made (visit_blocking c force w)
  unfolding visit_blocking
  Made-visit_blocking b w o m = record {
    sent = flush-All b w o m;
    ready = rw (run-flush c force w) tt;
  }

  Made-visit_state :
      (b t : ℕ) (w : Progress) (s : DeliveryState)
      → IsFree c s t
      → InOrder b w
      → Made w
      → Made (visit_state c force w t s)
  unfolding visit_state
  Made-visit_state b t w success f o m = Made-visit_ack_safe t w f m
  Made-visit_state b t w DeliveryState.nack f o m =
      Made-visit_return b t w SettlementAction.nack true (r.nacked t f) o m
  Made-visit_state b t w DeliveryState.reject f o m =
      Made-visit_return b t w SettlementAction.reject false (r.rejected t f) o m
  Made-visit_state b t w _ f o m = Made-visit_blocking b w o m

  Made-visit : (b t : ℕ) (w : Progress) → InOrder b w → Made w → Made (visit c force w t)
  unfolding visit
  Made-visit b t w o m = elim (Bool-cases (has c.reserved t)) [
    | inl e ↦ rw e (Made-visit_blocking b w o m)
    | inr e ↦ elim (Option-cases (get c.ledger t)) [
      | inl f ↦ rw (e, f, visit) m
      | inr (s, f) ↦ rw (e, f, visit) (Made-visit_state b t w s (e, f) o m)
    ]
  ]

  walk-All :
      (b : ℕ) (w : Progress) (ts : List ℕ)
      → Above b ts
      → InOrder b w
      → Made w
      → All Q (walk c force w ts).commands
  unfolding walk
  walk-All b w [] a o m = flush-All b w o m
  walk-All b w (t ∷ ts) a o m =
      walk-All (suc t) (visit c force w t) ts a.1 (InOrder-visit c force b t w a.0 o)
        (Made-visit b t w o m)

  -- Each command of a plan is made by one of the rules.
  pub plan_locked-All : IsLedger c → All Q (plan_locked c force).0
  unfolding begin
  plan_locked-All i = rw (plan_locked_commands c force i) (
      walk-All 0 (begin c) (keys c.ledger) (keys-Above c i) (InOrder-begin c)
        (record { sent = tt; ready = tt }))
