-- ===== src/Plan/Coverage.antt =====
-- The tags that a plan covers: `covers` of its commands, each once, and each of them to be settled.
use rabbitkit.Prelude.{
  ℕ, suc, ◌≡◌, refl, sym, ap, ◌∙◌, Bool, true, false, not, ◌&&◌, inl, inr, List, [], ◌∷◌, ◌++◌, map,
  append_assoc, append-nil, All, All-append, Above, length, leb, ltb, Bool-cases, Option-cases,
  some, or_default, contains, contains-All,
}
use rabbitkit.Prelude.Dict.{get, has, keys}
use rabbitkit.Types.{SettlementAction, DeliveryState, success, is_emittable}
use rabbitkit.Coordinator.{Coordinator}
use rabbitkit.Coordinator.Invariant.{IsLedger, keys-Above}
use rabbitkit.Plan.Walk.{
  SettlementCommand, Progress, ack_one, return_one, run_commands, safe_part, rest_part, flush_run,
  visit_held, visit_ack_safe, visit_return, visit_blocking, visit_state, visit, walk, begin,
  plan_locked,
}
use rabbitkit.Plan.Runs.{Tags, safe-append-rest}
use rabbitkit.Plan.Order.{
  InOrder, InOrder-begin, InOrder-visit, flush_run_lem, plan_locked_commands, plan_locked_covered,
}
use rabbitkit.Plan.Frames.{IsFree, Rules, plan_locked-All}

-- `t for c in self.commands for t in c.covers`
abbrev pub all_covers : List SettlementCommand → List ℕ
all_covers [] = []
all_covers (x ∷ xs) = x.covers ++ all_covers xs

pub all_covers-append :
    (xs ys : List SettlementCommand) → all_covers (xs ++ ys) ≡ all_covers xs ++ all_covers ys
all_covers-append [] ys = refl
all_covers-append (x ∷ xs) ys =
    rw (all_covers-append xs ys) (sym (append_assoc x.covers (all_covers xs) (all_covers ys)))

all_covers-ack_one : (g : ℕ) (ts : List ℕ) → all_covers (map (ack_one g) ts) ≡ ts
all_covers-ack_one g [] = refl
all_covers-ack_one g (t ∷ ts) = ap (◌∷◌ t) (all_covers-ack_one g ts)

abbrev IsExact : Progress → Type 0
IsExact w = all_covers w.commands ≡ w.covered

module _ (c : Coordinator) (force : Bool) where
  run_commands_covers :
      (n b : ℕ) (run : List ℕ) → Tags n b run → all_covers (run_commands c force run) ≡ run
  unfolding run_commands
  run_commands_covers n b run k =
      elim (Bool-cases (c.coalesce && not force && leb 2 (length (safe_part c.gap_floor run)))) [
        | inl e ↦
            rw (e, all_covers-ack_one c.generation (rest_part c.gap_floor run))
              (safe-append-rest c.gap_floor n b run k)
        | inr e ↦ rw e (all_covers-ack_one c.generation run)
      ]

  IsExact-flush : (b : ℕ) (w : Progress) → InOrder b w → IsExact w → IsExact (flush_run c force w)
  IsExact-flush b w o e = rw (flush_run_lem c force w w.run refl) (
      all_covers-append w.commands (run_commands c force w.run)
      ∙ rw (e, run_commands_covers o.middle b w.run o.run_within) refl)

  IsExact-alone :
      (w : Progress) (x : SettlementCommand)
      → IsExact w
      → IsExact (record w { commands = w.commands ++ x ∷ []; covered = w.covered ++ x.covers })
  IsExact-alone w x e = rw (all_covers-append, e, append-nil) refl

  IsExact-visit_held : (t : ℕ) (w : Progress) → IsExact w → IsExact (visit_held c force w t)
  unfolding visit_held
  IsExact-visit_held t w e =
      let held = or_default (get w.hold t) 0 in
      elim (Bool-cases (c.coalesce && not force && ltb held c.max_hold)) [
        | inl hold ↦ rw hold e
        | inr send ↦ rw send (IsExact-alone w (ack_one c.generation t) e)
      ]

  IsExact-visit_ack_safe : (t : ℕ) (w : Progress) → IsExact w → IsExact (visit_ack_safe c force w t)
  unfolding visit_ack_safe
  IsExact-visit_ack_safe t w e = elim (Bool-cases w.blocked) [
    | inl f ↦ simp f (IsExact-visit_held t w e)
    | inr f ↦ simp f e
  ]

  IsExact-visit_state :
      (b t : ℕ) (w : Progress) (s : DeliveryState)
      → InOrder b w
      → IsExact w
      → IsExact (visit_state c force w t s)
  unfolding visit_state visit_return visit_blocking
  IsExact-visit_state b t w success o e = IsExact-visit_ack_safe t w e
  IsExact-visit_state b t w DeliveryState.nack o e =
      IsExact-alone (flush_run c force w) (return_one c t SettlementAction.nack true)
        (IsExact-flush b w o e)
  IsExact-visit_state b t w DeliveryState.reject o e =
      IsExact-alone (flush_run c force w) (return_one c t SettlementAction.reject false)
        (IsExact-flush b w o e)
  IsExact-visit_state b t w _ o e = IsExact-flush b w o e

  IsExact-visit : (b t : ℕ) (w : Progress) → InOrder b w → IsExact w → IsExact (visit c force w t)
  unfolding visit visit_blocking
  IsExact-visit b t w o e = elim (Bool-cases (has c.reserved t)) [
    | inl f ↦ rw f (IsExact-flush b w o e)
    | inr f ↦ elim (Option-cases (get c.ledger t)) [
      | inl g ↦ rw (f, g, visit) e
      | inr (s, g) ↦ rw (f, g, visit) (IsExact-visit_state b t w s o e)
    ]
  ]

  walk-IsExact :
      (b : ℕ) (w : Progress) (ts : List ℕ)
      → Above b ts
      → InOrder b w
      → IsExact w
      → IsExact (walk c force w ts)
  unfolding walk
  walk-IsExact b w [] a o e = IsExact-flush b w o e
  walk-IsExact b w (t ∷ ts) a o e =
      walk-IsExact (suc t) (visit c force w t) ts a.1 (InOrder-visit c force b t w a.0 o)
        (IsExact-visit b t w o e)

  -- The covers of the commands are the tags that are reserved for them.
  pub plan_locked_covers : IsLedger c → all_covers (plan_locked c force).0 ≡ (plan_locked c force).1
  unfolding begin
  plan_locked_covers i =
      ap all_covers (plan_locked_commands c force i)
      ∙ walk-IsExact 0 (begin c) (keys c.ledger) (keys-Above c i) (InOrder-begin c) refl
      ∙ sym (plan_locked_covered c force i)

-- Not reserved, and approved for some settlement.
abbrev pub IsDue : Coordinator → ℕ → Type 0
IsDue c t =
    (has c.reserved t ≡ false)
    × (s : DeliveryState) × (get c.ledger t ≡ some s)
    × (is_emittable s ≡ true)

IsDue-All : (c : Coordinator) (ts : List ℕ) → All (IsFree c success) ts → All (IsDue c) ts
unfolding is_emittable
IsDue-All c [] a = tt
IsDue-All c (t ∷ ts) a = ((a.0.0, success, a.0.1, refl), IsDue-All c ts a.1)

IsDue-Rules : (c : Coordinator) (force : Bool) → Rules c force (λ x. All (IsDue c) x.covers)
unfolding is_emittable
IsDue-Rules c force = record {
  one = λ t f. ((f.0, success, f.1, refl), tt);
  nacked = λ t f. ((f.0, DeliveryState.nack, f.1, refl), tt);
  rejected = λ t f. ((f.0, DeliveryState.reject, f.1, refl), tt);
  many = λ n b ts _ _ _ a _. IsDue-All c ts a;
}

All-all_covers :
    (P : ℕ → Type 0) (xs : List SettlementCommand)
    → All (λ x. All P x.covers) xs
    → All P (all_covers xs)
All-all_covers P [] a = tt
All-all_covers P (x ∷ xs) a = All-append P x.covers (all_covers xs) a.0 (All-all_covers P xs a.1)

-- What a plan of a well-formed ledger covers is in the ledger, not reserved, and approved for an ack,
-- a nack or a reject.
pub covered-IsDue :
    (c : Coordinator) (force : Bool) (t : ℕ)
    → IsLedger c
    → contains (all_covers (plan_locked c force).0) t ≡ true
    → IsDue c t
covered-IsDue c force t i = contains-All (IsDue c) (all_covers (plan_locked c force).0) t (
    All-all_covers (IsDue c) (plan_locked c force).0
      (plan_locked-All c force (λ x. All (IsDue c) x.covers) (IsDue-Rules c force) i))
