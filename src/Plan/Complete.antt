-- ===== src/Plan/Complete.antt =====
-- Nothing is missed: a plan that holds nothing back covers every delivery that is due, each once.
use rabbitkit.Prelude.{
  ℕ, suc, ◌≡◌, refl, sym, ap, ◌∙◌, Bool, true, false, not, ◌&&◌, inl, inr, List, [], ◌∷◌, ◌++◌,
  arith, append_assoc, append-nil, Above, ltb, Bool-cases, Option-cases, some, none, or_default,
  keep, if◌then◌else◌,
}
use rabbitkit.Prelude.Dict.{get, has, keys}
use rabbitkit.Types.{SettlementAction, DeliveryState, success, is_emittable}
use rabbitkit.Coordinator.{Coordinator}
use rabbitkit.Coordinator.Invariant.{IsLedger, keys-Above}
use rabbitkit.Plan.Walk.{
  Progress, flush_run, visit_held, visit_ack_safe, visit_return, visit_blocking, visit_state, visit,
  walk, begin, plan_locked,
}
use rabbitkit.Plan.Order.{InOrder, InOrder-begin, InOrder-visit, flush_run_lem, plan_locked_covered}
use rabbitkit.Plan.Coverage.{all_covers, plan_locked_covers}

-- The tags taken so far.
abbrev taken : Progress → List ℕ
taken w = w.covered ++ w.run

-- The plan holds no ack back: it is a drain, or `coalesce` is off, or `max_hold` is 0.
abbrev pub HoldsNone : Coordinator → Bool → Type 0
HoldsNone c force = (c.coalesce && not force && ltb 0 c.max_hold) ≡ false

-- Not reserved, and approved for an ack, a nack or a reject.
pub is_due : Coordinator → ℕ → Bool
is_due c t =
    not (has c.reserved t) && (elim (get c.ledger t) [ none ↦ false | some s ↦ is_emittable s ])

module _ (c : Coordinator) (force : Bool) (none_held : HoldsNone c force) where
  taken-flush : (w : Progress) → taken (flush_run c force w) ≡ taken w
  taken-flush w = rw (flush_run_lem c force w w.run refl) (append-nil (w.covered ++ w.run))

  taken-visit_held :
      (t : ℕ) (w : Progress) → w.run ≡ [] → taken (visit_held c force w t) ≡ taken w ++ t ∷ []
  unfolding visit_held
  taken-visit_held t w e =
      let held = or_default (get w.hold t) 0 in
      let sends : (c.coalesce && not force && ltb held c.max_hold) ≡ false = ground arith in
      rw (sends, e, append-nil w.covered) (append-nil (w.covered ++ t ∷ []))

  taken-visit_ack_safe :
      (b t : ℕ) (w : Progress)
      → InOrder b w
      → taken (visit_ack_safe c force w t) ≡ taken w ++ t ∷ []
  unfolding visit_ack_safe
  taken-visit_ack_safe b t w o = elim (Bool-cases w.blocked) [
    | inl e ↦ simp e (taken-visit_held t w (o.idle e))
    | inr e ↦ simp e (sym (append_assoc w.covered w.run (t ∷ [])))
  ]

  taken-visit_return :
      (t : ℕ) (w : Progress) (kind : SettlementAction) (default : Bool)
      → taken (visit_return c force w t kind default) ≡ taken w ++ t ∷ []
  unfolding visit_return
  taken-visit_return t w kind default =
      rw (flush_run_lem c force w w.run refl) (append-nil ((w.covered ++ w.run) ++ t ∷ []))

  taken-visit_state :
      (b t : ℕ) (w : Progress) (s : DeliveryState)
      → InOrder b w
      → taken (visit_state c force w t s) ≡ taken w ++ (if is_emittable s then t ∷ [] else [])
  unfolding visit_state visit_blocking is_emittable
  taken-visit_state b t w success o = taken-visit_ack_safe b t w o
  taken-visit_state b t w DeliveryState.nack o = taken-visit_return t w SettlementAction.nack true
  taken-visit_state b t w DeliveryState.reject o =
      taken-visit_return t w SettlementAction.reject false
  taken-visit_state b t w _ o = taken-flush w ∙ sym (append-nil (taken w))

  taken-visit :
      (b t : ℕ) (w : Progress)
      → InOrder b w
      → taken (visit c force w t) ≡ taken w ++ (if is_due c t then t ∷ [] else [])
  unfolding visit visit_blocking is_due
  taken-visit b t w o = elim (Bool-cases (has c.reserved t)) [
    | inl e ↦ rw e (taken-flush w ∙ sym (append-nil (taken w)))
    | inr e ↦ elim (Option-cases (get c.ledger t)) [
      | inl f ↦ rw (e, f, visit, is_due) (sym (append-nil (taken w)))
      | inr (s, f) ↦ rw (e, f, visit, is_due) (taken-visit_state b t w s o)
    ]
  ]

  covered-walk :
      (b : ℕ) (w : Progress) (ts : List ℕ)
      → Above b ts
      → InOrder b w
      → (walk c force w ts).covered ≡ taken w ++ keep (is_due c) ts
  unfolding walk
  covered-walk b w [] a o = rw (flush_run_lem c force w w.run refl) (sym (append-nil (taken w)))
  covered-walk b w (t ∷ ts) a o =
      covered-walk (suc t) (visit c force w t) ts a.1 (InOrder-visit c force b t w a.0 o)
      ∙ ap (λ l. l ++ keep (is_due c) ts) (taken-visit b t w o)
      ∙ append_assoc (taken w) (if is_due c t then t ∷ [] else []) (keep (is_due c) ts)
      ∙ ap (◌++◌ (taken w)) (keep_step t ts)
    where
      keep_step :
          (t : ℕ) (ts : List ℕ)
          → (if is_due c t then t ∷ [] else []) ++ keep (is_due c) ts ≡ keep (is_due c) (t ∷ ts)
      keep_step t ts = ground arith

  -- A plan of a well-formed ledger that holds no ack back (`force_individual`, no `coalesce`, or a
  -- `max_hold` of 0) covers the tags that are due, all of them, each once, in ledger order: those not
  -- reserved whose state is SUCCESS, NACK or REJECT.
  pub plan_locked_due :
      IsLedger c → all_covers (plan_locked c force).0 ≡ keep (is_due c) (keys c.ledger)
  unfolding begin
  plan_locked_due i =
      plan_locked_covers c force i
      ∙ plan_locked_covered c force i
      ∙ covered-walk 0 (begin c) (keys c.ledger) (keys-Above c i) (InOrder-begin c)
