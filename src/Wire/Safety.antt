-- ===== src/Wire/Safety.antt =====
-- A plan, sent in order, acknowledges nothing but approved deliveries.
use rabbitkit.Prelude.{
  ℕ, suc, ◌≤◌, ◌<◌, ◌≡◌, Bool, true, ◌⊎◌, inl, inr, List, [], ◌∷◌, arith, Above, contains,
  contains-Above, Bool-cases, Option-cases, some,
}
use rabbitkit.Prelude.Dict.{get, has, keys, contains-keys}
use rabbitkit.Types.{success}
use rabbitkit.Coordinator.{Coordinator}
use rabbitkit.Coordinator.Invariant.{IsLedger, keys-Above}
use rabbitkit.Plan.Walk.{Progress, visit, walk, begin, plan_locked}
use rabbitkit.Plan.Order.{InOrder, InOrder-begin, InOrder-mono, InOrder-visit, plan_locked_commands}
use rabbitkit.Wire.{Safe}
use rabbitkit.Wire.Walked.{
  Low, Walked, Walked-mono, Walked-visit_state, Walked-visit_blocking, flush-Safe,
}

-- Why the ledger may leave out an unacknowledged tag.
abbrev pub Accounted : Coordinator → (ℕ → Bool) → ℕ → Type 0
Accounted c approved u =
    (has c.ledger u ≡ true)
    ⊎ (approved u ≡ true)
    ⊎ (c.last_registered < u)
    ⊎ ((0 < c.gap_floor) × (c.gap_floor ≤ u))

-- What a ledger knows of a channel.
pub record Knows (c : Coordinator) (approved unacked : ℕ → Bool) : Type 0 where
  pub shape : IsLedger c
  pub accounted : (u : ℕ) → unacked u ≡ true → Accounted c approved u
  pub successes : (u : ℕ) → get c.ledger u ≡ some success → approved u ≡ true

module _ (c : Coordinator) (force : Bool) (approved unacked : ℕ → Bool)
    (k : Knows c approved unacked) where
  -- The tags from `b` on that are still to be walked are those of the ledger.
  record Covers (b : ℕ) (ts : List ℕ) : Type 0 where
    above : Above b ts
    held : (u : ℕ) → contains ts u ≡ true → has c.ledger u ≡ true
    rest : (u : ℕ) → has c.ledger u ≡ true → b ≤ u → contains ts u ≡ true

  Covers-tail : (b t : ℕ) (ts : List ℕ) → Covers b (t ∷ ts) → Covers (suc t) ts
  Covers-tail b t ts v = record {
    above = v.above.1;
    held = λ u e. v.held u (ground arith);
    rest = λ u e h. ground (arith, v.rest u e);
  }

  -- Between `b` and the next tag, everything unacknowledged below the gap is approved.
  skipped :
      (b t : ℕ) (ts : List ℕ)
      → Covers b (t ∷ ts)
      → (u : ℕ) → unacked u ≡ true
      → b ≤ u
      → u < t
      → Low c u
      → approved u ≡ true
  skipped b t ts v u e h l low = elim (k.accounted u e) [
    | inl found ↦
        absurd
          (omega (arith, contains-Above t u (t ∷ ts) (omega arith, v.above.1) (v.rest u found h)))
    | inr (inl fine) ↦ fine
    | inr (inr (inl late)) ↦
        absurd (omega (arith, late, k.shape.up_to_last t (v.held t (ground arith))))
    | inr (inr (inr (gap, far))) ↦ absurd (omega (arith, low gap))
  ]

  Walked-visit :
      (t : ℕ) (w : Progress)
      → InOrder t w
      → Walked c approved unacked t w
      → has c.ledger t ≡ true
      → Walked c approved unacked (suc t) (visit c force w t)
  unfolding visit
  Walked-visit t w o h held = elim (Bool-cases (has c.reserved t)) [
    | inl e ↦ rw e (Walked-visit_blocking c force approved unacked t (suc t) w o h)
    | inr e ↦ elim (Option-cases (get c.ledger t)) [
      | inl f ↦ absurd (ground arith)
      | inr (s, f) ↦
          rw (e, f, visit)
            (Walked-visit_state c force approved unacked t w s
              (λ same. k.successes t (rw (f, same))) o h)
    ]
  ]

  walk-Safe :
      (b : ℕ) (w : Progress) (ts : List ℕ)
      → Covers b ts
      → InOrder b w
      → Walked c approved unacked b w
      → Safe approved unacked (walk c force w ts).commands
  unfolding walk
  walk-Safe b w [] v o h = flush-Safe c force approved unacked b w o h
  walk-Safe b w (t ∷ ts) v o h =
      let there : InOrder t w = InOrder-mono c force b t w v.above.0 o in
      walk-Safe (suc t) (visit c force w t) ts (Covers-tail b t ts v)
        (InOrder-visit c force t t w (omega arith) there)
        (Walked-visit t w there (Walked-mono c force approved unacked b t w (skipped b t ts v) h)
          (v.held t (ground arith)))

  Covers-all : Covers 0 (keys c.ledger)
  Covers-all = record {
    above = keys-Above c k.shape;
    held = λ u e. rw (← contains-keys c.ledger u) e;
    rest = λ u e _. rw contains-keys e;
  }

  -- If the coordinator knows the channel (its ledger is well formed, an unacknowledged delivery is in
  -- the ledger, approved, not yet registered or past the first gap, and SUCCESS entries are approved),
  -- then the frames of its plan, sent in order, acknowledge no unacknowledged delivery but approved
  -- ones, the cumulative frames included.
  pub plan_locked-Safe : Safe approved unacked (plan_locked c force).0
  unfolding begin
  plan_locked-Safe = rw (plan_locked_commands c force k.shape) (
      walk-Safe 0 (begin c) (keys c.ledger) Covers-all (InOrder-begin c)
        (record { sent = tt; clear = λ _ u _ l _. absurd (omega arith); ready = tt }))
