-- ===== src/Emit/Ledger.antt =====
-- core/settlement.py, `emit_batch`: what it takes from the ledger.
use rabbitkit.Prelude.{
  ℕ, ◌≡◌, refl, sym, ap, ◌∙◌, Bool, true, false, none, List, [], ◌∷◌, ◌++◌, map, arith, inl, inr,
  Bool-cases, contains, contains-append, if◌then◌else◌, ◌==◌,
}
use rabbitkit.Prelude.Dict.{get}
use rabbitkit.Coordinator.{Coordinator}
use rabbitkit.Plan.Walk.{SettlementCommand}
use rabbitkit.Plan.{SettlementBatch, commit_command, fail_command, must_invalidate, unresolve}
use rabbitkit.Plan.Coverage.{all_covers}
use rabbitkit.Plan.Settled.{commit_command-Without, unresolve-Without, release_commands-SameLedger}
use rabbitkit.Emit.{Frame, emit_one, apply_commands, on_failure, emit_from, emit_batch}

-- The ledger without the entries of `tags`.
abbrev LeftOut : List ℕ → Coordinator → Coordinator → ℕ → Type 0
LeftOut tags c d u = get d.ledger u ≡ (if contains tags u then none else get c.ledger u)

LeftOut-append :
    (xs ys : List ℕ) (c d e : Coordinator) (u : ℕ)
    → LeftOut xs c d u
    → LeftOut ys d e u
    → LeftOut (xs ++ ys) c e u
LeftOut-append xs ys c d e u h k = ground (arith, contains-append xs ys u)

on_failure-LeftOut :
    (batch : SettlementBatch) (sent : List SettlementCommand) (x : SettlementCommand)
    (rest : List SettlementCommand) (c : Coordinator) (u : ℕ)
    → batch.generation ≡ c.generation
    → (on_failure batch sent x rest c).0.invalidated ≡ false
    → LeftOut x.covers c (on_failure batch sent x rest c).1 u
unfolding on_failure fail_command
on_failure-LeftOut batch sent x rest c u e =
    let same : (batch.generation == c.generation) ≡ true = ground arith in
    elim (Bool-cases (must_invalidate x.kind)) [
      | inl m ↦ rw (same, m) λ h. absurd (ground arith)
      | inr m ↦
          rw (same, m)
            λ h.
              ap (λ l. get l u) (release_commands-SameLedger (unresolve c x) batch rest).ledger
              ∙ (unresolve-Without c x).entries u
    ]

module _ {W : Type 0} (wire : Frame → W → W × Bool) where
  -- The commands that are put on the wire.
  abbrev pub attempted : List SettlementCommand → W → List SettlementCommand
  attempted xs w = map (λ y. y.0) (apply_commands wire xs w).0

  emit_from-LeftOut :
      (batch : SettlementBatch) (sent xs : List SettlementCommand) (c : Coordinator) (w : W) (u : ℕ)
      → batch.generation ≡ c.generation
      → (emit_from wire batch sent xs c w).0.invalidated ≡ false
      → LeftOut (all_covers (attempted xs w)) c (emit_from wire batch sent xs c w).1 u
  unfolding emit_from apply_commands
  emit_from-LeftOut batch sent [] c w u e = λ h. refl
  emit_from-LeftOut batch sent (x ∷ xs) c w u e =
      let done = commit_command-Without c batch x e in
      elim (Bool-cases (wire (emit_one x) w).1) [
        | inl f ↦ rw f λ h.
            LeftOut-append x.covers (all_covers (attempted xs (wire (emit_one x) w).0)) c
              (commit_command c batch x)
              (emit_from wire batch (sent ++ x ∷ []) xs (commit_command c batch x)
                (wire (emit_one x) w).0).1
              u (done.entries u)
              (emit_from-LeftOut batch (sent ++ x ∷ []) xs (commit_command c batch x)
                (wire (emit_one x) w).0 u (e ∙ sym done.generation) h)
        | inr f ↦ rw f λ h.
            LeftOut-append x.covers [] c (on_failure batch sent x xs c).1
              (on_failure batch sent x xs c).1 u (on_failure-LeftOut batch sent x xs c u e h) refl
      ]

  -- For a batch of the coordinator's generation, where `emit_batch` has not invalidated it: exactly the
  -- tags that the attempted commands cover have left the ledger, those of the one that failed included,
  -- and every other entry is as it was, those of the commands not attempted included.
  pub get-emit_batch :
      (batch : SettlementBatch) (c : Coordinator) (w : W) (u : ℕ)
      → batch.generation ≡ c.generation
      → (emit_batch wire batch c w).0.invalidated ≡ false
      → get (emit_batch wire batch c w).1.ledger u
        ≡ (if contains (all_covers (attempted batch.commands w)) u then none else get c.ledger u)
  unfolding emit_batch
  get-emit_batch batch c w u e h = emit_from-LeftOut batch [] batch.commands c w u e h
