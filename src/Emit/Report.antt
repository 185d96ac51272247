-- ===== src/Emit/Report.antt =====
-- core/settlement.py, `emit_batch`: what its report says, and what it has sent.
use rabbitkit.Prelude.{
  ◌≡◌, refl, ap, ◌∙◌, Bool, true, false, Option, none, some, List, [], ◌∷◌, ◌++◌, map, inl, inr,
  Bool-cases,
}
use rabbitkit.Coordinator.{Coordinator}
use rabbitkit.Plan.Walk.{SettlementCommand}
use rabbitkit.Plan.{SettlementBatch, commit_command}
use rabbitkit.Emit.{Frame, emit_one, apply_commands, on_failure, emit_from, emit_batch}

abbrev pub attempts : Option SettlementCommand → List (SettlementCommand × Bool)
attempts none = []
attempts (some x) = (x, false) ∷ []

marks_snoc :
    (xs : List SettlementCommand) (x : SettlementCommand) (ys : List (SettlementCommand × Bool))
    → map (λ y. (y, true)) (xs ++ x ∷ []) ++ ys ≡ map (λ y. (y, true)) xs ++ ((x, true) ∷ ys)
marks_snoc [] x ys = refl
marks_snoc (y ∷ xs) x ys = ap (◌∷◌ (y, true)) (marks_snoc xs x ys)

module _ {W : Type 0} (wire : Frame → W → W × Bool) where
  emit_from-apply_commands :
      (batch : SettlementBatch) (sent xs : List SettlementCommand) (c : Coordinator) (w : W)
      → let done = emit_from wire batch sent xs c w in
        (map (λ x. (x, true)) done.0.emitted ++ attempts done.0.failed
          ≡ map (λ x. (x, true)) sent ++ (apply_commands wire xs w).0)
        × (done.2 ≡ (apply_commands wire xs w).1)
  unfolding emit_from on_failure apply_commands
  emit_from-apply_commands batch sent [] c w = (refl, refl)
  emit_from-apply_commands batch sent (x ∷ xs) c w = elim (Bool-cases (wire (emit_one x) w).1) [
    | inl e ↦
        let (w', _) = wire (emit_one x) w in
        let rest =
          emit_from-apply_commands batch (sent ++ x ∷ []) xs (commit_command c batch x) w' in
        rw e (rest.0 ∙ marks_snoc sent x (apply_commands wire xs w').0, rest.1)
    | inr e ↦ rw e (refl, refl)
  ]

  -- `emit_batch` makes the calls of `apply_commands`: the reports agree on each attempt and how it
  -- ended, and the wire is left the same, so no call follows one that failed.
  pub emit_batch-apply_commands :
      (batch : SettlementBatch) (c : Coordinator) (w : W)
      → let done = emit_batch wire batch c w in
        (map (λ x. (x, true)) done.0.emitted ++ attempts done.0.failed
          ≡ (apply_commands wire batch.commands w).0)
        × (done.2 ≡ (apply_commands wire batch.commands w).1)
  unfolding emit_batch
  emit_batch-apply_commands batch c w = emit_from-apply_commands batch [] batch.commands c w
