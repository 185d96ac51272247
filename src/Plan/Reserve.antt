-- ===== src/Plan/Reserve.antt =====
-- core/settlement.py, `prepare`: a batch in flight is planned once.
use rabbitkit.Prelude.{
  ℕ, ◌≡◌, refl, Bool, true, false, ◌||◌, List, [], ◌∷◌, arith, ◌⊎◌, inl, inr, Bool-cases, contains,
}
use rabbitkit.Prelude.Dict.{Dict, has, put, get-put}
use rabbitkit.Coordinator.{Coordinator}
use rabbitkit.Coordinator.Invariant.{IsLedger}
use rabbitkit.Plan.Walk.{plan_locked}
use rabbitkit.Plan.{prepare, prepare_walked, reserve}
use rabbitkit.Plan.Settled.{prepare-SameLedger, SameLedger-IsLedger, prepare-commands}
use rabbitkit.Plan.Coverage.{all_covers, plan_locked_covers, covered-IsDue}

has-reserve :
    (b : ℕ) (ts : List ℕ) (d : Dict ℕ) (t : ℕ) → has (reserve b ts d) t ≡ (contains ts t || has d t)
unfolding reserve
has-reserve b [] d t = refl
has-reserve b (x ∷ ts) d t = ground (arith, has-reserve b ts (put x b d) t, get-put x t b d)

module _ (c : Coordinator) (force : Bool) (i : IsLedger c) where
  prepare-cases :
      (prepare c force ≡ (record { commands = []; generation = c.generation; batch_id = 0 }, c))
      ⊎ (prepare c force ≡ prepare_walked c (plan_locked c force))
  unfolding prepare
  prepare-cases = ground arith

  -- What a batch covers is reserved.
  pub prepare_reserves :
      (t : ℕ)
      → contains (all_covers (prepare c force).0.commands) t ≡ true
      → has (prepare c force).1.reserved t ≡ true
  unfolding prepare_walked
  prepare_reserves t = elim prepare-cases [
    | inl e ↦ rw e (λ h. cc)
    | inr e ↦ rw (e, has-reserve, plan_locked_covers c force i) λ h. ground arith
  ]

  -- For a well-formed ledger: a second batch, prepared right after the first and before any of its
  -- commands is committed, failed or released, covers none of the tags that the first covers.
  pub prepare_twice :
      (again : Bool) (t : ℕ)
      → contains (all_covers (prepare c force).0.commands) t ≡ true
      → contains (all_covers (prepare (prepare c force).1 again).0.commands) t ≡ false
  prepare_twice again t h = elim (prepare-commands (prepare c force).1 again) [
    | inl e ↦ rw e refl
    | inr e ↦ rw e (elim (Bool-cases (contains (all_covers (plan_locked d again).0) t)) [
      | inl f ↦ absurd (ground (arith, prepare_reserves t h, (covered-IsDue d again t shape f).0))
      | inr f ↦ f
    ])
  ]
    where
      d : Coordinator
      d = (prepare c force).1

      shape : IsLedger d
      shape = SameLedger-IsLedger c d (prepare-SameLedger c force) i
