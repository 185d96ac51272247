-- ===== src/Coordinator/Frontier.antt =====
-- core/settlement.py, `frontier`: the end of the leading run of SUCCESS entries.
use rabbitkit.Prelude.{
  ℕ, suc, ◌≤◌, ◌<◌, ◌≡◌, refl, ap, ◌∙◌, ◌⊎◌, true, ◌&&◌, some, List, [], ◌∷◌, arith, ltb, ◌==◌,
  ==→eq, Above, contains, contains-Above, Bool-cases, Option-cases, inl, inr,
}
use rabbitkit.Prelude.Dict.{Dict, get, has, keys, contains-keys}
use rabbitkit.Types.{DeliveryState, success, is_ack_safe}
use rabbitkit.Coordinator.{Coordinator}
use rabbitkit.Coordinator.Invariant.{IsLedger, sorted_tags-keys}
use rabbitkit.Coordinator.Views.{frontier_from, frontier}

is_ack_safe-eq : (s : DeliveryState) → is_ack_safe s ≡ true → s ≡ success
unfolding is_ack_safe
is_ack_safe-eq s e = ground arith

-- The loop goes on past a tag, whose entry is then SUCCESS, or it ends with what it has.
frontier_from-cases :
    (gap_floor : ℕ) (ledger : Dict DeliveryState) (f u : ℕ) (ts : List ℕ)
    → (frontier_from gap_floor ledger f (u ∷ ts) ≡ f)
      ⊎ ((get ledger u ≡ some success)
          × (frontier_from gap_floor ledger f (u ∷ ts) ≡ frontier_from gap_floor ledger u ts))
unfolding frontier_from
frontier_from-cases gap_floor ledger f u ts =
    elim (Bool-cases (ltb 0 gap_floor && ltb gap_floor u)) [
      | inl g ↦ inl (rw g refl)
      | inr g ↦ elim (Option-cases (get ledger u)) [
        | inl e ↦ inl (rw (g, e) refl)
        | inr (s, e) ↦ elim (Bool-cases (is_ack_safe s)) [
          | inl k ↦ inr (e ∙ ap some (is_ack_safe-eq s k), rw (g, e, k) refl)
          | inr k ↦ inl (rw (g, e, k) refl)
        ]
      ]
    ]

frontier_from-success :
    (gap_floor : ℕ) (ledger : Dict DeliveryState) (n f : ℕ) (ts : List ℕ) (t : ℕ)
    → f < n
    → Above n ts
    → contains ts t ≡ true
    → t ≤ frontier_from gap_floor ledger f ts
    → get ledger t ≡ some success
unfolding frontier_from
frontier_from-success gap_floor ledger n f [] t h a e l = absurd (ground arith)
frontier_from-success gap_floor ledger n f (u ∷ ts) t h a e l =
    elim (frontier_from-cases gap_floor ledger f u ts) [
      | inl stop ↦ absurd (omega (arith, contains-Above n t (u ∷ ts) a e, h, (rw stop at l)))
      | inr (found, on) ↦ elim (Bool-cases (u == t)) [
        | inl same ↦ rw (← ==→eq u t same) found
        | inr other ↦
            frontier_from-success gap_floor ledger (suc u) u ts t (omega arith) a.1 (ground arith)
              (rw on at l)
      ]
    ]

-- In a well-formed ledger, every entry up to the frontier is SUCCESS.
pub frontier-success :
    (c : Coordinator) (t : ℕ)
    → IsLedger c
    → has c.ledger t ≡ true
    → t ≤ frontier c
    → get c.ledger t ≡ some success
unfolding frontier
frontier-success c t i h = rw (sorted_tags-keys c i) λ l.
    frontier_from-success c.gap_floor c.ledger 1 0 (keys c.ledger) t (omega arith) i.ascending
      (rw contains-keys h) l
