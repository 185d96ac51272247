-- ===== src/Coordinator/Intents.antt =====
-- core/settlement.py, `_set_intent`: sequences of settlement decisions.
use rabbitkit.Prelude.{
  ℕ, ◌≡◌, ◌≢◌, refl, subst, Bool, true, false, Option, none, some, List, [], ◌∷◌, arith, inl, inr,
  ◌==◌, Bool-cases,
}
use rabbitkit.Prelude.Dict.{get, get-put}
use rabbitkit.Types.{DeliveryState, outstanding, success, retry_pending}
use rabbitkit.Coordinator.{
  Coordinator, Result, ok, err, set_intent, intended, can_become, same_state,
}
use rabbitkit.Coordinator.Invariant.{set_intent-eq-ok}

-- A decision that raises leaves the coordinator as it was.
abbrev pub settle_or : Coordinator → Result Coordinator → Coordinator
settle_or c (ok d) = d
settle_or c (err e) = c

pub decide_all : Coordinator → List (ℕ × DeliveryState × Option Bool) → Coordinator
decide_all c [] = c
decide_all c ((tag, s, r) ∷ rest) = decide_all (settle_or c (set_intent c tag s r)) rest

-- The states from which a delivery can still be approved for an ack.
abbrev pub may_succeed : DeliveryState → Bool
may_succeed outstanding = true
may_succeed retry_pending = true
may_succeed success = true
may_succeed _ = false

stays_hopeless :
    (a b : DeliveryState) → can_become a b ≡ true → may_succeed a ≡ false → may_succeed b ≡ false
unfolding can_become
stays_hopeless a b h k = ground arith

abbrev Hopeless : Coordinator → ℕ → Type 0
Hopeless c tag = (s : DeliveryState) × (get c.ledger tag ≡ some s) × (may_succeed s ≡ false)

intended-Hopeless :
    (c : Coordinator) (tag t : ℕ) (s old : DeliveryState) (r : Option Bool)
    → get c.ledger t ≡ some old
    → can_become old s ≡ true
    → Hopeless c tag
    → Hopeless (intended c t s r) tag
unfolding intended
intended-Hopeless c tag t s old r f legal (a, e, no_hope) = elim (Bool-cases (t == tag)) [
  | inl here ↦
      (s, ground (arith, get-put t tag s c.ledger), stays_hopeless old s legal (ground arith))
  | inr elsewhere ↦ (a, ground (arith, get-put t tag s c.ledger), no_hope)
]

set_intent-Hopeless :
    (c : Coordinator) (tag t : ℕ) (s : DeliveryState) (r : Option Bool) (x : Result Coordinator)
    → set_intent c t s r ≡ x
    → Hopeless c tag
    → Hopeless (settle_or c x) tag
set_intent-Hopeless c tag t s r (err e) f h = h
set_intent-Hopeless c tag t s r (ok d) f h = elim (set_intent-eq-ok c d t s r f) [
  | inl (same, _) ↦ subst (λ x. Hopeless x tag) same h
  | inr (old, g, legal, same) ↦
      subst (λ x. Hopeless x tag) same (intended-Hopeless c tag t s old r g legal h)
]

-- A delivery that failed, was cancelled, or is to be nacked or rejected is approved for an ack by
-- no sequence of decisions, of which those that raise change nothing.
pub decide_all-ne-success :
    (ds : List (ℕ × DeliveryState × Option Bool)) (c : Coordinator) (tag : ℕ) (s : DeliveryState)
    → get c.ledger tag ≡ some s
    → may_succeed s ≡ false
    → get (decide_all c ds).ledger tag ≢ some success
unfolding decide_all
decide_all-ne-success [] c tag s e h = λ f. ground arith
decide_all-ne-success ((t, s', r) ∷ ds) c tag s e h =
    let (a, f, g) = set_intent-Hopeless c tag t s' r (set_intent c t s' r) refl (s, e, h) in
    decide_all-ne-success ds (settle_or c (set_intent c t s' r)) tag a f g

same_state_refl : (s : DeliveryState) → same_state s s ≡ true
unfolding same_state
same_state_refl success = refl
same_state_refl _ = refl

intended_idem :
    (c : Coordinator) (tag : ℕ) (s : DeliveryState) (r : Option Bool)
    → set_intent (intended c tag s r) tag s r ≡ ok (intended c tag s r)
unfolding set_intent intended
intended_idem c tag s none = ground (arith, get-put tag tag s c.ledger, same_state_refl s)
intended_idem c tag s (some true) =
    ground (arith, get-put tag tag s c.ledger, get-put tag tag true c.requeue, same_state_refl s)
intended_idem c tag s (some false) =
    ground (arith, get-put tag tag s c.ledger, get-put tag tag false c.requeue, same_state_refl s)

-- Once a decision has succeeded, the same decision succeeds again and changes nothing.
pub set_intent_idem :
    (c d : Coordinator) (tag : ℕ) (s : DeliveryState) (r : Option Bool)
    → set_intent c tag s r ≡ ok d
    → set_intent d tag s r ≡ ok d
set_intent_idem c d tag s r e = elim (set_intent-eq-ok c d tag s r e) [
  | inl (same, _) ↦ subst (λ x. set_intent x tag s r ≡ ok d) same e
  | inr (_, _, _, same) ↦ subst (λ x. set_intent x tag s r ≡ ok x) same (intended_idem c tag s r)
]
