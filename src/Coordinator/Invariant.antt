-- ===== src/Coordinator/Invariant.antt =====
-- The shape of a ledger: its tags ascend up to the last registered one, and its gap lies below that.
use rabbitkit.Prelude.{
  ℕ, suc, ◌≤◌, ◌<◌, ◌≡◌, sym, ap, subst, ◌⊎◌, Bool, true, List, [], ◌∷◌, arith, inl, inr, Above,
  Above-mono, All, All-contains, length, Bool-cases, Option-cases, some, Option,
}
use rabbitkit.Prelude.Dict.{
  get, has, keys, get-put, get-pop, contains-keys, Above-pop, keys-put_old, Above-put_new,
  length-put_le, length-put_old, length-pop_le,
}
use rabbitkit.Prelude.Sort.{sort_by_id, Ordered}
use rabbitkit.Types.{DeliveryState, outstanding}
use rabbitkit.Coordinator.{
  Coordinator, ok, init, registered, register, intended, set_intent, release, invalidate,
  sorted_tags, same_state, can_become,
}

pub record IsLedger (c : Coordinator) : Type 0 where
  pub ascending : Above 1 (keys c.ledger)
  pub up_to_last : (t : ℕ) → has c.ledger t ≡ true → t ≤ c.last_registered
  pub gap_known : c.gap_floor ≤ c.last_registered
  pub bounded : 0 < c.max_pending → length c.ledger ≤ c.max_pending

-- Ascending tags are sorted already.
Above-Ordered : (n m : ℕ) (ts : List ℕ) → m ≤ n → Above n ts → Ordered (λ t. t) m ts
Above-Ordered n m [] h a = tt
Above-Ordered n m (t ∷ ts) h a = (omega arith, Above-Ordered (suc t) t ts (omega arith) a.1)

pub sorted_tags-keys : (c : Coordinator) → IsLedger c → sorted_tags c ≡ keys c.ledger
unfolding sorted_tags
sorted_tags-keys c i =
    sort_by_id (λ t. t) 0 (keys c.ledger)
      (Above-Ordered 1 0 (keys c.ledger) (omega arith) i.ascending)

pub keys-Above : (c : Coordinator) → IsLedger c → Above 0 (keys c.ledger)
keys-Above c i = Above-mono 0 1 (keys c.ledger) (omega arith) i.ascending

pub keys-le_last :
    (c : Coordinator) → IsLedger c → All (λ t. t < suc c.last_registered) (keys c.ledger)
keys-le_last c i =
    All-contains (λ t. t < suc c.last_registered) (keys c.ledger)
      λ t e. omega (arith, i.up_to_last t (rw (← contains-keys c.ledger t) e))

pub init-IsLedger : (g : ℕ) (b : Bool) (h p : ℕ) → IsLedger (init g b h p)
unfolding init get
init-IsLedger g b h p = record {
  ascending = tt;
  up_to_last = λ t e. ground arith;
  gap_known = omega arith;
  bounded = λ e. omega arith;
}

-- What a registration that succeeds has passed.
pub register-eq-ok :
    (c d : Coordinator) (tag now : ℕ)
    → register c tag now ≡ ok d
    → (registered c tag now ≡ d)
      × (c.last_registered < tag)
      × (0 < c.max_pending → length c.ledger < c.max_pending)
unfolding register
register-eq-ok c d tag now e = (ground arith, ground arith, λ h. ground arith)

pub same_state-eq : (a b : DeliveryState) → same_state a b ≡ true → a ≡ b
unfolding same_state
same_state-eq a b h = ground arith

-- A decision that succeeds repeats the old one, or follows a legal transition.
pub set_intent-eq-ok :
    (c d : Coordinator) (tag : ℕ) (s : DeliveryState) (r : Option Bool)
    → set_intent c tag s r ≡ ok d
    → ((c ≡ d) × (get c.ledger tag ≡ some s))
      ⊎ ((old : DeliveryState) × (get c.ledger tag ≡ some old)
          × (can_become old s ≡ true)
          × (intended c tag s r ≡ d))
unfolding set_intent
set_intent-eq-ok c d tag s r e = elim (Option-cases (get c.ledger tag)) [
  | inl f ↦ ground arith
  | inr (old, f) ↦ elim (Bool-cases (same_state old s)) [
    | inl g ↦ inl (ground arith, ground (arith, same_state-eq old s))
    | inr g ↦ inr (old, f, ground arith, ground arith)
  ]
]

registered-IsLedger :
    (c : Coordinator) (tag now : ℕ)
    → IsLedger c
    → c.last_registered < tag
    → (0 < c.max_pending → length c.ledger < c.max_pending)
    → IsLedger (registered c tag now)
unfolding registered
registered-IsLedger c tag now i after room = record {
  ascending =
      Above-put_new 1 tag outstanding c.ledger (omega arith)
        (λ j e. omega (arith, i.up_to_last j e)) i.ascending;
  up_to_last = λ t e. ground (arith, get-put tag t outstanding c.ledger, i.up_to_last t);
  gap_known = ground (arith, i.gap_known);
  bounded = λ h. omega (arith, room h, length-put_le tag outstanding c.ledger);
}

pub register-IsLedger :
    (c d : Coordinator) (tag now : ℕ) → IsLedger c → register c tag now ≡ ok d → IsLedger d
register-IsLedger c d tag now i e =
    let (same, after, room) = register-eq-ok c d tag now e in
    subst IsLedger same (registered-IsLedger c tag now i after room)

pub last_registered-register :
    (c d : Coordinator) (tag now : ℕ) → register c tag now ≡ ok d → d.last_registered ≡ tag
unfolding registered
last_registered-register c d tag now e = ground (arith, register-eq-ok c d tag now e)

pub generation-register :
    (c d : Coordinator) (tag now : ℕ) → register c tag now ≡ ok d → d.generation ≡ c.generation
unfolding registered
generation-register c d tag now e = ground (arith, register-eq-ok c d tag now e)

pub generation-set_intent :
    (c d : Coordinator) (tag : ℕ) (s : DeliveryState) (r : Option Bool)
    → set_intent c tag s r ≡ ok d
    → d.generation ≡ c.generation
unfolding intended
generation-set_intent c d tag s r e = elim (set_intent-eq-ok c d tag s r e) [
  | inl (same, _) ↦ ap (λ (x : Coordinator). x.generation) (sym same)
  | inr (_, _, _, same) ↦ ap (λ (x : Coordinator). x.generation) (sym same)
]

pub last_registered-set_intent :
    (c d : Coordinator) (tag : ℕ) (s : DeliveryState) (r : Option Bool)
    → set_intent c tag s r ≡ ok d
    → d.last_registered ≡ c.last_registered
unfolding intended
last_registered-set_intent c d tag s r e = elim (set_intent-eq-ok c d tag s r e) [
  | inl (same, _) ↦ ap (λ (x : Coordinator). x.last_registered) (sym same)
  | inr (_, _, _, same) ↦ ap (λ (x : Coordinator). x.last_registered) (sym same)
]

intended-IsLedger :
    (c : Coordinator) (tag : ℕ) (s old : DeliveryState) (r : Option Bool)
    → IsLedger c
    → get c.ledger tag ≡ some old
    → IsLedger (intended c tag s r)
unfolding intended
intended-IsLedger c tag s old r i e = record {
  ascending = rw (keys-put_old tag s c.ledger (rw e)) i.ascending;
  up_to_last = λ t h. ground (arith, get-put tag t s c.ledger, i.up_to_last t);
  gap_known = i.gap_known;
  bounded = λ h. rw (length-put_old tag s c.ledger (rw e)) (i.bounded h);
}

pub set_intent-IsLedger :
    (c d : Coordinator) (tag : ℕ) (s : DeliveryState) (r : Option Bool)
    → IsLedger c
    → set_intent c tag s r ≡ ok d
    → IsLedger d
set_intent-IsLedger c d tag s r i e = elim (set_intent-eq-ok c d tag s r e) [
  | inl (same, _) ↦ subst IsLedger same i
  | inr (old, f, _, same) ↦ subst IsLedger same (intended-IsLedger c tag s old r i f)
]

pub release-IsLedger : (c : Coordinator) (tag : ℕ) → IsLedger c → IsLedger (release c tag)
unfolding release
release-IsLedger c tag i = record {
  ascending = Above-pop 1 tag c.ledger i.ascending;
  up_to_last = λ t e. i.up_to_last t (ground (arith, get-pop tag t c.ledger));
  gap_known = i.gap_known;
  bounded = λ h. omega (arith, i.bounded h, length-pop_le tag c.ledger);
}

pub invalidate-IsLedger : (c : Coordinator) → IsLedger (invalidate c).0
unfolding invalidate get
invalidate-IsLedger c = record {
  ascending = tt;
  up_to_last = λ t e. ground arith;
  gap_known = omega arith;
  bounded = λ e. omega arith;
}
