-- ===== src/Wire.antt =====
-- Sets of unacknowledged tags under a sequence of commands, and when a sequence is safe to send.
pub mod Walked
pub mod Safety
pub mod Honest
pub mod Knows
use rabbitkit.Prelude.{
  ℕ, suc, ◌≤◌, ◌<◌, ◌≡◌, refl, Bool, true, false, not, ◌&&◌, ◌||◌, List, [], ◌∷◌, ◌++◌, map, arith,
  ◌⊎◌, leb, ◌==◌, if◌then◌else◌, All, inl, inr, ==→eq, Bool-cases,
}
use rabbitkit.Plan.Walk.{SettlementCommand, ack_one}
use rabbitkit.Emit.{emit_one}
use rabbitkit.Broker.{names, is_ack}

-- What a command leaves unacknowledged.
abbrev pub left : (ℕ → Bool) → SettlementCommand → ℕ → Bool
left unacked command u = unacked u && not (names (emit_one command) u)

abbrev pub left_all : (ℕ → Bool) → List SettlementCommand → ℕ → Bool
left_all unacked [] = unacked
left_all unacked (command ∷ commands) = left_all (left unacked command) commands

-- A command acknowledges approved deliveries only.
abbrev pub FrameSafe : (ℕ → Bool) → (ℕ → Bool) → SettlementCommand → Type 0
FrameSafe approved unacked command =
    (u : ℕ)
    → unacked u ≡ true
    → is_ack (emit_one command) ≡ true
    → names (emit_one command) u ≡ true
    → approved u ≡ true

-- So does each command of a sequence that is sent in order.
abbrev pub Safe : (ℕ → Bool) → (ℕ → Bool) → List SettlementCommand → Type 0
Safe approved unacked [] = Unit {0}
Safe approved unacked (command ∷ commands) =
    FrameSafe approved unacked command × Safe approved (left unacked command) commands

pub left_all-append :
    (unacked : ℕ → Bool) (xs ys : List SettlementCommand)
    → left_all unacked (xs ++ ys) ≡ left_all (left_all unacked xs) ys
left_all-append unacked [] ys = refl
left_all-append unacked (x ∷ xs) ys = left_all-append (left unacked x) xs ys

pub left_all_le :
    (unacked : ℕ → Bool) (xs : List SettlementCommand) (u : ℕ)
    → left_all unacked xs u ≡ true
    → unacked u ≡ true
left_all_le unacked [] u h = h
left_all_le unacked (x ∷ xs) u h =
    let rest : left unacked x u ≡ true = left_all_le (left unacked x) xs u h in ground arith

pub Safe-append :
    (approved unacked : ℕ → Bool) (xs ys : List SettlementCommand)
    → Safe approved unacked xs
    → Safe approved (left_all unacked xs) ys
    → Safe approved unacked (xs ++ ys)
Safe-append approved unacked [] ys h k = k
Safe-append approved unacked (x ∷ xs) ys h k =
    (h.0, Safe-append approved (left unacked x) xs ys h.1 k)

-- Fewer unacknowledged deliveries and more approved ones keep a sequence safe.
pub Safe-mono :
    (approved approved' unacked unacked' : ℕ → Bool) (xs : List SettlementCommand)
    → ((u : ℕ) → approved u ≡ true → approved' u ≡ true)
    → ((u : ℕ) → unacked' u ≡ true → unacked u ≡ true)
    → Safe approved unacked xs
    → Safe approved' unacked' xs
Safe-mono approved approved' unacked unacked' [] f g h = tt
Safe-mono approved approved' unacked unacked' (x ∷ xs) f g h = (
  λ u e k n. f u (h.0 u (g u e) k n),
  Safe-mono approved approved' (left unacked x) (left unacked' x) xs f (λ u e. ground (arith, g u))
      h.1,
)

-- Individual acks of approved tags are safe.
pub Safe-ack_one :
    (approved unacked : ℕ → Bool) (g : ℕ) (ts : List ℕ)
    → All (λ t. approved t ≡ true) ts
    → Safe approved unacked (map (ack_one g) ts)
unfolding emit_one
Safe-ack_one approved unacked g [] a = tt
Safe-ack_one approved unacked g (t ∷ ts) a =
    (λ u e k n. ground (arith, a.0), Safe-ack_one approved (left unacked (ack_one g t)) g ts a.1)

-- No frame reaches past its tag.
pub names-le : (x : SettlementCommand) (u : ℕ) → names (emit_one x) u ≡ true → u ≤ x.delivery_tag
unfolding emit_one
names-le x u h = ground arith

-- One more delivery, above all that a sequence names, keeps it safe.
pub Safe-deliver :
    (approved unacked : ℕ → Bool) (d : ℕ) (xs : List SettlementCommand)
    → All (λ x. x.delivery_tag ≤ d) xs
    → Safe approved unacked xs
    → Safe approved (λ u. (u == suc d) || unacked u) xs
Safe-deliver approved unacked d [] a h = tt
Safe-deliver approved unacked d (x ∷ xs) a h = (
  λ u e k n. elim (Bool-cases (u == suc d)) [
    | inl new ↦ absurd (omega (arith, names-le x u n, a.0, ==→eq u (suc d) new))
    | inr old ↦ h.0 u (ground arith) k n
  ],
  Safe-mono approved approved (λ u. (u == suc d) || left unacked x u) _ xs (λ u e. e)
      (λ u e. ground arith) (Safe-deliver approved (left unacked x) d xs a.1 h.1),
)
