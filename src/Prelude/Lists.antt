-- ===== src/Prelude/Lists.antt =====
-- Lists measured by native numbers, under the library's names, and sets of numbers as lists.
use Prim.Native.Nat.{ℕ, zero, suc, ◌+◌, ◌≤◌}
use mathlib.Core.Path.{◌≡◌, refl, subst}
use mathlib.Core.Logic.{inl, inr}
use mathlib.Core.Bool.{Bool, true, false, ◌||◌}
use mathlib.Core.List.{List, [], ◌∷◌, ◌++◌}
use native.Mathlib.Omega.{arith}
use rabbitkit.Prelude.Tests.{◌==◌, if◌then◌else◌, Bool-cases}

module _ {ℓ} {A : Type ℓ} where
  abbrev pub length : List A → ℕ
  length [] = 0
  length (x ∷ xs) = suc (length xs)

  abbrev pub drop : ℕ → List A → List A
  drop zero xs = xs
  drop (suc n) [] = []
  drop (suc n) (x ∷ xs) = drop n xs

  abbrev pub take : ℕ → List A → List A
  take zero xs = []
  take (suc n) [] = []
  take (suc n) (x ∷ xs) = x ∷ take n xs

  -- `[x for x in xs if test(x)]`
  abbrev pub keep : (A → Bool) → List A → List A
  keep test [] = []
  keep test (x ∷ xs) = if test x then x ∷ keep test xs else keep test xs

  -- `xs[-1]`, or `d` where Python raises
  abbrev pub last_or : A → List A → A
  last_or d [] = d
  last_or d (x ∷ xs) = last_or x xs

  abbrev pub All {κ} : (A → Type κ) → List A → Type κ
  All P [] = Unit
  All P (x ∷ xs) = P x × All P xs

  pub length-append : (xs ys : List A) → length (xs ++ ys) ≡ length xs + length ys
  length-append [] ys = omega arith
  length-append (x ∷ xs) ys = omega (arith, length-append xs ys)

  pub length-take_le : (n : ℕ) (xs : List A) → length (take n xs) ≤ n
  length-take_le zero xs = omega arith
  length-take_le (suc n) [] = omega arith
  length-take_le (suc n) (x ∷ xs) = omega (arith, length-take_le n xs)

  pub All-append {κ} : (P : A → Type κ) (xs ys : List A) → All P xs → All P ys → All P (xs ++ ys)
  All-append P [] ys hx hy = hy
  All-append P (x ∷ xs) ys hx hy = (hx.0, All-append P xs ys hx.1 hy)

  pub All-mono {κ μ} :
      (P : A → Type κ) (Q : A → Type μ) (xs : List A) → ((x : A) → P x → Q x) → All P xs → All Q xs
  All-mono P Q [] f h = tt
  All-mono P Q (x ∷ xs) f h = (f x h.0, All-mono P Q xs f h.1)

-- `t in xs`, for a set or a list of tags
abbrev pub contains : List ℕ → ℕ → Bool
contains [] t = false
contains (x ∷ xs) t = (x == t) || contains xs t

-- Strictly ascending, from `n` on.
abbrev pub Above : ℕ → List ℕ → Type 0
Above n [] = Unit {0}
Above n (t ∷ ts) = (n ≤ t) × Above (suc t) ts

pub contains-Above : (n u : ℕ) (ts : List ℕ) → Above n ts → contains ts u ≡ true → n ≤ u
contains-Above n u [] h e = ground arith
contains-Above n u (t ∷ ts) h e = ground (arith, contains-Above (suc t) u ts h.1)

pub contains-append :
    (xs ys : List ℕ) (u : ℕ) → contains (xs ++ ys) u ≡ (contains xs u || contains ys u)
contains-append [] ys u = refl
contains-append (x ∷ xs) ys u = ground (arith, contains-append xs ys u)

pub Above-mono : (m n : ℕ) (ts : List ℕ) → m ≤ n → Above n ts → Above m ts
Above-mono m n [] h a = tt
Above-mono m n (t ∷ ts) h a = (omega arith, a.1)

-- What holds of each number in a list holds along it, and back.
pub All-contains {κ} :
    (P : ℕ → Type κ) (ts : List ℕ) → ((t : ℕ) → contains ts t ≡ true → P t) → All P ts
All-contains P [] h = tt
All-contains P (t ∷ ts) h = (h t (ground arith), All-contains P ts (λ u e. h u (ground arith)))

pub contains-All {κ} :
    (P : ℕ → Type κ) (ts : List ℕ) (u : ℕ) → All P ts → contains ts u ≡ true → P u
contains-All P [] u a e = absurd (ground arith)
contains-All P (t ∷ ts) u a e = elim (Bool-cases (t == u)) [
  | inl same ↦ let path : t ≡ u = ground arith in subst P path a.0
  | inr other ↦ contains-All P ts u a.1 (ground arith)
]
