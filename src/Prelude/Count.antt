-- ===== src/Prelude/Count.antt =====
-- Consecutive numbers, and sorting back into them a list that was split in two.
use Prim.Native.Nat.{ℕ, zero, suc, ◌<◌}
use mathlib.Core.Path.{◌≡◌, refl, ap, ◌∙◌}
use mathlib.Core.Logic.{inl, inr}
use mathlib.Core.List.{List, [], ◌∷◌, ◌++◌, map}
use native.Mathlib.Omega.{arith}
use rabbitkit.Prelude.Tests.{leb, Bool-cases}
use rabbitkit.Prelude.Lists.{All}
use rabbitkit.Prelude.Sort.{sort_by, insert_by}

-- `range(n, n + k)`
abbrev pub count_from : ℕ → ℕ → List ℕ
count_from n zero = []
count_from n (suc k) = n ∷ count_from (suc n) k

abbrev pub sorted : List ℕ → List ℕ
sorted = sort_by (λ t. t)

insert : ℕ → List ℕ → List ℕ
insert = insert_by (λ t. t)

insert-insert : (n x : ℕ) (ts : List ℕ) → n < x → insert x (insert n ts) ≡ insert n (insert x ts)
unfolding insert insert_by
insert-insert n x [] h = ground arith
insert-insert n x (t ∷ ts) h = ground (arith, insert-insert n x ts)

-- A number below `xs` can be sorted in last.
sorted-append :
    (n : ℕ) (xs ys : List ℕ)
    → All (λ t. n < t) xs
    → sorted (xs ++ n ∷ ys) ≡ insert n (sorted (xs ++ ys))
unfolding insert sort_by
sorted-append n [] ys a = refl
sorted-append n (x ∷ xs) ys a =
    ap (insert x) (sorted-append n xs ys a.1) ∙ insert-insert n x (sorted (xs ++ ys)) a.0

insert-count_from : (n k : ℕ) → insert n (count_from (suc n) k) ≡ count_from n (suc k)
unfolding insert insert_by
insert-count_from n zero = refl
insert-count_from n (suc k) = ground arith

-- One number more, on either side of the split.
pub sorted-count_left :
    (n k : ℕ) (xs ys : List ℕ)
    → sorted (xs ++ ys) ≡ count_from (suc n) k
    → sorted (n ∷ xs ++ ys) ≡ count_from n (suc k)
unfolding insert sort_by
sorted-count_left n k xs ys e = ap (insert n) e ∙ insert-count_from n k

pub sorted-count_right :
    (n k : ℕ) (xs ys : List ℕ)
    → All (λ t. n < t) xs
    → sorted (xs ++ ys) ≡ count_from (suc n) k
    → sorted (xs ++ n ∷ ys) ≡ count_from n (suc k)
sorted-count_right n k xs ys a e = sorted-append n xs ys a ∙ ap (insert n) e ∙ insert-count_from n k

pub sorted-count_from : (n k : ℕ) → sorted (count_from n k) ≡ count_from n k
unfolding insert sort_by
sorted-count_from n zero = refl
sorted-count_from n (suc k) = ap (insert n) (sorted-count_from (suc n) k) ∙ insert-count_from n k

module _ {ℓ} {A : Type ℓ} (key : A → ℕ) where
  map-insert_by :
      (x : A) (xs : List A) → map key (insert_by key x xs) ≡ insert_by (λ t. t) (key x) (map key xs)
  unfolding insert_by
  map-insert_by x [] = refl
  map-insert_by x (y ∷ ys) = elim (Bool-cases (leb (key x) (key y))) [
    | inl e ↦ rw e refl
    | inr e ↦ rw e (ap (◌∷◌ (key y)) (map-insert_by x ys))
  ]

  -- The keys of the sorted list are the sorted keys.
  pub map-sort_by : (xs : List A) → map key (sort_by key xs) ≡ sorted (map key xs)
  unfolding sort_by
  map-sort_by [] = refl
  map-sort_by (x ∷ xs) =
      map-insert_by x (sort_by key xs) ∙ ap (insert_by (λ t. t) (key x)) (map-sort_by xs)
