-- ===== src/Prelude/Sort.antt =====
-- Python's stable `sorted(xs, key=key)`, as insertion sort.
use Prim.Native.Nat.{ℕ, suc, ◌≤◌}
use mathlib.Core.Path.{◌≡◌, refl}
use mathlib.Core.Logic.{inl, inr}
use mathlib.Core.List.{List, [], ◌∷◌, ◌++◌}
use mathlib.Core.List.{Perm}
use mathlib.Core.List.Perm
use native.Mathlib.Omega.{arith}
use rabbitkit.Prelude.Tests.{leb, if◌then◌else◌, Bool-cases}

module _ {ℓ} {A : Type ℓ} (key : A → ℕ) where
  unfoldable pub insert_by : A → List A → List A
  insert_by x [] = x ∷ []
  insert_by x (y ∷ ys) = if leb (key x) (key y) then x ∷ y ∷ ys else y ∷ insert_by x ys

  unfoldable pub sort_by : List A → List A
  unfolding insert_by
  sort_by [] = []
  sort_by (x ∷ xs) = insert_by x (sort_by xs)

  -- In order of the keys, from `n` on.
  abbrev pub Ordered : ℕ → List A → Type 0
  Ordered n [] = Unit {0}
  Ordered n (x ∷ xs) = (n ≤ key x) × Ordered (key x) xs

  insert_by-Ordered :
      (n : ℕ) (x : A) (xs : List A) → n ≤ key x → Ordered n xs → Ordered n (insert_by x xs)
  unfolding insert_by
  insert_by-Ordered n x [] h o = (h, tt)
  insert_by-Ordered n x (y ∷ ys) h o = ground (arith, insert_by-Ordered (key y) x ys)

  -- The result is in order,
  pub sort_by-Ordered : (xs : List A) → Ordered 0 (sort_by xs)
  unfolding sort_by
  sort_by-Ordered [] = tt
  sort_by-Ordered (x ∷ xs) = insert_by-Ordered 0 x (sort_by xs) (omega arith) (sort_by-Ordered xs)

  insert_by_first : (x : A) (xs : List A) → Ordered (key x) xs → insert_by x xs ≡ x ∷ xs
  unfolding insert_by
  insert_by_first x [] o = refl
  insert_by_first x (y ∷ ys) o = ground arith

  -- and a list that is in order already stays as it is.
  pub sort_by_id : (n : ℕ) (xs : List A) → Ordered n xs → sort_by xs ≡ xs
  unfolding sort_by
  sort_by_id n [] o = refl
  sort_by_id n (x ∷ xs) o = rw (sort_by_id (key x) xs o.1) (insert_by_first x xs o.1)

  insert_by-perm : (x : A) (xs : List A) → Perm (insert_by x xs) (x ∷ xs)
  unfolding insert_by
  insert_by-perm x [] = Perm.refl (x ∷ [])
  insert_by-perm x (y ∷ ys) = elim (Bool-cases (leb (key x) (key y))) [
    | inl e ↦ rw e (Perm.refl (x ∷ y ∷ ys))
    | inr e ↦ rw e (Perm.trans (Perm.cons y (insert_by-perm x ys)) (Perm.swap x y ys))
  ]

  pub sort_by-perm : (xs : List A) → Perm (sort_by xs) xs
  unfolding sort_by
  sort_by-perm [] = Perm.refl []
  sort_by-perm (x ∷ xs) = Perm.trans (insert_by-perm x (sort_by xs)) (Perm.cons x (sort_by-perm xs))

  -- Strictly in order of the keys, from `n` on and below `b`.
  abbrev pub Within : ℕ → ℕ → List A → Type 0
  Within n b [] = n ≤ b
  Within n b (x ∷ xs) = (n ≤ key x) × Within (suc (key x)) b xs

  pub Within-append :
      (n m b : ℕ) (xs ys : List A) → Within n m xs → Within m b ys → Within n b (xs ++ ys)
  Within-append n m b [] ys h k = Within-from n m b ys h k
    where
      Within-from : (n m b : ℕ) (ys : List A) → n ≤ m → Within m b ys → Within n b ys
      Within-from n m b [] h k = omega arith
      Within-from n m b (y ∷ ys) h k = (omega arith, k.1)
  Within-append n m b (x ∷ xs) ys h k = (h.0, Within-append (suc (key x)) m b xs ys h.1 k)

  pub Within-Ordered : (n m b : ℕ) (xs : List A) → m ≤ n → Within n b xs → Ordered m xs
  Within-Ordered n m b [] h k = tt
  Within-Ordered n m b (x ∷ xs) h k =
      (omega arith, Within-Ordered (suc (key x)) (key x) b xs (omega arith) k.1)

  pub Within-mono : (n b d : ℕ) (xs : List A) → b ≤ d → Within n b xs → Within n d xs
  Within-mono n b d [] h k = omega arith
  Within-mono n b d (x ∷ xs) h k = (k.0, Within-mono (suc (key x)) b d xs h k.1)

  pub Within-le : (n b : ℕ) (xs : List A) → Within n b xs → n ≤ b
  Within-le n b [] h = h
  Within-le n b (x ∷ xs) h = omega (arith, h.0, Within-le (suc (key x)) b xs h.1)
