-- ===== src/Bulk/Account.antt =====
-- Proofs about core/bulk_runner.py, `_fresh` and the accounting of a whole operation.
use rabbitkit.Prelude.{
  ℕ, suc, ◌+◌, ◌≡◌, refl, Bool, true, false, ◌||◌, List, [], ◌∷◌, ◌++◌, arith, if◌then◌else◌, ◌==◌,
  contains, if_cases, Bool-cases, subst, ==→eq, inl, inr,
}
use rabbitkit.Bulk.{Item}
use rabbitkit.Bulk.Run.{Report, fresh_one, fresh_items}

-- How many items there are for an input.
unfoldable pub times : ℕ → List Item → ℕ
times i [] = 0
times i (x ∷ xs) = let rest = times i xs in if x.index == i then suc rest else rest

unfoldable pub has : List Item → ℕ → Bool
has [] i = false
has (x ∷ xs) i = (x.index == i) || has xs i

pub has-append : (xs ys : List Item) (i : ℕ) → has (xs ++ ys) i ≡ (has xs i || has ys i)
unfolding has
has-append [] ys i = refl
has-append (x ∷ xs) ys i = ground (arith, has-append xs ys i)

times-append : (i : ℕ) (xs ys : List Item) → times i (xs ++ ys) ≡ times i xs + times i ys
unfolding times
times-append i [] ys = omega arith
times-append i (x ∷ xs) ys = ground (arith, times-append i xs ys)

abbrev pub once : Bool → ℕ
once b = if b then 1 else 0

-- An input has one item if it is reported, and none otherwise.
abbrev pub Once : Report → Type 0
Once r = (i : ℕ) → times i r.items ≡ once (contains r.reported i)

fresh_one-Once : (x : Item) (r : Report) → Once r → Once (fresh_one x r)
unfolding fresh_one times
fresh_one-Once x r h =
    if_cases Once (contains r.reported x.index) r
      (record { reported = x.index ∷ r.reported; items = r.items ++ x ∷ [] }) (λ e. h)
      (λ e i. ground (arith, h i, h x.index, e, times-append i r.items (x ∷ [])))

pub fresh_items-Once : (xs : List Item) (r : Report) → Once r → Once (fresh_items xs r)
unfolding fresh_items
fresh_items-Once [] r h = h
fresh_items-Once (x ∷ xs) r h = fresh_items-Once xs (fresh_one x r) (fresh_one-Once x r h)

-- What is reported already adds nothing.
pub contains-again :
    (ns : List ℕ) (j i : ℕ) → contains ns j ≡ true → contains ns i ≡ (contains ns i || (j == i))
contains-again ns j i h = elim (Bool-cases (j == i)) [
  | inl e ↦
      let same : contains ns i ≡ true = subst (λ k. contains ns k ≡ true) (==→eq j i e) h in
      ground (arith, e, same)
  | inr e ↦ ground (arith, e)
]

contains-fresh_one :
    (x : Item) (r : Report) (i : ℕ)
    → contains (fresh_one x r).reported i ≡ (contains r.reported i || (x.index == i))
unfolding fresh_one
contains-fresh_one x r i =
    if_cases (λ s. contains s.reported i ≡ (contains r.reported i || (x.index == i)))
      (contains r.reported x.index) r
      (record { reported = x.index ∷ r.reported; items = r.items ++ x ∷ [] })
      (contains-again r.reported x.index i) (λ e. ground arith)

-- After `_fresh`, what was reported before and what it was given is reported.
pub contains-fresh_items :
    (xs : List Item) (r : Report) (i : ℕ)
    → contains (fresh_items xs r).reported i ≡ (contains r.reported i || has xs i)
unfolding fresh_items has
contains-fresh_items [] r i = ground arith
contains-fresh_items (x ∷ xs) r i =
    ground (arith, contains-fresh_items xs (fresh_one x r) i, contains-fresh_one x r i)
