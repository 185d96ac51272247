-- ===== src/Prelude/Dict.antt =====
-- Python's `dict` with integer keys: an association list in insertion order.
use Prim.Native.Nat.{ℕ, suc, ◌+◌, ◌≤◌, ◌<◌}
use mathlib.Core.Path.{◌≡◌, refl}
use mathlib.Core.Bool.{Bool, true}
use mathlib.Core.List.{List, [], ◌∷◌}
use mathlib.Core.Option.{Option, none, some}
use native.Mathlib.Omega.{arith}
use rabbitkit.Prelude.Tests.{◌==◌, if◌then◌else◌, is_some}
use rabbitkit.Prelude.Lists.{contains, Above, Above-mono, length}

abbrev pub Dict {ℓ} : Type ℓ → Type ℓ
Dict V = List (ℕ × V)

module _ {ℓ} {V : Type ℓ} where
  -- d.get(k)
  unfoldable pub get : Dict V → ℕ → Option V
  get [] k = none
  get ((j, v) ∷ d) k = if j == k then some v else get d k

  -- k in d
  abbrev pub has : Dict V → ℕ → Bool
  has d k = is_some (get d k)

  -- d[k] = v: an old key keeps its place
  unfoldable pub put : ℕ → V → Dict V → Dict V
  put k v [] = (k, v) ∷ []
  put k v ((j, w) ∷ d) = let rest = put k v d in if j == k then (k, v) ∷ d else (j, w) ∷ rest

  -- d.pop(k, None), del d[k]
  unfoldable pub pop : ℕ → Dict V → Dict V
  pop k [] = []
  pop k ((j, v) ∷ d) = let rest = pop k d in if j == k then rest else (j, v) ∷ rest

  abbrev pub keys : Dict V → List ℕ
  keys [] = []
  keys ((j, v) ∷ d) = j ∷ keys d

  pub get-put :
      (k j : ℕ) (v : V) (d : Dict V) → get (put k v d) j ≡ (if k == j then some v else get d j)
  unfolding get put
  get-put k j v [] = refl
  get-put k j v ((i, w) ∷ d) = ground (arith, get-put k j v d)

  pub get-pop : (k j : ℕ) (d : Dict V) → get (pop k d) j ≡ (if k == j then none else get d j)
  unfolding get pop
  get-pop k j [] = ground arith
  get-pop k j ((i, w) ∷ d) = ground (arith, get-pop k j d)

  pub contains-keys : (d : Dict V) (k : ℕ) → contains (keys d) k ≡ has d k
  unfolding get
  contains-keys [] k = refl
  contains-keys ((j, v) ∷ d) k = ground (arith, contains-keys d k)

  pub Above-pop : (n k : ℕ) (d : Dict V) → Above n (keys d) → Above n (keys (pop k d))
  unfolding pop
  Above-pop n k [] h = tt
  Above-pop n k ((j, v) ∷ d) h =
      ground (arith, Above-pop (suc j) k d h.1, Above-mono n (suc j) (keys (pop k d)))

  -- A key that is there keeps the order of keys; a new one goes to the end.
  pub keys-put_old : (k : ℕ) (v : V) (d : Dict V) → has d k ≡ true → keys (put k v d) ≡ keys d
  unfolding get put
  keys-put_old k v [] h = ground arith
  keys-put_old k v ((j, w) ∷ d) h = ground (arith, keys-put_old k v d)

  pub Above-put_new :
      (n k : ℕ) (v : V) (d : Dict V)
      → n ≤ k
      → ((j : ℕ) → has d j ≡ true → j < k)
      → Above n (keys d)
      → Above n (keys (put k v d))
  unfolding get put
  Above-put_new n k v [] h below a = (h, tt)
  Above-put_new n k v ((j, w) ∷ d) h below a =
      let first : j < k = below j (ground arith) in
      let later : (i : ℕ) → has d i ≡ true → i < k = λ i e. below i (ground arith) in
      ground (arith, first, Above-put_new (suc j) k v d first later a.1)

  pub length-put_le : (k : ℕ) (v : V) (d : Dict V) → length (put k v d) ≤ length d + 1
  unfolding put
  length-put_le k v [] = omega arith
  length-put_le k v ((j, w) ∷ d) = ground (arith, length-put_le k v d)

  pub length-put_old : (k : ℕ) (v : V) (d : Dict V) → has d k ≡ true → length (put k v d) ≡ length d
  unfolding get put
  length-put_old k v [] h = ground arith
  length-put_old k v ((j, w) ∷ d) h = ground (arith, length-put_old k v d)

  pub length-pop_le : (k : ℕ) (d : Dict V) → length (pop k d) ≤ length d
  unfolding pop
  length-pop_le k [] = omega arith
  length-pop_le k ((j, w) ∷ d) = ground (arith, length-pop_le k d)
