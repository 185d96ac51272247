-- ===== src/Plan/Runs.antt =====
-- Runs of ack-safe tags: the part below the gap, the rest, and the last tag.
use rabbitkit.Prelude.{
  ℕ, suc, ◌≤◌, ◌<◌, ◌≡◌, refl, ap, List, [], ◌∷◌, ◌++◌, map, arith, inl, inr, lt→ltb, append-nil,
  ltb, length, drop, keep, last_or, All, Bool-cases,
}
use rabbitkit.Prelude.Sort.{Within, Within-le}
use rabbitkit.Plan.Walk.{safe_part, rest_part, ack_one, tag_of}

-- Ascending tags, from `n` on and below `b`.
abbrev pub Tags : ℕ → ℕ → List ℕ → Type 0
Tags n b ts = Within (λ t. t) n b ts

keep_none : (g n b : ℕ) (ts : List ℕ) → g ≤ n → Tags n b ts → keep (λ t. ltb t g) ts ≡ []
keep_none g n b [] h k = refl
keep_none g n b (t ∷ ts) h k = ground (arith, keep_none g (suc t) b ts (omega arith) k.1)

keep-append-drop :
    (g n b : ℕ) (ts : List ℕ)
    → Tags n b ts
    → keep (λ t. ltb t g) ts ++ drop (length (keep (λ t. ltb t g) ts)) ts ≡ ts
keep-append-drop g n b [] k = refl
keep-append-drop g n b (t ∷ ts) k = elim (Bool-cases (ltb t g)) [
  | inl e ↦ rw e (ap (◌∷◌ t) (keep-append-drop g (suc t) b ts k.1))
  | inr e ↦ rw (e, keep_none g (suc t) b ts (ground arith) k.1) refl
]

-- A run is its part below the gap, and then the rest.
pub safe-append-rest :
    (g n b : ℕ) (run : List ℕ) → Tags n b run → safe_part g run ++ rest_part g run ≡ run
unfolding safe_part rest_part
safe-append-rest g n b run k = elim (Bool-cases (ltb 0 g)) [
  | inl e ↦ rw e (keep-append-drop g n b run k)
  | inr e ↦ rw e (append-nil run)
]

pub All-left {ℓ κ} : {A : Type ℓ} (P : A → Type κ) (xs ys : List A) → All P (xs ++ ys) → All P xs
All-left P [] ys h = tt
All-left P (x ∷ xs) ys h = (h.0, All-left P xs ys h.1)

pub All-right {ℓ κ} : {A : Type ℓ} (P : A → Type κ) (xs ys : List A) → All P (xs ++ ys) → All P ys
All-right P [] ys h = h
All-right P (x ∷ xs) ys h = All-right P xs ys h.1

pub All-last_or {ℓ κ} :
    {A : Type ℓ} (P : A → Type κ) (d : A) (xs : List A)
    → 1 ≤ length xs
    → All P xs
    → P (last_or d xs)
All-last_or P d [] h a = absurd (omega arith)
All-last_or P d (x ∷ []) h a = a.0
All-last_or P d (x ∷ y ∷ ys) h a = All-last_or P x (y ∷ ys) (omega arith) a.1

keep_below : (g : ℕ) (ts : List ℕ) → All (λ t. t < g) (keep (λ t. ltb t g) ts)
keep_below g [] = tt
keep_below g (t ∷ ts) = ground (arith, keep_below g ts)

-- The part below the gap lies below it, if there is one.
pub safe_part_below : (g : ℕ) (run : List ℕ) → 0 < g → All (λ t. t < g) (safe_part g run)
unfolding safe_part
safe_part_below g run h = rw (lt→ltb 0 g h) (keep_below g run)

-- The tags of a list split at its last one.
pub Tags-split :
    (n b : ℕ) (xs ys : List ℕ)
    → Tags n b (xs ++ ys)
    → (d : ℕ) → 1 ≤ length xs
    → (n ≤ last_or d xs) × Tags (suc (last_or d xs)) b ys
Tags-split n b [] ys k d h = absurd (omega arith)
Tags-split n b (x ∷ []) ys k d h = k
Tags-split n b (x ∷ y ∷ xs) ys k d h =
    let rest = Tags-split (suc x) b (y ∷ xs) ys k.1 x (omega arith) in
    (omega (arith, k.0, rest.0), rest.1)

pub Tags-ack_one : (g n b : ℕ) (ts : List ℕ) → Tags n b ts → Within tag_of n b (map (ack_one g) ts)
Tags-ack_one g n b [] k = k
Tags-ack_one g n b (t ∷ ts) k = (k.0, Tags-ack_one g (suc t) b ts k.1)

pub Tags-below : (n b : ℕ) (ts : List ℕ) → Tags n b ts → All (λ t. t < b) ts
Tags-below n b [] k = tt
Tags-below n b (t ∷ ts) k = (Within-le (λ u. u) (suc t) b ts k.1, Tags-below (suc t) b ts k.1)

pub Tags-left : (n b : ℕ) (xs ys : List ℕ) → Tags n b (xs ++ ys) → Tags n b xs
Tags-left n b [] ys k = Within-le (λ u. u) n b ys k
Tags-left n b (x ∷ xs) ys k = (k.0, Tags-left (suc x) b xs ys k.1)

le-last_or : (x b : ℕ) (xs : List ℕ) → Tags (suc x) b xs → x ≤ last_or x xs
le-last_or x b [] k = omega arith
le-last_or x b (y ∷ ys) k = omega (arith, k.0, le-last_or y b ys k.1)

-- No tag of a run passes its last one.
pub Tags-le_last : (n b d : ℕ) (ts : List ℕ) → Tags n b ts → All (λ t. t ≤ last_or d ts) ts
Tags-le_last n b d [] k = tt
Tags-le_last n b d (t ∷ ts) k = (le-last_or t b ts k.1, Tags-le_last (suc t) b t ts k.1)
