-- ===== src/Streams/Kept.antt =====
-- The invariant of a StreamOffsetTracker, and the loop that advances its watermark.
use rabbitkit.Prelude.{
  ℕ, ◌+◌, ◌≤◌, ◌<◌, ◌≡◌, ◌⊎◌, suc, Bool, true, false, ◌||◌, Option, none, some, [], ◌∷◌, arith,
  or_default, Above,
}
use rabbitkit.Prelude.Dict.{Dict, get, has, keys}
use rabbitkit.Streams.{at_most, advance}
use rabbitkit.Streams.Events.{Run, next_of, is_hook}

-- The flag of a pending delivery.
abbrev pub flag : Dict Bool → ℕ → Bool
flag d u = or_default (get d u) false

pub record Advances (d : Dict Bool) (p : Option ℕ) (after : Dict Bool × Option ℕ × ℕ) : Type 0 where
  pub above : Above (next_of after.1) (keys after.0)
  pub grows : next_of p ≤ next_of after.1
  pub less : (u : ℕ) → has after.0 u ≡ true → has d u ≡ true
  pub flags : (u : ℕ) → flag after.0 u ≡ true → flag d u ≡ true
  pub gone : (u : ℕ) → has d u ≡ true → (has after.0 u || flag d u) ≡ true

pub advance-Advances :
    (d : Dict Bool) (p : Option ℕ) (n : ℕ)
    → Above (next_of p) (keys d)
    → Advances d p (advance d p n)
unfolding advance get
advance-Advances [] p n a = record {
  above = tt;
  grows = omega arith;
  less = λ u h. h;
  flags = λ u h. h;
  gone = λ u h. ground arith;
}
advance-Advances ((first, true) ∷ d) p n a =
    let rest = advance-Advances d (some first) (n + 1) a.1 in
    record {
      above = rest.above;
      grows = omega (arith, a.0, rest.grows);
      less = λ u h. ground (arith, rest.less u);
      flags = λ u h. ground (arith, rest.flags u);
      gone = λ u h. ground (arith, rest.gone u);
    }
advance-Advances ((first, false) ∷ d) p n a = record {
  above = a;
  grows = omega arith;
  less = λ u h. h;
  flags = λ u h. h;
  gone = λ u h. ground arith;
}

-- Nothing was delivered on the current subscription yet, and what was delivered on an earlier one had a
-- tag.
abbrev pub Fresh : Run → Type 0
Fresh r =
    (r.next_tag ≡ 1)
    × ((u : ℕ) → r.delivered u ≡ false)
    × (r.hook ≡ none)
    × ((r.tracker.last_tag ≡ none) × (r.tracker.last_offset ≡ none) × (r.tracker.pending ≡ [])
        ⊎ ((l : ℕ) × (r.tracker.last_tag ≡ some l) × (0 < l)))

-- The tracker has seen the last delivery, and holds no delivery but of this subscription.
abbrev pub Going : Run → Type 0
Going r =
    ((p : ℕ) × (r.tracker.last_tag ≡ some p) × (suc p ≡ r.next_tag) × (0 < p))
    × ((o : ℕ) × (r.tracker.last_offset ≡ some o) × (o < r.next_offset))
    × ((u : ℕ) → r.delivered u ≡ true → (has r.tracker.pending u || r.done u) ≡ true)
    × ((u : ℕ) → flag r.tracker.pending u ≡ true → r.done u ≡ true)
    × ((u : ℕ) → has r.tracker.pending u ≡ true → is_hook r.hook r.tracker.generation ≡ true)

pub record IsKept (r : Run) : Type 0 where
  pub ascending : Above (next_of r.tracker.processed) (keys r.tracker.pending)
  pub below : (u : ℕ) → has r.tracker.pending u ≡ true → at_most u r.tracker.last_offset ≡ true
  pub stage : Fresh r ⊎ Going r
  pub commits : next_of r.tracker.committed ≤ next_of r.tracker.processed
  pub saves :
      next_of (elim r.saving [ none ↦ none | some x ↦ some x.0 ]) ≤ next_of r.tracker.processed
