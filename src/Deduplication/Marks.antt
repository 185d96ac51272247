-- ===== src/Deduplication/Marks.antt =====
-- Proofs about middleware/deduplication.py: the marks, under the commands on one key.
use rabbitkit.Prelude.{
  ◌≡◌, ◌⊎◌, inl, inr, subst, Bool, true, false, Option, none, some, List, ◌∷◌, arith, if◌then◌else◌,
  Text, same_text,
}
use rabbitkit.Prelude.Codes.{same_text_refl}
use rabbitkit.Deduplication.{DeduplicationConfig, Cache, is_in, local_mark}
use rabbitkit.Deduplication.Stored.{Json}
use rabbitkit.Deduplication.Scope.{Redis, Phase, marked, write_mark, cleanup}
use rabbitkit.Deduplication.Runs.{RedisLaws, is_done}
use rabbitkit.Deduplication.Caches.{
  marks, is_skip, marks-none, is_in-local_mark, is_in-local_remove,
}

module _ {S R : Type 0} {redis : Redis S} (laws : RedisLaws redis) (json : Json R)
    (c : DeduplicationConfig) where
  -- Every mark in the store, and every key of a cache, is of a key that was processed.
  abbrev pub GoodStore : List Text → S → Type 0
  GoodStore done s = (j : Text) → marks c.mark_policy (laws.value s j) ≡ true → is_in j done ≡ true

  abbrev pub GoodCache : List Text → Cache → Type 0
  GoodCache done cache = (j : Text) → is_in j cache ≡ true → is_in j done ≡ true

  abbrev pub Good : List Text → S → Cache → Type 0
  Good done s cache = GoodStore done s × GoodCache done cache

  pub wider : (k j : Text) (done : List Text) → is_in j done ≡ true → is_in j (k ∷ done) ≡ true
  unfolding is_in
  wider k j done h = ground arith

  pub named : (k j : Text) (done : List Text) → same_text k j ≡ true → is_in j (k ∷ done) ≡ true
  unfolding is_in
  named k j done h = ground arith

  pub Good-wider :
      (k : Text) (done : List Text) (s : S) (cache : Cache)
      → Good done s cache
      → Good (k ∷ done) s cache
  Good-wider k done s cache (store, local) =
      (λ j m. wider k j done (store j m), λ j h. wider k j done (local j h))

  -- A command on one key: the values are as they were, or it wrote `v` there.
  pub written-GoodStore :
      (k v : Text) (done done' : List Text) (s s' : S)
      → ((j : Text)
          → (laws.value s' j ≡ laws.value s j)
            ⊎ (same_text k j ≡ true) × (laws.value s' j ≡ some v))
      → ((j : Text) → is_in j done ≡ true → is_in j done' ≡ true)
      → ((j : Text)
          → same_text k j ≡ true
          → marks c.mark_policy (some v) ≡ true
          → is_in j done' ≡ true)
      → GoodStore done s
      → GoodStore done' s'
  written-GoodStore k v done done' s s' changed wide new good j m = elim (changed j) [
    | inl same ↦ wide j (good j (subst (λ o. marks c.mark_policy o ≡ true) same m))
    | inr (here, same) ↦ new j here (subst (λ o. marks c.mark_policy o ≡ true) same m)
  ]

  pub removed-GoodStore :
      (done : List Text) (s s' : S)
      → ((j : Text) → (laws.value s' j ≡ laws.value s j) ⊎ (laws.value s' j ≡ none))
      → GoodStore done s
      → GoodStore done s'
  removed-GoodStore done s s' changed good j m = elim (changed j) [
    | inl same ↦ good j (subst (λ o. marks c.mark_policy o ≡ true) same m)
    | inr gone ↦
        absurd (
          ground
            (arith, subst (λ o. marks c.mark_policy o ≡ true) gone m, marks-none c.mark_policy))
  ]

  pub local_mark-GoodCache :
      (k : Text) (done : List Text) (cache : Cache)
      → GoodCache done cache
      → GoodCache (k ∷ done) (local_mark c k cache)
  unfolding is_in
  local_mark-GoodCache k done cache good j h =
      ground (arith, is_in-local_mark c j k cache h, good j)

  pub marked-Good :
      (k : Text) (done : List Text) (s : S) (cache : Cache) (answer : Option Bool)
      → GoodStore (k ∷ done) s
      → GoodCache done cache
      → let (s', cache') = marked redis json c k cache (s, answer) in Good (k ∷ done) s' cache'
  marked-Good k done s cache none store local = (store, λ j h. wider k j done (local j h))
  marked-Good k done s cache (some b) store local = (store, local_mark-GoodCache k done cache local)

  pub write_mark-Good :
      (k v : Text) (nx : Bool) (done : List Text) (s : S) (cache : Cache)
      → Good done s cache
      → let (s', cache') = write_mark redis json c k v nx s cache in Good (k ∷ done) s' cache'
  unfolding write_mark
  write_mark-Good k v nx done s cache (store, local) =
      let (s', answer) = redis.set nx k v c.ttl s in
      let good =
        written-GoodStore k v done (k ∷ done) s s' (laws.value-set nx k v c.ttl s)
          (λ j. wider k j done) (λ j here m. named k j done here) store in
      marked-Good k done s' cache answer good local

  pub cleanup-Good :
      (k : Text) (done : List Text) (s : S) (cache : Cache)
      → Good done s cache
      → let (s', cache') = cleanup redis json c k s cache in Good done s' cache'
  unfolding cleanup
  cleanup-Good k done s cache (store, local) = (
    removed-GoodStore done s (redis.delete k s) (laws.value-delete k s) store,
    λ j h. local j (is_in-local_remove c j k cache h),
  )

  -- What a step of a delivery of `k` leaves, where the keys in `done` were processed before.
  abbrev pub Sound : List Text → Text → S × Cache × Phase R → Type 0
  Sound done k (s, cache, phase) =
      let done' = if is_done phase then k ∷ done else done in
      Good done' s cache × (is_skip phase ≡ true → is_in k done' ≡ true)

  -- A step that changes nothing but the phase, to one that is no end.
  abbrev pub IsOpen : Phase R → Type 0
  IsOpen phase = (is_done phase ≡ false) × (is_skip phase ≡ false)

  pub open-Sound :
      (k : Text) (done : List Text) (s : S) (cache : Cache) (phase : Phase R)
      → IsOpen phase
      → Good done s cache
      → Sound done k (s, cache, phase)
  open-Sound k done s cache phase (not_done, no_skip) good =
      rw not_done (good, λ skip. absurd (ground (arith, skip, no_skip)))

  pub skip-Sound :
      (k : Text) (done : List Text) (s : S) (cache : Cache) (phase : Phase R)
      → is_done phase ≡ false
      → is_in k done ≡ true
      → Good done s cache
      → Sound done k (s, cache, phase)
  skip-Sound k done s cache phase not_done known good = rw not_done (good, λ skip. known)

  pub done-Sound :
      (k : Text) (done : List Text) (s : S) (cache : Cache) (phase : Phase R)
      → is_done phase ≡ true
      → Good (k ∷ done) s cache
      → Sound done k (s, cache, phase)
  unfolding is_in
  done-Sound k done s cache phase ended good =
      rw ended (good, λ skip. named k k done (same_text_refl k))
