-- ===== src/Deduplication/Safety.antt =====
-- Proofs about middleware/deduplication.py: what a delivery that is skipped is a duplicate of.
use rabbitkit.Prelude.{ℕ, ◌≡◌, true, some}
use rabbitkit.Deduplication.{DeduplicationConfig, is_in}
use rabbitkit.Deduplication.Stored.{Json}
use rabbitkit.Deduplication.Scope.{Redis}
use rabbitkit.Deduplication.Runs.{RedisLaws, Delivery, System}
use rabbitkit.Deduplication.Caches.{is_skip}
use rabbitkit.Deduplication.Marks.{GoodStore, GoodCache}

module _ {S R : Type 0} {redis : Redis S} (laws : RedisLaws redis) (json : Json R)
    (c : DeduplicationConfig) where
  -- Every mark, every key of a cache and every delivery that was skipped is of a processed key.
  record Inv (w : System S R) : Type 0 where
    store : GoodStore laws json c w.processed w.store
    caches : (p : ℕ) → GoodCache laws json c w.processed (w.caches p)
    skips :
        (id : ℕ) (d : Delivery R)
        → w.deliveries id ≡ some d
        → is_skip d.phase ≡ true
        → is_in d.key w.processed ≡ true
