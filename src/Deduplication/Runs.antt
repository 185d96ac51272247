-- ===== src/Deduplication/Runs.antt =====
-- Runs of many deliveries on many processes that share a Redis store, and what its commands do.
use rabbitkit.Prelude.{
  ℕ, ◌≡◌, ◌⊎◌, Bool, true, false, Option, none, some, List, [], ◌∷◌, if◌then◌else◌, ◌==◌, is_some,
  Text, same_text,
}
use rabbitkit.Deduplication.{DeduplicationConfig, Cache}
use rabbitkit.Deduplication.Stored.{Json}
use rabbitkit.Deduplication.Scope.{
  Redis, Phase, reading, running, awaiting, returned, acking, acked, acknowledge, Handled, enter,
  read, finish, settle,
}

-- What Redis documents of its commands: SET leaves other keys alone and writes its value or nothing,
-- DEL leaves or removes, a key may expire at any time, and EXISTS and GET say what is there.
pub record RedisLaws {S : Type 0} (redis : Redis S) : Type 0 where
  pub value : S → Text → Option Text
  pub expire : S → S
  pub value-set :
      (nx : Bool) (k v : Text) (ex : ℕ) (s : S) (j : Text)
      → let s' = (redis.set nx k v ex s).0 in
        (value s' j ≡ value s j) ⊎ (same_text k j ≡ true) × (value s' j ≡ some v)
  pub value-delete :
      (k : Text) (s : S) (j : Text)
      → (value (redis.delete k s) j ≡ value s j) ⊎ (value (redis.delete k s) j ≡ none)
  pub value-expire :
      (s : S) (j : Text) → (value (expire s) j ≡ value s j) ⊎ (value (expire s) j ≡ none)
  pub value-exists : (k : Text) (s : S) → redis.exists k s ≡ some true → is_some (value s k) ≡ true
  pub value-get :
      (k : Text) (s : S) (found : Option Text) → redis.get k s ≡ some found → value s k ≡ found

-- A delivery that a process works on.
pub record Delivery (R : Type 0) : Type 0 where
  pub process : ℕ
  pub key : Text
  pub phase : Phase R

-- The store, the local cache of each process, the deliveries by number, and the keys of which a
-- delivery was processed: its handler returned, and the pipeline had come to its ack, or nothing was
-- left to mark then.
pub record System (S R : Type 0) : Type 0 where
  pub store : S
  pub caches : ℕ → Cache
  pub deliveries : ℕ → Option (Delivery R)
  pub processed : List Text

pub data Event (R : Type 0) : Type 0 where
  enters : (id process : ℕ) (key : Text) → Event R
  reads : (id : ℕ) → Event R
  ends : (id : ℕ) → Handled R → Event R
  settles : (id : ℕ) → (acks : Bool) → Event R
  acknowledges : (id : ℕ) → (ok : Bool) → Event R
  crashes : (process : ℕ) → Event R
  expires : Event R

abbrev pub update : {A : Type 0} → (ℕ → A) → ℕ → A → ℕ → A
update f i a j = if i == j then a else f j

-- A key is processed where its delivery comes to one of these ends.
abbrev pub is_done : {R : Type 0} → Phase R → Bool
is_done returned = true
is_done acking = true
is_done acked = true
is_done _ = false

module _ {S R : Type 0} {redis : Redis S} (laws : RedisLaws redis) (json : Json R)
    (c : DeduplicationConfig) where
  -- A step of a delivery of `key` on `process`.
  unfoldable pub moved :
      System S R → (id process : ℕ) (key : Text) → S × Cache × Phase R → System S R
  moved w id process key (s, cache, phase) = record {
    store = s;
    caches = update w.caches process cache;
    deliveries =
        update w.deliveries id (some (record { process = process; key = key; phase = phase }));
    processed = if is_done phase then key ∷ w.processed else w.processed;
  }

  unfoldable pub on_read : System S R → ℕ → Delivery R → Phase R → System S R
  on_read w id d reading =
      moved w id d.process d.key (read redis json c d.key w.store (w.caches d.process))
  on_read w id d _ = w

  unfoldable pub on_end : System S R → ℕ → Delivery R → Handled R → Phase R → System S R
  on_end w id d h (running guarded) =
      moved w id d.process d.key (finish redis json c guarded h d.key w.store (w.caches d.process))
  on_end w id d h _ = w

  unfoldable pub on_settle : System S R → ℕ → Delivery R → Bool → Phase R → System S R
  on_settle w id d acks (awaiting nx claims value) =
      moved w id d.process d.key
        (settle redis json c acks nx claims value d.key w.store (w.caches d.process))
  on_settle w id d acks _ = w

  unfoldable pub on_acknowledge : System S R → ℕ → Delivery R → Bool → Phase R → System S R
  on_acknowledge w id d ok acking =
      moved w id d.process d.key (w.store, w.caches d.process, acknowledge ok)
  on_acknowledge w id d ok _ = w

  -- A process crashes: its cache and its deliveries are gone.
  abbrev pub lost : ℕ → Option (Delivery R) → Option (Delivery R)
  lost process none = none
  lost process (some d) = if process == d.process then none else some d

  unfoldable pub happens : System S R → Event R → System S R
  unfolding moved on_read on_end on_settle on_acknowledge acknowledge
  happens w (enters id process key) =
      moved w id process key (enter redis json c key w.store (w.caches process))
  happens w (reads id) = elim (w.deliveries id) [ none ↦ w | some d ↦ on_read w id d d.phase ]
  happens w (ends id h) = elim (w.deliveries id) [ none ↦ w | some d ↦ on_end w id d h d.phase ]
  happens w (settles id acks) = elim (w.deliveries id) [
    | none ↦ w
    | some d ↦ on_settle w id d acks d.phase
  ]
  happens w (acknowledges id ok) = elim (w.deliveries id) [
    | none ↦ w
    | some d ↦ on_acknowledge w id d ok d.phase
  ]
  happens w (crashes process) = record w {
    caches = update w.caches process [];
    deliveries = λ id. lost process (w.deliveries id);
  }
  happens w expires = record w { store = laws.expire w.store }

  unfoldable pub all_happen : System S R → List (Event R) → System S R
  unfolding happens
  all_happen w [] = w
  all_happen w (e ∷ es) = all_happen (happens w e) es

  unfoldable pub begin : S → System S R
  begin s = record { store = s; caches = λ p. []; deliveries = λ id. none; processed = [] }
