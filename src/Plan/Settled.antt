-- ===== src/Plan/Settled.antt =====
-- What the plan/emit/commit operations do to the ledger of a coordinator.
use rabbitkit.Prelude.{
  ℕ, ◌+◌, ◌≡◌, ◌≢◌, refl, ◌∙◌, Bool, true, false, ◌⊎◌, inl, inr, List, [], ◌∷◌, arith, none,
  contains, ◌==◌, if◌then◌else◌, Bool-cases, ==→eq,
}
use rabbitkit.Prelude.Dict.{get, pop, get-pop, Above-pop, length-pop_le}
use rabbitkit.Coordinator.{Coordinator}
use rabbitkit.Coordinator.Invariant.{IsLedger}
use rabbitkit.Plan.Walk.{SettlementCommand, plan_locked}
use rabbitkit.Plan.{
  SettlementBatch, settle_tags, prepare, commit_command, fail_command, unresolve, release_commands,
  release_each, unreserve,
}

-- The fields that registration and planning go by, but for the reservations.
pub record SameLedger (c d : Coordinator) : Type 0 where
  pub ledger : d.ledger ≡ c.ledger
  pub last_registered : d.last_registered ≡ c.last_registered
  pub gap_floor : d.gap_floor ≡ c.gap_floor
  pub max_pending : d.max_pending ≡ c.max_pending
  pub generation : d.generation ≡ c.generation

pub SameLedger-IsLedger : (c d : Coordinator) → SameLedger c d → IsLedger c → IsLedger d
SameLedger-IsLedger c d s i = record {
  ascending = rw s.ledger i.ascending;
  up_to_last = λ t. rw (s.ledger, s.last_registered) (i.up_to_last t);
  gap_known = rw (s.gap_floor, s.last_registered) i.gap_known;
  bounded = rw (s.max_pending, s.ledger) i.bounded;
}

-- Nothing of the ledger is settled by preparing a batch,
pub prepare-SameLedger : (c : Coordinator) (force : Bool) → SameLedger c (prepare c force).1
unfolding prepare
prepare-SameLedger c force = ground arith

release_each-SameLedger :
    (b : ℕ) (cs : List SettlementCommand) (c : Coordinator) → SameLedger c (release_each b cs c)
unfolding release_each
release_each-SameLedger b [] c = ground arith
release_each-SameLedger b (x ∷ xs) c =
    let rest = release_each-SameLedger b xs (record c {
      reserved = unreserve b x.covers c.reserved;
      frames_not_attempted = c.frames_not_attempted + 1;
    }) in
    record {
      ledger = rest.ledger;
      last_registered = rest.last_registered;
      gap_floor = rest.gap_floor;
      max_pending = rest.max_pending;
      generation = rest.generation;
    }

-- nor by giving up commands that were never attempted.
pub release_commands-SameLedger :
    (c : Coordinator) (batch : SettlementBatch) (cs : List SettlementCommand)
    → SameLedger c (release_commands c batch cs)
unfolding release_commands
release_commands-SameLedger c batch cs = ground (arith, release_each-SameLedger batch.batch_id cs c)

-- `d` is `c` without the entries of `tags`.
pub record Without (tags : List ℕ) (c d : Coordinator) : Type 0 where
  pub entries : (u : ℕ) → get d.ledger u ≡ (if contains tags u then none else get c.ledger u)
  pub last_registered : d.last_registered ≡ c.last_registered
  pub gap_floor : d.gap_floor ≡ c.gap_floor
  pub generation : d.generation ≡ c.generation
  pub shape : IsLedger c → IsLedger d

settle_tags-Without : (tags : List ℕ) (c : Coordinator) → Without tags c (settle_tags tags c)
unfolding settle_tags
settle_tags-Without [] c = record {
  entries = λ u. refl;
  last_registered = refl;
  gap_floor = refl;
  generation = refl;
  shape = λ i. i;
}
settle_tags-Without (tag ∷ tags) c =
    let d = record c {
      ledger = pop tag c.ledger;
      hold = pop tag c.hold;
      requeue = pop tag c.requeue;
      registered_at = pop tag c.registered_at;
      reserved = pop tag c.reserved;
    } in
    let rest : Without tags d (settle_tags tags d) = settle_tags-Without tags d in
    record {
      entries = λ u. ground (arith, rest.entries u, get-pop tag u c.ledger);
      last_registered = rest.last_registered;
      gap_floor = rest.gap_floor;
      generation = rest.generation;
      shape = λ i. rest.shape (record {
        ascending = Above-pop 1 tag c.ledger i.ascending;
        up_to_last = λ t e. i.up_to_last t (ground (arith, get-pop tag t c.ledger));
        gap_known = i.gap_known;
        bounded = λ h. omega (arith, i.bounded h, length-pop_le tag c.ledger);
      });
    }

-- The counters are no part of it.
Without-counters :
    (tags : List ℕ) (c d e : Coordinator) → SameLedger d e → Without tags c d → Without tags c e
Without-counters tags c d e s w = record {
  entries = λ u. rw s.ledger (w.entries u);
  last_registered = s.last_registered ∙ w.last_registered;
  gap_floor = s.gap_floor ∙ w.gap_floor;
  generation = s.generation ∙ w.generation;
  shape = λ i. SameLedger-IsLedger d e s (w.shape i);
}

-- A frame that reached the broker takes its tags from the ledger for good, and so does one whose
-- outcome is unknown.
pub commit_command-Without :
    (c : Coordinator) (batch : SettlementBatch) (x : SettlementCommand)
    → batch.generation ≡ c.generation
    → Without x.covers c (commit_command c batch x)
unfolding commit_command
commit_command-Without c batch x e =
    let same : (batch.generation == c.generation) ≡ true = ground arith in
    rw same (
      Without-counters x.covers c (settle_tags x.covers c) _
        (record {
          ledger = refl;
          last_registered = refl;
          gap_floor = refl;
          max_pending = refl;
          generation = refl;
        })
        (settle_tags-Without x.covers c))

pub unresolve-Without :
    (c : Coordinator) (x : SettlementCommand) → Without x.covers c (unresolve c x)
unfolding unresolve
unresolve-Without c x =
    Without-counters x.covers c (settle_tags x.covers c) _
      (record {
        ledger = refl;
        last_registered = refl;
        gap_floor = refl;
        max_pending = refl;
        generation = refl;
      })
      (settle_tags-Without x.covers c)

-- A batch whose generation is not the coordinator's changes nothing when a command of it is committed,
-- failed or released, and failing one invalidates nothing.
pub stale_batch :
    (c : Coordinator) (batch : SettlementBatch) (x : SettlementCommand)
    (rest : List SettlementCommand)
    → batch.generation ≢ c.generation
    → (commit_command c batch x ≡ c)
      × (fail_command c batch x ≡ (c, false))
      × (release_commands c batch rest ≡ c)
unfolding commit_command fail_command release_commands
stale_batch c batch x rest e =
    let other : (batch.generation == c.generation) ≡ false = ground arith in
    (rw other, rw other, rw other)

pub last_registered-commit_command :
    (c : Coordinator) (batch : SettlementBatch) (x : SettlementCommand)
    → (commit_command c batch x).last_registered ≡ c.last_registered
last_registered-commit_command c batch x = elim (Bool-cases (batch.generation == c.generation)) [
  | inl e ↦ (commit_command-Without c batch x (==→eq _ _ e)).last_registered
  | inr e ↦ rw ((stale_batch c batch x [] (λ g. ground arith)).0) refl
]

pub generation-commit_command :
    (c : Coordinator) (batch : SettlementBatch) (x : SettlementCommand)
    → (commit_command c batch x).generation ≡ c.generation
generation-commit_command c batch x = elim (Bool-cases (batch.generation == c.generation)) [
  | inl e ↦ (commit_command-Without c batch x (==→eq _ _ e)).generation
  | inr e ↦ rw ((stale_batch c batch x [] (λ g. ground arith)).0) refl
]

pub generation-prepare :
    (c : Coordinator) (force : Bool) → (prepare c force).0.generation ≡ c.generation
unfolding prepare
generation-prepare c force = ground arith

-- A batch is empty, or the plan.
pub prepare-commands :
    (c : Coordinator) (force : Bool)
    → ((prepare c force).0.commands ≡ []) ⊎ ((prepare c force).0.commands ≡ (plan_locked c force).0)
unfolding prepare
prepare-commands c force = ground arith
