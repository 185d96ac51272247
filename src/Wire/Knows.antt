-- ===== src/Wire/Knows.antt =====
-- Each operation of the coordinator keeps what it knows of the channel.
use rabbitkit.Prelude.{
  ℕ, ◌<◌, ◌≡◌, subst, Bool, true, false, ◌||◌, inl, inr, List, arith, contains, ◌==◌, Option,
  Bool-cases, some,
}
use rabbitkit.Prelude.Dict.{get, get-put, get-pop}
use rabbitkit.Types.{DeliveryState, outstanding, success}
use rabbitkit.Coordinator.{
  Coordinator, ok, register, registered, set_intent, intended, release, invalidate,
}
use rabbitkit.Coordinator.Invariant.{
  register-eq-ok, register-IsLedger, set_intent-eq-ok, set_intent-IsLedger, release-IsLedger,
  invalidate-IsLedger,
}
use rabbitkit.Plan.Settled.{SameLedger, SameLedger-IsLedger, Without}
use rabbitkit.Wire.Safety.{Knows}

-- The approved tags after a decision.
abbrev pub approve : DeliveryState → ℕ → (ℕ → Bool) → ℕ → Bool
approve success tag approved u = (u == tag) || approved u
approve _ tag approved u = approved u

pub approve_mono :
    (s : DeliveryState) (tag : ℕ) (approved : ℕ → Bool) (u : ℕ)
    → approved u ≡ true
    → approve s tag approved u ≡ true
approve_mono success tag approved u e = ground arith
approve_mono _ tag approved u e = e

module _ (c d : Coordinator) (approved unacked : ℕ → Bool) (k : Knows c approved unacked) where
  pub Knows-register : (tag now : ℕ) → register c tag now ≡ ok d → Knows d approved unacked
  unfolding registered
  Knows-register tag now e =
      let (same, after, _) = register-eq-ok c d tag now e in
      record {
        shape = register-IsLedger c d tag now k.shape e;
        accounted = λ u h. ground (
          arith,
          same,
          after,
          k.accounted u h,
          k.shape.gap_known,
          get-put tag u outstanding c.ledger,
        );
        successes = λ u h. ground (arith, same, k.successes u, get-put tag u outstanding c.ledger);
      }

  Knows-approve :
      (approved' : ℕ → Bool)
      → ((u : ℕ) → approved u ≡ true → approved' u ≡ true)
      → Knows c approved' unacked
  Knows-approve approved' more = record {
    shape = k.shape;
    accounted = λ u h. ground (arith, k.accounted u h, more u);
    successes = λ u h. more u (k.successes u h);
  }

  pub Knows-same : SameLedger c d → Knows d approved unacked
  Knows-same s = record {
    shape = SameLedger-IsLedger c d s k.shape;
    accounted = λ u h. rw (s.ledger, s.last_registered, s.gap_floor) (k.accounted u h);
    successes = λ u h. k.successes u (rw (← s.ledger) h);
  }

  -- Entries leave the ledger if their tags are settled, or approved.
  pub Knows-Without :
      (tags : List ℕ) (unacked' : ℕ → Bool)
      → Without tags c d
      → ((u : ℕ) → unacked' u ≡ true → unacked u ≡ true)
      → ((u : ℕ) → contains tags u ≡ true → unacked' u ≡ true → approved u ≡ true)
      → Knows d approved unacked'
  Knows-Without tags unacked' w fewer fine = record {
    shape = w.shape k.shape;
    accounted = λ u h.
        ground
          (arith, k.accounted u (fewer u h), fine u, w.entries u, w.last_registered, w.gap_floor);
    successes = λ u h. ground (arith, k.successes u, w.entries u);
  }

module _ (c : Coordinator) (approved unacked : ℕ → Bool) where
  intended_successes :
      (tag : ℕ) (s old : DeliveryState) (r : Option Bool)
      → Knows c approved unacked
      → (u : ℕ) → get (intended c tag s r).ledger u ≡ some success
      → approve s tag approved u ≡ true
  unfolding intended
  intended_successes tag success old r k u h =
      ground (arith, k.successes u, get-put tag u success c.ledger)
  intended_successes tag s old r k u h = ground (arith, k.successes u, get-put tag u s c.ledger)

  -- A decision is recorded, and approves its tag if it is a success.
  pub Knows-set_intent :
      (d : Coordinator) (tag : ℕ) (s : DeliveryState) (r : Option Bool)
      → Knows c approved unacked
      → set_intent c tag s r ≡ ok d
      → Knows d (approve s tag approved) unacked
  unfolding intended
  Knows-set_intent d tag s r k e = elim (set_intent-eq-ok c d tag s r e) [
    | inl (same, _) ↦
        subst (λ x. Knows x (approve s tag approved) unacked) same
          (Knows-approve c c approved unacked k (approve s tag approved)
            (approve_mono s tag approved))
    | inr (old, f, _, same) ↦
        subst (λ x. Knows x (approve s tag approved) unacked) same
          (record {
            shape = rw same (set_intent-IsLedger c d tag s r k.shape e);
            accounted = λ u h.
                ground
                  (arith, k.accounted u h, approve_mono s tag approved u, get-put tag u s c.ledger);
            successes = intended_successes tag s old r k;
          })
  ]

  pub Knows-deliver :
      (tag : ℕ)
      → Knows c approved unacked
      → c.last_registered < tag
      → Knows c approved (λ u. (u == tag) || unacked u)
  Knows-deliver tag k late = record {
    shape = k.shape;
    accounted = λ u h. elim (Bool-cases (u == tag)) [
      | inl new ↦ inr (inr (inl (ground arith)))
      | inr old ↦ k.accounted u (ground arith)
    ];
    successes = k.successes;
  }

  pub Knows-fewer :
      (unacked' : ℕ → Bool)
      → Knows c approved unacked
      → ((u : ℕ) → unacked' u ≡ true → unacked u ≡ true)
      → Knows c approved unacked'
  Knows-fewer unacked' k fewer = record {
    shape = k.shape;
    accounted = λ u h. k.accounted u (fewer u h);
    successes = k.successes;
  }

  pub Knows-release :
      (tag : ℕ)
      → Knows c approved unacked
      → unacked tag ≡ false
      → Knows (release c tag) approved unacked
  unfolding release
  Knows-release tag k gone = record {
    shape = release-IsLedger c tag k.shape;
    accounted = λ u h. ground (arith, k.accounted u h, get-pop tag u c.ledger);
    successes = λ u h. ground (arith, k.successes u, get-pop tag u c.ledger);
  }

  -- A dropped ledger knows nothing, and takes every tag for one that it has yet to see.
  pub Knows-invalidate :
      ((u : ℕ) → unacked u ≡ true → 0 < u) → Knows (invalidate c).0 approved unacked
  unfolding invalidate get
  Knows-invalidate positive = record {
    shape = invalidate-IsLedger c;
    accounted = λ u h. inr (inr (inl (positive u h)));
    successes = λ u h. cc;
  }
