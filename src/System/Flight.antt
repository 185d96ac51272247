-- ===== src/System/Flight.antt =====
-- The frames of a batch are sent or fail.
use rabbitkit.Prelude.{
  ℕ, ◌≤◌, ◌≡◌, refl, ap, ◌<◌, ◌&&◌, if_cases, ◌⊎◌, subst, Bool, true, false, List, [], ◌∷◌, arith,
  if◌then◌else◌, inl, inr, Bool-cases, contains-All, ◌==◌, ==→eq,
}
use rabbitkit.Coordinator.{Coordinator, invalidate}
use rabbitkit.Plan.Walk.{SettlementCommand}
use rabbitkit.Plan.Settled.{
  commit_command-Without, unresolve-Without, stale_batch, last_registered-commit_command,
  generation-commit_command,
}
use rabbitkit.Plan.{SettlementBatch, commit_command, fail_command, unresolve, must_invalidate}
use rabbitkit.Emit.{emit_one}
use rabbitkit.Broker.{Broker, names, is_ack}
use rabbitkit.Wire.{FrameSafe, Safe-mono, left}
use rabbitkit.Wire.Safety.{Knows}
use rabbitkit.Wire.Honest.{Honest}
use rabbitkit.Wire.Knows.{Knows-Without, Knows-fewer}
use rabbitkit.System.{System, Stage, fail_locked, is_invalidating, stage_after}
use rabbitkit.System.Sound.{IsSound, Flight}

-- `fail_command` is what it does under its lock, and the invalidation.
fail_command-fail_locked :
    (c : Coordinator) (batch : SettlementBatch) (x : SettlementCommand)
    → let (c', must) = fail_locked c batch x in
      fail_command c batch x ≡ (if must then ((invalidate c').0, true) else (c', false))
unfolding fail_command fail_locked
fail_command-fail_locked c batch x = ground arith

fail_locked-stale :
    (c : Coordinator) (batch : SettlementBatch) (x : SettlementCommand)
    → batch.generation < c.generation
    → fail_locked c batch x ≡ (c, false)
unfolding fail_locked
fail_locked-stale c batch x h = ground (arith, h)

-- The ledger after a failure: untouched, or without the tags of the command, which is an ack or makes
-- the ledger invalid.
fail_locked-cases :
    (c : Coordinator) (batch : SettlementBatch) (x : SettlementCommand)
    → (fail_locked c batch x ≡ (c, false))
      ⊎ (fail_locked c batch x ≡ (unresolve c x, true))
      ⊎ ((is_ack (emit_one x) ≡ true) × (fail_locked c batch x ≡ (unresolve c x, false)))
unfolding fail_locked must_invalidate emit_one
fail_locked-cases c batch x = ground arith

generation-fail_locked :
    (c : Coordinator) (batch : SettlementBatch) (x : SettlementCommand)
    → (fail_locked c batch x).0.generation ≡ c.generation
generation-fail_locked c batch x =
    let kept = (unresolve-Without c x).generation in
    elim (fail_locked-cases c batch x) [
      | inl e ↦ rw e refl
      | inr (inl e) ↦ rw e kept
      | inr (inr (ack, e)) ↦ rw e kept
    ]

module _ (broker : Broker) where
  open broker use {unacked, acked, receive, unacked-receive, acked-receive}

  knowing :
      (s : System broker) (x : SettlementCommand) (rest : List SettlementCommand)
      → s.in_flight ≡ x ∷ rest
      → IsSound broker s
      → is_invalidating s.stage ≡ false
  knowing s x rest e i = elim (Bool-cases (is_invalidating s.stage)) [
    | inl b ↦ let none_left : [] ≡ x ∷ rest = rw (← i.quiet b) e in absurd (cc none_left)
    | inr b ↦ b
  ]

  -- What a frame leaves of the channel.
  receive_left :
      (s : System broker) (x : SettlementCommand) (u : ℕ)
      → unacked (receive (emit_one x) s.channel) u ≡ true
      → left (unacked s.channel) x u ≡ true
  receive_left s x u h = rw (← unacked-receive (emit_one x) s.channel u) h

  receive_fewer :
      (s : System broker) (x : SettlementCommand) (u : ℕ)
      → unacked (receive (emit_one x) s.channel) u ≡ true
      → unacked s.channel u ≡ true
  receive_fewer s x u h = ground (arith, receive_left s x u h)

  receive_acked :
      (s : System broker) (x : SettlementCommand)
      → IsSound broker s
      → FrameSafe s.approved (unacked s.channel) x
      → (u : ℕ) → acked (receive (emit_one x) s.channel) u ≡ true
      → s.approved u ≡ true
  receive_acked s x i f u h =
      ground (arith, acked-receive (emit_one x) s.channel u, i.acknowledged u, f u)

  committed :
      (s : System broker) (x : SettlementCommand)
      → IsSound broker s
      → is_invalidating s.stage ≡ false
      → Honest s.approved x
      → Knows
          (commit_command s.coordinator s.batch x)
          s.approved
          (unacked (receive (emit_one x) s.channel))
  committed s x i n honest = elim (Bool-cases (s.batch.generation == s.coordinator.generation)) [
    | inl e ↦
        Knows-Without s.coordinator (commit_command s.coordinator s.batch x) s.approved
          (unacked s.channel) (i.knows n) x.covers _
          (commit_command-Without s.coordinator s.batch x (==→eq _ _ e)) (receive_fewer s x)
          (λ u k h. ground (
            arith,
            receive_left s x u h,
            contains-All (λ t. names (emit_one x) t ≡ true) x.covers u honest.named k,
          ))
    | inr e ↦
        rw ((stale_batch s.coordinator s.batch x [] (λ g. ground arith)).0) (
          Knows-fewer s.coordinator s.approved (unacked s.channel) _ (i.knows n)
            (receive_fewer s x))
  ]

  -- A command of a flush that began on this channel is sent.
  sent_here :
      (s : System broker) (x : SettlementCommand) (rest : List SettlementCommand)
      → s.in_flight ≡ x ∷ rest
      → s.attached ≡ true
      → IsSound broker s
      → IsSound broker (record s {
        coordinator = commit_command s.coordinator s.batch x;
        channel = receive (emit_one x) s.channel;
        in_flight = rest;
      })
  sent_here s x rest e here i =
      let f : Flight s.approved (unacked s.channel) s.delivered (x ∷ rest) =
        subst (Flight s.approved (unacked s.channel) s.delivered) e (i.flight here) in
      record {
        knows = λ n. committed s x i n f.honest.0;
        quiet = λ b. absurd (ground (arith, b, knowing s x rest e i));
        flight = λ _. record {
          safe =
              Safe-mono s.approved s.approved (left (unacked s.channel) x) _ rest (λ u h. h)
                (receive_left s x) f.safe.1;
          honest = f.honest.1;
          reach = f.reach.1;
        };
        age = rw (generation-commit_command s.coordinator s.batch x) i.age;
        stale = λ gone. rw (generation-commit_command s.coordinator s.batch x) (i.stale gone);
        acknowledged = receive_acked s x i f.safe.0;
        tags = λ u h. i.tags u (receive_fewer s x u h);
        registered = rw (last_registered-commit_command s.coordinator s.batch x) i.registered;
      }

  -- What goes to an old channel leaves the coordinator and this channel alone.
  gone_on :
      (s : System broker) (c : Coordinator) (rest : List SettlementCommand) (stage : Stage)
      → c ≡ s.coordinator
      → is_invalidating s.stage ≡ false
      → is_invalidating stage ≡ false
      → s.attached ≡ false
      → IsSound broker s
      → IsSound broker (record s { coordinator = c; in_flight = rest; stage = stage })
  gone_on s c rest stage same n n' gone i = record {
    knows = λ _. rw same (i.knows n);
    quiet = λ b. absurd (ground (arith, b, n'));
    flight = λ here. absurd (ground (arith, here, gone));
    age = rw same i.age;
    stale = λ g. rw same (i.stale gone);
    acknowledged = i.acknowledged;
    tags = i.tags;
    registered = rw same i.registered;
  }

  pub sends-IsSound :
      (s : System broker) (x : SettlementCommand) (rest : List SettlementCommand)
      → s.in_flight ≡ x ∷ rest
      → IsSound broker s
      → IsSound broker (record s {
        coordinator = commit_command s.coordinator s.batch x;
        channel = if s.attached then receive (emit_one x) s.channel else s.channel;
        in_flight = rest;
      })
  sends-IsSound s x rest e i =
      let c = commit_command s.coordinator s.batch x in
      if_cases (λ ch. IsSound broker (record s { coordinator = c; channel = ch; in_flight = rest }))
        s.attached (receive (emit_one x) s.channel) s.channel (λ here. sent_here s x rest e here i)
        (λ gone.
          let old = i.stale gone in
          let n = knowing s x rest e i in
          gone_on s c rest s.stage
            ((stale_batch s.coordinator s.batch x rest (λ g. absurd (omega (arith, old, g)))).0) n n
            gone i)

  -- The channel after a call that raised.
  abbrev perhaps : System broker → SettlementCommand → Bool → broker.Channel
  perhaps s x arrived = if arrived then receive (emit_one x) s.channel else s.channel

  perhaps_fewer :
      (s : System broker) (x : SettlementCommand) (arrived : Bool) (u : ℕ)
      → unacked (perhaps s x arrived) u ≡ true
      → unacked s.channel u ≡ true
  perhaps_fewer s x true u h = receive_fewer s x u h
  perhaps_fewer s x false u h = h

  perhaps_acked :
      (s : System broker) (x : SettlementCommand) (arrived : Bool)
      → IsSound broker s
      → FrameSafe s.approved (unacked s.channel) x
      → (u : ℕ) → acked (perhaps s x arrived) u ≡ true
      → s.approved u ≡ true
  perhaps_acked s x true i f u h = receive_acked s x i f u h
  perhaps_acked s x false i f u h = i.acknowledged u h

  -- The ledger after a failure knows the channel unless it is to be invalidated, and registers no tag
  -- beyond it.
  failed-Knows :
      (s : System broker) (x : SettlementCommand) (arrived : Bool)
      → IsSound broker s
      → is_invalidating s.stage ≡ false
      → Honest s.approved x
      → let (c, must) = fail_locked s.coordinator s.batch x in
        (must ≡ false → Knows c s.approved (unacked (perhaps s x arrived)))
        × (c.last_registered ≤ s.delivered)
  failed-Knows s x arrived i n honest =
      let d = unresolve s.coordinator x in
      let gone = unresolve-Without s.coordinator x in
      elim (fail_locked-cases s.coordinator s.batch x) [
        | inl e ↦ rw e (
          λ _.
              Knows-fewer s.coordinator s.approved (unacked s.channel) _ (i.knows n)
                (perhaps_fewer s x arrived),
          i.registered,
        )
        | inr (inl e) ↦ rw e (λ b. absurd (ground (arith, b)), rw gone.last_registered i.registered)
        | inr (inr (ack, e)) ↦ rw e (
          λ _.
              Knows-Without s.coordinator d s.approved (unacked s.channel) (i.knows n) x.covers _
                gone (perhaps_fewer s x arrived)
                (λ u k _. contains-All (λ t. s.approved t ≡ true) x.covers u (honest.fine ack) k),
          rw gone.last_registered i.registered,
        )
      ]

  stage_after-false :
      (must : Bool) (rest : List SettlementCommand)
      → is_invalidating (stage_after must rest) ≡ false
      → must ≡ false
  unfolding is_invalidating stage_after
  stage_after-false must rest h = ground (arith, h)

  -- A command of a flush that began on this channel fails.
  failed_here :
      (s : System broker) (x : SettlementCommand) (rest : List SettlementCommand) (arrived : Bool)
      → s.in_flight ≡ x ∷ rest
      → s.attached ≡ true
      → IsSound broker s
      → IsSound broker (record s {
        coordinator = (fail_locked s.coordinator s.batch x).0;
        channel = perhaps s x arrived;
        in_flight = [];
        stage = stage_after (fail_locked s.coordinator s.batch x).1 rest;
      })
  failed_here s x rest arrived e here i =
      let f : Flight s.approved (unacked s.channel) s.delivered (x ∷ rest) =
        subst (Flight s.approved (unacked s.channel) s.delivered) e (i.flight here) in
      let kept = failed-Knows s x arrived i (knowing s x rest e i) f.honest.0 in
      let (c, must) = fail_locked s.coordinator s.batch x in
      record {
        knows = λ n. kept.0 (stage_after-false must rest n);
        quiet = λ _. refl;
        flight = λ _. record { safe = tt; honest = tt; reach = tt };
        age = rw (generation-fail_locked s.coordinator s.batch x) i.age;
        stale = λ gone. absurd (ground (arith, here, gone));
        acknowledged = perhaps_acked s x arrived i f.safe.0;
        tags = λ u h. i.tags u (perhaps_fewer s x arrived u h);
        registered = kept.1;
      }

  pub fails-IsSound :
      (s : System broker) (x : SettlementCommand) (rest : List SettlementCommand) (arrived : Bool)
      → s.in_flight ≡ x ∷ rest
      → IsSound broker s
      → IsSound broker (record s {
        coordinator = (fail_locked s.coordinator s.batch x).0;
        channel = if s.attached && arrived then receive (emit_one x) s.channel else s.channel;
        in_flight = [];
        stage = stage_after (fail_locked s.coordinator s.batch x).1 rest;
      })
  unfolding stage_after is_invalidating
  fails-IsSound s x rest arrived e i =
      let r = fail_locked s.coordinator s.batch x in
      let Left = λ (b : Bool). IsSound broker (record s {
        coordinator = r.0;
        channel = perhaps s x b;
        in_flight = [];
        stage = stage_after r.1 rest;
      }) in
      elim (Bool-cases s.attached) [
        | inl here ↦
            let same : arrived ≡ (s.attached && arrived) = ground (arith, here) in
            subst Left same (failed_here s x rest arrived e here i)
        | inr gone ↦
            let same : false ≡ (s.attached && arrived) = ground (arith, gone) in
            let old = fail_locked-stale s.coordinator s.batch x (i.stale gone) in
            subst Left same (
              gone_on s r.0 [] (stage_after r.1 rest) (ap (λ p. p.0) old) (knowing s x rest e i)
                (rw old refl) gone i)
      ]
