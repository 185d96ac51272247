-- ===== src/System/Sound.antt =====
-- The invariant of the system, and the steps that send nothing.
use rabbitkit.Prelude.{
  ℕ, suc, ◌≤◌, ◌<◌, ◌≡◌, refl, [], Bool, true, false, ◌||◌, List, arith, All, All-mono, Option,
  ◌==◌,
}
use rabbitkit.Types.{DeliveryState}
use rabbitkit.Coordinator.{Coordinator, ok, register, set_intent, release, invalidate}
use rabbitkit.Coordinator.Invariant.{
  last_registered-register, last_registered-set_intent, generation-register, generation-set_intent,
}
use rabbitkit.Plan.Walk.{SettlementCommand}
use rabbitkit.Broker.{Broker}
use rabbitkit.Wire.{Safe, Safe-mono, Safe-deliver}
use rabbitkit.Wire.Safety.{Knows}
use rabbitkit.Wire.Honest.{Honest, Honest-mono}
use rabbitkit.Wire.Knows.{
  approve, approve_mono, Knows-register, Knows-set_intent, Knows-deliver, Knows-fewer,
  Knows-release, Knows-invalidate, Knows-same,
}
use rabbitkit.System.{System, is_invalidating, idle, releasing}
use rabbitkit.Plan.{release_commands}
use rabbitkit.Plan.Settled.{release_commands-SameLedger}

-- What a flush on the channel has still to send.
pub record Flight (approved unacked : ℕ → Bool) (d : ℕ) (xs : List SettlementCommand) : Type 0 where
  pub safe : Safe approved unacked xs
  pub honest : All (Honest approved) xs
  pub reach : All (λ x. x.delivery_tag ≤ d) xs

module _ (broker : Broker) where
  open broker use {
    Channel, opened, unacked, acked, receive, deliver as deliver_on, unacked-receive, acked-receive,
    unacked-deliver, acked-deliver, unacked-opened, acked-opened,
  }

  pub record IsSound (s : System broker) : Type 0 where
    pub knows : is_invalidating s.stage ≡ false → Knows s.coordinator s.approved (unacked s.channel)
    -- Nothing is sent between a nack that failed and the invalidation that it calls for.
    pub quiet : is_invalidating s.stage ≡ true → s.in_flight ≡ []
    pub flight : s.attached ≡ true → Flight s.approved (unacked s.channel) s.delivered s.in_flight
    -- A flush that goes on after a reconnect has a batch of an older generation.
    pub age : s.batch.generation ≤ s.coordinator.generation
    pub stale : s.attached ≡ false → s.batch.generation < s.coordinator.generation
    pub acknowledged : (u : ℕ) → acked s.channel u ≡ true → s.approved u ≡ true
    pub tags : (u : ℕ) → unacked s.channel u ≡ true → (0 < u) × (u ≤ s.delivered)
    pub registered : s.coordinator.last_registered ≤ s.delivered

  pub delivers-IsSound :
      (s : System broker)
      → IsSound s
      → IsSound (record s {
        channel = deliver_on (suc s.delivered) s.channel;
        delivered = suc s.delivered;
      })
  delivers-IsSound s i =
      let new = λ (u : ℕ). (u == suc s.delivered) || unacked s.channel u in
      let law : (u : ℕ) → unacked (deliver_on (suc s.delivered) s.channel) u ≡ true → new u ≡ true =
        λ u h. rw (← unacked-deliver (suc s.delivered) s.channel u) h in
      record {
        knows = λ n.
            Knows-fewer s.coordinator s.approved new _
              (Knows-deliver s.coordinator s.approved (unacked s.channel) (suc s.delivered)
                (i.knows n) (omega (arith, i.registered)))
              law;
        quiet = i.quiet;
        flight = λ here.
            let f = i.flight here in
            record {
              safe =
                  Safe-mono s.approved s.approved new _ s.in_flight (λ u h. h) law
                    (Safe-deliver s.approved (unacked s.channel) s.delivered s.in_flight f.reach
                      f.safe);
              honest = f.honest;
              reach = All-mono _ _ s.in_flight (λ x h. omega arith) f.reach;
            };
        age = i.age;
        stale = i.stale;
        acknowledged =
            λ u h. i.acknowledged u (rw (acked-deliver (suc s.delivered) s.channel u) at h);
        tags = λ u h. ground (arith, law u h, i.tags u);
        registered = omega (arith, i.registered);
      }

  pub registers-IsSound :
      (s : System broker) (tag now : ℕ) (c : Coordinator)
      → tag ≤ s.delivered
      → register s.coordinator tag now ≡ ok c
      → IsSound s
      → IsSound (record s { coordinator = c })
  registers-IsSound s tag now c h e i = record {
    knows =
        λ n. Knows-register s.coordinator c s.approved (unacked s.channel) (i.knows n) tag now e;
    quiet = i.quiet;
    flight = i.flight;
    age = rw (generation-register s.coordinator c tag now e) i.age;
    stale = λ gone. rw (generation-register s.coordinator c tag now e) (i.stale gone);
    acknowledged = i.acknowledged;
    tags = i.tags;
    registered = rw (last_registered-register s.coordinator c tag now e) h;
  }

  pub decides-IsSound :
      (s : System broker) (tag : ℕ) (state : DeliveryState) (requeue : Option Bool)
      (c : Coordinator)
      → set_intent s.coordinator tag state requeue ≡ ok c
      → IsSound s
      → IsSound (record s { coordinator = c; approved = approve state tag s.approved })
  decides-IsSound s tag state requeue c e i =
      let more = approve_mono state tag s.approved in
      record {
        knows = λ n.
            Knows-set_intent s.coordinator s.approved (unacked s.channel) c tag state requeue
              (i.knows n) e;
        quiet = i.quiet;
        flight = λ here.
            let f = i.flight here in
            record {
              safe =
                  Safe-mono s.approved (approve state tag s.approved) (unacked s.channel)
                    (unacked s.channel) s.in_flight more (λ u h. h) f.safe;
              honest =
                  All-mono _ _ s.in_flight
                    (Honest-mono s.approved (approve state tag s.approved) more) f.honest;
              reach = f.reach;
            };
        age = rw (generation-set_intent s.coordinator c tag state requeue e) i.age;
        stale =
            λ gone. rw (generation-set_intent s.coordinator c tag state requeue e) (i.stale gone);
        acknowledged = λ u h. more u (i.acknowledged u h);
        tags = i.tags;
        registered =
            rw (last_registered-set_intent s.coordinator c tag state requeue e) i.registered;
      }

  pub releases-IsSound :
      (s : System broker) (tag : ℕ)
      → unacked s.channel tag ≡ false
      → IsSound s
      → IsSound (record s { coordinator = release s.coordinator tag })
  unfolding release
  releases-IsSound s tag gone i = record {
    knows = λ n. Knows-release s.coordinator s.approved (unacked s.channel) tag (i.knows n) gone;
    quiet = i.quiet;
    flight = i.flight;
    age = i.age;
    stale = i.stale;
    acknowledged = i.acknowledged;
    tags = i.tags;
    registered = i.registered;
  }

  pub invalidates-IsSound :
      (s : System broker)
      → IsSound s
      → IsSound (record s { coordinator = (invalidate s.coordinator).0 })
  unfolding invalidate
  invalidates-IsSound s i = record {
    knows =
        λ n. Knows-invalidate s.coordinator s.approved (unacked s.channel) (λ u h. (i.tags u h).0);
    quiet = i.quiet;
    flight = i.flight;
    age = omega (arith, i.age);
    stale = λ gone. omega (arith, i.age);
    acknowledged = i.acknowledged;
    tags = i.tags;
    registered = omega arith;
  }

  pub reconnects-IsSound :
      (s : System broker)
      → IsSound s
      → IsSound (record s {
        coordinator = (invalidate s.coordinator).0;
        channel = opened;
        approved = λ u. false;
        delivered = 0;
        attached = false;
      })
  unfolding invalidate
  reconnects-IsSound s i = record {
    quiet = i.quiet;
    knows = λ n.
        Knows-invalidate s.coordinator (λ u. false) (unacked opened)
          (λ u h. absurd (ground (arith, unacked-opened u)));
    flight = λ here. absurd (ground (arith, here));
    age = omega (arith, i.age);
    stale = λ gone. omega (arith, i.age);
    acknowledged = λ u h. ground (arith, acked-opened u);
    tags = λ u h. absurd (ground (arith, unacked-opened u));
    registered = omega arith;
  }

  pub ends_invalidated-IsSound :
      (s : System broker)
      → IsSound s
      → IsSound (record s { coordinator = (invalidate s.coordinator).0; stage = idle })
  unfolding invalidate is_invalidating
  ends_invalidated-IsSound s i = record {
    knows =
        λ n. Knows-invalidate s.coordinator s.approved (unacked s.channel) (λ u h. (i.tags u h).0);
    quiet = λ b. absurd (ground (arith, b));
    flight = i.flight;
    age = omega (arith, i.age);
    stale = λ gone. omega (arith, i.age);
    acknowledged = i.acknowledged;
    tags = i.tags;
    registered = omega arith;
  }

  pub ends_released-IsSound :
      (s : System broker) (rest : List SettlementCommand)
      → s.stage ≡ releasing rest
      → IsSound s
      → IsSound
          (record s { coordinator = release_commands s.coordinator s.batch rest; stage = idle })
  unfolding is_invalidating
  ends_released-IsSound s rest e i =
      let same = release_commands-SameLedger s.coordinator s.batch rest in
      record {
        knows = λ n.
            Knows-same s.coordinator (release_commands s.coordinator s.batch rest) s.approved
              (unacked s.channel) (i.knows (rw e refl)) same;
        quiet = λ b. absurd (ground (arith, b));
        flight = i.flight;
        age = rw same.generation i.age;
        stale = λ gone. rw same.generation (i.stale gone);
        acknowledged = i.acknowledged;
        tags = i.tags;
        registered = rw same.last_registered i.registered;
      }
