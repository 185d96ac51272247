-- ===== src/System/Prepares.antt =====
-- A batch is prepared: its frames are safe to send.
use rabbitkit.Prelude.{
  refl, ◌≡◌, false, ℕ, suc, ◌≤◌, ◌<◌, Bool, true, List, [], ◌∷◌, arith, All, All-mono, inl, inr,
}
use rabbitkit.Coordinator.{Coordinator}
use rabbitkit.Prelude.Sort.{Within, Within-le}
use rabbitkit.Plan.Walk.{SettlementCommand, tag_of, plan_locked}
use rabbitkit.Plan.Order.{plan_locked-Within}
use rabbitkit.Plan.Settled.{prepare-SameLedger, prepare-commands, generation-prepare}
use rabbitkit.Plan.{prepare}
use rabbitkit.Broker.{Broker}
use rabbitkit.Wire.Safety.{Knows, plan_locked-Safe}
use rabbitkit.Wire.Honest.{plan_locked-Honest}
use rabbitkit.Wire.Knows.{Knows-same}
use rabbitkit.System.{System, is_invalidating, idle}
use rabbitkit.System.Sound.{IsSound, Flight}

Within-below :
    (n b : ℕ) (xs : List SettlementCommand)
    → Within tag_of n b xs
    → All (λ x. x.delivery_tag < b) xs
Within-below n b [] k = tt
Within-below n b (x ∷ xs) k =
    (Within-le tag_of (suc x.delivery_tag) b xs k.1, Within-below (suc x.delivery_tag) b xs k.1)

prepare-Flight :
    (c : Coordinator) (force : Bool) (approved unacked : ℕ → Bool) (d : ℕ)
    → Knows c approved unacked
    → c.last_registered ≤ d
    → Flight approved unacked d (prepare c force).0.commands
prepare-Flight c force approved unacked d k h = elim (prepare-commands c force) [
  | inl e ↦ rw e (record { safe = tt; honest = tt; reach = tt })
  | inr e ↦ rw e (record {
    safe = plan_locked-Safe c force approved unacked k;
    honest = plan_locked-Honest c force approved k.shape (λ t f. k.successes t f.1);
    reach =
        All-mono _ _ (plan_locked c force).0 (λ x l. omega arith)
          (Within-below 0 (suc c.last_registered) (plan_locked c force).0
            (plan_locked-Within c force k.shape));
  })
]

module _ (broker : Broker) where
  open broker use {unacked}

  pub prepares-IsSound :
      (s : System broker) (force : Bool)
      → s.stage ≡ idle
      → IsSound broker s
      → IsSound broker (record s {
        coordinator = (prepare s.coordinator force).1;
        batch = (prepare s.coordinator force).0;
        in_flight = (prepare s.coordinator force).0.commands;
        attached = true;
      })
  unfolding is_invalidating
  prepares-IsSound s force e i =
      let n : is_invalidating s.stage ≡ false = rw e refl in
      let same = prepare-SameLedger s.coordinator force in
      let flight =
        prepare-Flight s.coordinator force s.approved (unacked s.channel) s.delivered (i.knows n)
          i.registered in
      record {
        quiet = λ b. absurd (ground (arith, b, n));
        knows = λ n'.
            Knows-same s.coordinator (prepare s.coordinator force).1 s.approved (unacked s.channel)
              (i.knows n) same;
        flight = λ here. flight;
        age = omega (arith, same.generation, generation-prepare s.coordinator force);
        stale = λ gone. absurd (ground (arith, gone));
        acknowledged = i.acknowledged;
        tags = i.tags;
        registered = rw same.last_registered i.registered;
      }
