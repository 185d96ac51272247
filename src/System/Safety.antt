-- ===== src/System/Safety.antt =====
-- No reachable state has acknowledged a delivery that was not approved.
use rabbitkit.Prelude.{ℕ, ◌≡◌, Bool, true, false, [], arith}
use rabbitkit.Coordinator.{init}
use rabbitkit.Coordinator.Invariant.{init-IsLedger}
use rabbitkit.Broker.{Broker}
use rabbitkit.Prelude.Dict.{get}
use rabbitkit.System.{
  System, Step, Reach, here, next, delivers, registers, decides, releases, prepares, sends, fails,
  invalidates, reconnects, ends_invalidated, ends_released, idle, is_invalidating,
}
use rabbitkit.System.Sound.{
  IsSound, delivers-IsSound, registers-IsSound, decides-IsSound, releases-IsSound,
  invalidates-IsSound, reconnects-IsSound, ends_invalidated-IsSound, ends_released-IsSound,
}
use rabbitkit.System.Prepares.{prepares-IsSound}
use rabbitkit.System.Flight.{sends-IsSound, fails-IsSound}

module _ (broker : Broker) where
  open broker use {opened, acked, unacked, acked-opened, unacked-opened}

  pub Step-IsSound : {s t : System broker} → Step broker s t → IsSound broker s → IsSound broker t
  Step-IsSound {s} delivers i = delivers-IsSound broker s i
  Step-IsSound {s} (registers tag now c h e) i = registers-IsSound broker s tag now c h e i
  Step-IsSound {s} (decides tag state r c e) i = decides-IsSound broker s tag state r c e i
  Step-IsSound {s} (releases tag gone) i = releases-IsSound broker s tag gone i
  Step-IsSound {s} (prepares force done ready) i = prepares-IsSound broker s force ready i
  Step-IsSound {s} (sends x rest e) i = sends-IsSound broker s x rest e i
  Step-IsSound {s} (fails x rest arrived e) i = fails-IsSound broker s x rest arrived e i
  Step-IsSound {s} (ends_invalidated e) i = ends_invalidated-IsSound broker s i
  Step-IsSound {s} (ends_released rest e) i = ends_released-IsSound broker s rest e i
  Step-IsSound {s} invalidates i = invalidates-IsSound broker s i
  Step-IsSound {s} reconnects i = reconnects-IsSound broker s i

  pub Reach-IsSound : {s t : System broker} → Reach broker s t → IsSound broker s → IsSound broker t
  Reach-IsSound here i = i
  Reach-IsSound (next r step) i = Step-IsSound step (Reach-IsSound r i)

  -- A new coordinator on a new channel.
  abbrev pub start : ℕ → Bool → ℕ → ℕ → System broker
  start generation coalesce max_hold max_pending = record {
    coordinator = init generation coalesce max_hold max_pending;
    channel = opened;
    approved = λ u. false;
    delivered = 0;
    batch = record { commands = []; generation = generation; batch_id = 0 };
    in_flight = [];
    attached = true;
    stage = idle;
  }

  pub start-IsSound : (g : ℕ) (b : Bool) (h p : ℕ) → IsSound broker (start g b h p)
  unfolding init get is_invalidating
  start-IsSound g b h p = record {
    quiet = λ b. absurd (ground (arith, b));
    knows = λ n. record {
      shape = init-IsLedger g b h p;
      accounted = λ u e. absurd (ground (arith, unacked-opened u));
      successes = λ u e. cc;
    };
    flight = λ here. record { safe = tt; honest = tt; reach = tt };
    age = omega arith;
    stale = λ gone. absurd (ground (arith, gone));
    acknowledged = λ u e. ground (arith, acked-opened u);
    tags = λ u e. absurd (ground (arith, unacked-opened u));
    registered = omega arith;
  }

  -- In every state that is reached from a new coordinator on a new channel, by deliveries,
  -- registrations, decisions, releases of deliveries that are not unacknowledged, batches that are
  -- prepared, frames that are sent or fail, with what follows a failure, invalidations and reconnects
  -- in any order, also with a flush in progress, where its callables are bound to the channel that it
  -- began on, as CoalescingAcker asks: each delivery that the broker holds for acknowledged is one on
  -- which `mark_success` returned on this channel.
  pub acked-approved :
      (g : ℕ) (b : Bool) (h p : ℕ) (s : System broker)
      → Reach broker (start g b h p) s
      → (u : ℕ) → acked s.channel u ≡ true
      → s.approved u ≡ true
  acked-approved g b h p s r u e = (Reach-IsSound r (start-IsSound g b h p)).acknowledged u e
