-- ===== src/DeadLetter.antt =====
-- core/dead_letter.py, `DeadLetterGuard`: before a delivery is dead-lettered, is its queue there?
-- `check` is cut where it awaits the probe, which is a parameter: what it answers, or that it
-- raised, comes with the event that ends the check. Times are numbers, and `_targets` and
-- `_verified_until` are functions of their keys.
use rabbitkit.Prelude.{
  ℕ, zero, suc, ◌+◌, ◌≡◌, refl, Bool, true, false, ◌&&◌, ◌||◌, not, Option, none, some, List, [],
  ◌∷◌, arith, if◌then◌else◌, if_cases, ltb, leb, Text, is_empty, same_text,
}
pub mod Verified
mod Examples

-- What of a route and its queue the guard asks.
pub record Route : Type 0 where
  pub queue_name : Text
  pub exchange : Option Text
  pub routing_key : Option Text
  pub is_quorum : Bool
  pub is_at_least_once : Bool

pub record Guard : Type 0 where
  pub targets : Text → Option (Option Text)
  pub verified_until : Text → ℕ
  pub probes : ℕ
  pub missing : ℕ

abbrev pub update : {A : Type 0} → Text → A → (Text → A) → Text → A
update k v d j = if same_text k j then v else d j

-- `routing_key if exchange == "" and routing_key else None`
unfoldable pub addressable : Option Text → Option Text → Option Text
addressable none key = none
addressable (some exchange) none = none
addressable (some exchange) (some key) =
    if is_empty exchange && not (is_empty key) then some key else none

unfoldable pub set_target : Text → Option Text → Option Text → Guard → Guard
unfolding addressable
set_target queue exchange key g = record g {
  targets = update queue (some (addressable exchange key)) g.targets;
  verified_until = update queue 0 g.verified_until;
}

unfoldable pub recorded_target : Option (Option Text) → Route → Option Text
unfolding addressable
recorded_target (some target) r = target
recorded_target none r = addressable r.exchange r.routing_key

unfoldable pub target_for : Route → Guard → Option Text
unfolding recorded_target
target_for r g = recorded_target (g.targets r.queue_name) r

unfoldable pub broker_retains_dead_letters : Route → Bool
broker_retains_dead_letters r = r.is_quorum && r.is_at_least_once

-- What `check` has to verify: `none` where it returns True at once.
unfoldable pub to_verify : Route → Guard → Option Text
unfolding target_for broker_retains_dead_letters
to_verify r g = if broker_retains_dead_letters r then none else target_for r g

unfoldable pub is_cached : Text → ℕ → Guard → Bool
is_cached target now g = ltb now (g.verified_until target)

pub data ProbeAnswer : Type 0 where
  exists absent failed : ProbeAnswer

unfoldable pub found : Text → ℕ → Guard → Guard
found target until g = record g { verified_until = update target until g.verified_until }

unfoldable pub not_found : Text → Guard → Guard
not_found target g = record g {
  verified_until = update target 0 g.verified_until;
  missing = suc g.missing;
}

-- A target and the time at which its check read the clock.
abbrev pub Check : Type 0
Check = Text × ℕ

-- A run: the checks that await their probe, and of the past, the probes that found a queue and the
-- checks of a target that returned True.
pub record Run : Type 0 where
  pub guard : Guard
  pub waiting : List Check
  pub positives : List Check
  pub allowed : List Check

-- `check` up to its probe
unfoldable pub check_from : Option Text → ℕ → Run → Run
unfolding is_cached
check_from none now s = s
check_from (some target) now s =
    if is_cached target now s.guard
    then record s { allowed = (target, now) ∷ s.allowed }
    else (let g = s.guard in
        record s {
          guard = record g { probes = suc g.probes };
          waiting = (target, now) ∷ s.waiting;
        })

-- `check` from its probe on
unfoldable pub check_to : ℕ → ProbeAnswer → Check → Run → Run
unfolding found not_found
check_to ttl exists (target, now) s = record s {
  guard = found target (now + ttl) s.guard;
  positives = (target, now) ∷ s.positives;
  allowed = (target, now) ∷ s.allowed;
}
check_to ttl _ (target, now) s = record s { guard = not_found target s.guard }

pub data Event : Type 0 where
  declares : Text → Option Text → Option Text → Event
  begins : Route → ℕ → Event
  ends : ℕ → ProbeAnswer → Event

unfoldable pub nth_check : ℕ → List Check → Option Check
nth_check n [] = none
nth_check zero (k ∷ ks) = some k
nth_check (suc n) (k ∷ ks) = nth_check n ks

unfoldable pub check_answered : ℕ → ProbeAnswer → Option Check → Run → Run
unfolding check_to
check_answered ttl answer none s = s
check_answered ttl answer (some k) s = check_to ttl answer k s

unfoldable pub happens : ℕ → Event → Run → Run
unfolding set_target check_from to_verify check_answered nth_check
happens ttl (declares queue exchange key) s = record s {
  guard = set_target queue exchange key s.guard;
}
happens ttl (begins route now) s = check_from (to_verify route s.guard) now s
happens ttl (ends n answer) s = check_answered ttl answer (nth_check n s.waiting) s

unfoldable pub run : ℕ → List Event → Run → Run
unfolding happens
run ttl [] s = s
run ttl (e ∷ es) s = run ttl es (happens ttl e s)

-- `DeadLetterGuard.__init__`
unfoldable pub start : Run
start = record {
  guard = record { targets = λ k. none; verified_until = λ k. 0; probes = 0; missing = 0 };
  waiting = [];
  positives = [];
  allowed = [];
}
