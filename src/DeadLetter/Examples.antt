-- ===== src/DeadLetter/Examples.antt =====
-- Two rejections from one queue, and the theorem at them.
use rabbitkit.Prelude.{◌≡◌, refl, true, false, some, same_text, List, [], ◌∷◌, codes}
use rabbitkit.DeadLetter.{Route, Check, Event, declares, begins, ends, exists, run, start}
use rabbitkit.DeadLetter.Verified.{all_vouched, allowed-vouched}

abbrev route : Route
route = record {
  queue_name = codes "orders";
  exchange = some [];
  routing_key = some (codes "dlq");
  is_quorum = true;
  is_at_least_once = false;
}

-- The second check comes within the five seconds that the first one's answer is trusted.
abbrev events : List Event
events =
    declares (codes "orders") (some []) (some (codes "dlq"))
    ∷ begins route 10
    ∷ ends 0 exists
    ∷ begins route 14
    ∷ []

abbrev both : List Check
both = (codes "dlq", 14) ∷ (codes "dlq", 10) ∷ []

events_allowed : (run 5 events start).allowed ≡ both
unfolding run start same_text
events_allowed = refl

allowed-vouched_example : let s = run 5 events start in all_vouched 5 s.positives s.allowed ≡ true
allowed-vouched_example = allowed-vouched 5 events
