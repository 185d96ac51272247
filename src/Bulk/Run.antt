-- ===== src/Bulk/Run.antt =====
-- core/bulk_runner.py, `iter_publish_async`: the operation's state, and what happens to it between
-- two points at which a task can be suspended. `_one` of a created task has begun, and with it
-- `admitted` and `inflight` are written, before a cancellation reaches the task: ready callbacks
-- run in order. `items` is what was yielded, or given to `on_item` where it can no longer be.
use rabbitkit.Prelude.{
  ℕ, zero, suc, ◌+◌, ◌-◌, Bool, true, false, ◌&&◌, Option, none, some, List, [], ◌∷◌, ◌++◌,
  if◌then◌else◌, ltb, leb, Text, codes, contains,
}
use rabbitkit.Prelude.Count.{sorted}
use rabbitkit.Bulk.Preparation.{Input, prepare, body_bytes}
use rabbitkit.Bulk.{
  Item, Verdict, verdict, Fault, PublishOutcome, bulk_not_sent, bulk_unknown, invalid,
  classify_publish_outcome, classify_publish_exception,
}

pub record Options : Type 0 where
  pub max_in_flight : ℕ
  pub max_buffer_bytes : ℕ
  pub max_message_bytes : ℕ

-- An entry of `inflight`: the index and the bytes of a body.
pub record InFlight : Type 0 where
  pub index : ℕ
  pub bytes : ℕ

pub record Report : Type 0 where
  pub reported : List ℕ
  pub items : List Item

-- `slots` is the semaphore's value, `used` the byte budget's.
pub record Operation : Type 0 where
  pub index : ℕ
  pub slots : ℕ
  pub used : ℕ
  pub running : List InFlight
  pub finished : List Item
  pub admitted : List ℕ
  pub report : Report

abbrev pub item : ℕ → Verdict → Item
item i v = record { index = i; verdict = v }

-- How a publish call ended.
pub data Ended : Type 0 where
  returns : Option PublishOutcome → Ended
  raises : Fault → Ended

unfoldable pub verdict_of : Ended → Verdict
unfolding classify_publish_outcome classify_publish_exception
verdict_of (returns o) = classify_publish_outcome o
verdict_of (raises exc) = classify_publish_exception exc

unfoldable pub fresh_one : Item → Report → Report
fresh_one x r =
    if contains r.reported x.index
    then r
    else record { reported = x.index ∷ r.reported; items = r.items ++ x ∷ [] }

-- `_fresh`
unfoldable pub fresh_items : List Item → Report → Report
unfolding fresh_one
fresh_items [] r = r
fresh_items (x ∷ xs) r = fresh_items xs (fresh_one x r)

-- `_fresh([*items, *_drain_done()])`
unfoldable pub fresh_drained : List Item → Operation → Operation
unfolding fresh_items
fresh_drained xs o = record o { report = fresh_items (xs ++ o.finished) o.report; finished = [] }

-- `_fresh(items)`
unfoldable pub fresh_only : List Item → Operation → Operation
unfolding fresh_items
fresh_only xs o = record o { report = fresh_items xs o.report }

unfoldable pub next_index : Operation → Operation
next_index o = record o { index = suc o.index }

-- What an admissible input meets: the deadline, a bounded wait for a slot or for bytes that ran
-- out with a reason, or its admission.
pub data Fate : Type 0 where
  overdue : Fate
  no_room : Text → Fate
  granted : Fate

unfoldable pub has_room : Options → ℕ → Operation → Bool
has_room c n o = ltb 0 o.slots && leb (o.used + n) c.max_buffer_bytes

unfoldable pub admit : ℕ → Operation → Operation
unfolding fresh_drained next_index
admit n o = next_index (
    fresh_drained [] (record o {
      slots = o.slots - 1;
      used = o.used + n;
      running = record { index = o.index; bytes = n } ∷ o.running;
      admitted = o.index ∷ o.admitted;
    }))

-- An input that passed `prepare`; without room, a grant does not happen.
unfoldable pub meet : Options → ℕ → Fate → Operation → Operation
unfolding fresh_drained fresh_only next_index has_room admit
meet c n overdue o =
    next_index (fresh_only (item o.index (verdict bulk_not_sent (codes "overall_timeout")) ∷ []) o)
meet c n (no_room reason) o =
    next_index (fresh_drained (item o.index (verdict bulk_not_sent reason) ∷ []) o)
meet c n granted o = if has_room c n o then admit n o else o

unfoldable pub offered : Options → ℕ → Option Text → Fate → Operation → Operation
unfolding meet fresh_drained next_index
offered c n (some reason) fate o =
    next_index (fresh_drained (item o.index (verdict invalid reason) ∷ []) o)
offered c n none fate o = meet c n fate o

-- A task is taken out of the running ones, by its place.
unfoldable pub nth_flight : ℕ → List InFlight → Option InFlight
nth_flight n [] = none
nth_flight zero (f ∷ fs) = some f
nth_flight (suc n) (f ∷ fs) = nth_flight n fs

unfoldable pub without : ℕ → List InFlight → List InFlight
without n [] = []
without zero (f ∷ fs) = fs
without (suc n) (f ∷ fs) = f ∷ without n fs

-- `_one` after its publish call, with `release` of the semaphore and the byte budget
unfoldable pub one_done : ℕ → Option InFlight → Ended → Operation → Operation
unfolding verdict_of without
one_done n none a o = o
one_done n (some f) a o = record o {
  finished = o.finished ++ item f.index (verdict_of a) ∷ [];
  running = without n o.running;
  slots = suc o.slots;
  used = o.used - f.bytes;
}

pub data Event : Type 0 where
  offers : Input → Fate → Event
  settles : ℕ → Ended → Event

unfoldable pub happens : Options → Event → Operation → Operation
unfolding offered one_done nth_flight prepare body_bytes
happens c (offers raw fate) o =
    offered c (body_bytes raw) (prepare c.max_message_bytes c.max_buffer_bytes raw) fate o
happens c (settles n a) o = one_done n (nth_flight n o.running) a o

unfoldable pub run : Options → List Event → Operation → Operation
unfolding happens
run c [] o = o
run c (e ∷ es) o = run c es (happens c e o)

unfoldable pub start : Options → Operation
start c = record {
  index = 0;
  slots = c.max_in_flight;
  used = 0;
  running = [];
  finished = [];
  admitted = [];
  report = record { reported = []; items = [] };
}

-- What the tasks that are being cancelled bring after all: `late` gives the answer of one that
-- ends with an outcome of its own.
unfoldable pub late_items : (InFlight → Option Ended) → List InFlight → List Item
unfolding verdict_of
late_items late [] = []
late_items late (f ∷ fs) =
    let rest = late_items late fs in
    elim (late f) [ none ↦ rest | some a ↦ item f.index (verdict_of a) ∷ rest ]

abbrev pub abandoned : Text → List InFlight → List Item
abandoned reason [] = []
abandoned reason (f ∷ fs) = item f.index (verdict bulk_unknown reason) ∷ abandoned reason fs

-- `_abandon_inflight(reason)`, and `_fresh([*_drain_done(), *abandoned])`
unfoldable pub abandon : Text → (InFlight → Option Ended) → Operation → Operation
unfolding fresh_items late_items
abandon reason late o = record o {
  report =
      fresh_items (o.finished ++ late_items late o.running ++ abandoned reason o.running) o.report;
  finished = [];
  running = [];
}

-- `_missing_items`
unfoldable pub missing_from : List ℕ → List ℕ → List Item
missing_from reported [] = []
missing_from reported (i ∷ is) =
    let rest = missing_from reported is in
    if contains reported i then rest else item i (verdict bulk_unknown (codes "no_outcome")) ∷ rest

-- `_fresh([*_drain_done(), *_missing_items()])`
unfoldable pub sweep : Operation → Operation
unfolding fresh_drained missing_from
sweep o = fresh_drained (missing_from o.report.reported (sorted o.admitted)) o

abbrev pub none_running : List InFlight → Bool
none_running [] = true
none_running (f ∷ fs) = false

-- The drain phase, after the wait for the tasks.
unfoldable pub finish : (InFlight → Option Ended) → Operation → Operation
unfolding fresh_drained abandon sweep
finish late o =
    let drained = fresh_drained [] o in
    sweep
      (if none_running o.running then drained else abandon (codes "overall_timeout") late drained)

-- The handler of CancelledError
unfoldable pub cancel : (InFlight → Option Ended) → Operation → Operation
unfolding abandon sweep
cancel late o = sweep (abandon (codes "cancelled") late o)
