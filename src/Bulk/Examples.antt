-- ===== src/Bulk/Examples.antt =====
-- A bulk publish of three inputs, at two in flight, and the theorems at it.
use rabbitkit.Prelude.{
  ℕ, ◌≤◌, ◌<◌, ◌≡◌, arith, Bool, true, false, Option, none, some, List, [], ◌∷◌, length, map, suc,
  ◌&&◌, leb, codes, if◌then◌else◌, ltb,
}
use rabbitkit.Prelude.Count.{count_from}
use rabbitkit.Bulk.Preparation.{
  Input, foreign, envelope, scalar, entry, no_entries, no_values, HeaderEntries, HeaderValue,
  sequence, value, validate_header_value, is_field_value, nesting, max_depth,
  validate_header_value_lem,
}
use rabbitkit.Bulk.{
  PublishStatus, confirmed, timeout, PublishOutcome, Item, classify_publish_outcome, member,
  all_reasons, ok, safe_to_resubmit,
}
use rabbitkit.Bulk.Run.{
  Options, InFlight, Ended, returns, granted, no_room, Event, offers, settles, run, start, finish,
  cancel,
}
use rabbitkit.Bulk.Outcomes.{classify_publish_outcome-Honest, reports_confirm, reports_unsent}
use rabbitkit.Bulk.Account.{times}
use rabbitkit.Bulk.Accounts.{accounts-once}
use rabbitkit.Bulk.Bounds.{total, in_flight-bounded}
use rabbitkit.Bulk.Sequence.{
  publish_many, publish_many_complete, RaisesExceptions, not_started, too_many, result,
}

abbrev outcome : PublishStatus → PublishOutcome
outcome s = record { status = s; reason = none; error = none }

abbrev headers : HeaderEntries
headers = entry true scalar no_entries

abbrev options : Options
options = record { max_in_flight = 2; max_buffer_bytes = 100; max_message_bytes = 0 }

-- The first and the third are admitted, the second is no envelope, and the first settles.
abbrev events : List Event
events =
    offers (envelope 40 headers) granted
    ∷ offers foreign granted
    ∷ offers (envelope 60 headers) granted
    ∷ offers (envelope 10 headers) (no_room (codes "admission_timeout"))
    ∷ settles 1 (returns (some (outcome confirmed)))
    ∷ []

-- Every task that is cancelled ends with a timeout of its own.
abbrev late : InFlight → Option Ended
late f = some (returns (some (outcome timeout)))

classify_publish_outcome-Honest_example :
    let v = classify_publish_outcome (some (outcome timeout)) in
    (member v.reason all_reasons ≡ true)
    × (ok v.status ≡ reports_confirm (some (outcome timeout)))
    × (safe_to_resubmit v.status ≡ true → reports_unsent (some (outcome timeout)) ≡ true)
classify_publish_outcome-Honest_example = classify_publish_outcome-Honest (some (outcome timeout))

accounts-once_example :
    let o = run options events (start options) in
    (times 2 (finish late o).report.items ≡ (if ltb 2 o.index then 1 else 0))
    × (times 2 (cancel late o).report.items ≡ (if ltb 2 o.index then 1 else 0))
accounts-once_example = accounts-once options events late 2

in_flight-bounded_example :
    let o = run options events (start options) in
    (length o.running ≤ 2) × (total o.running ≤ 100) × (o.used ≡ total o.running)
in_flight-bounded_example = in_flight-bounded options events

-- A transport that counts the publishes and confirms each.
abbrev publish : Input → ℕ → Ended × ℕ
publish raw w = (returns (some (outcome confirmed)), suc w)

publish-RaisesExceptions : RaisesExceptions publish (λ i. i)
publish-RaisesExceptions raw w exc e = absurd (ground (arith, e))

abbrev two : List Input
two = envelope 5 headers ∷ foreign ∷ []

publish_many_complete_example :
    (length two ≤ 10
      → (items : List Item) × ((publish_many publish (λ i. i) true options 10 (some 1) two 0).0
          ≡ result items)
        × (map (λ x. x.index) items ≡ count_from 0 (length two)))
    × (length two ≤ 10
        → publish_many publish (λ i. i) false options 10 (some 1) two 0 ≡ (not_started, 0))
    × ((started : Bool)
        → 10 < length two
        → publish_many publish (λ i. i) started options 10 (some 1) two 0 ≡ (too_many, 0))
publish_many_complete_example =
    publish_many_complete publish (λ i. i) options 10 (some 1) two 0 publish-RaisesExceptions

-- A list with a list and a scalar in it.
abbrev nested : HeaderValue
nested = sequence (value (sequence no_values) (value scalar no_values))

validate_header_value_lem_example :
    validate_header_value 0 nested ≡ (is_field_value nested && leb (nesting nested) max_depth)
validate_header_value_lem_example = validate_header_value_lem nested
