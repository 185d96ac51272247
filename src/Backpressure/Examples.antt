-- ===== src/Backpressure/Examples.antt =====
-- A controller with one slot and a bucket of two tokens per second.
use rabbitkit.Prelude.{◌*◌, ◌+◌, ◌≤◌, ◌≡◌, ◌⊎◌, ◌≢◌, true, false, some, none, List, [], ◌∷◌, arith}
use rabbitkit.Backpressure.{
  new_bucket, new_controller, waits, drops, entering, checking, slot_pressed,
}
use rabbitkit.Backpressure.Bounds.{
  Event, acts, releases, blocks, all_happen, in_flight_le, steps, is_final, is_final-steps,
}
use rabbitkit.Backpressure.Rate.{acquire_all, sum, acquire_all_bounded}

-- Two callers, of which the second finds no slot until the first releases its own.
abbrev events : List Event
events =
    acts waits false 0 entering
    ∷ acts waits false 0 checking
    ∷ acts waits false 0 checking
    ∷ releases
    ∷ acts waits false 1 slot_pressed
    ∷ acts waits false 1 checking
    ∷ blocks
    ∷ []

in_flight_le_example :
    let (f, held) = all_happen (new_controller 1 (some (new_bucket 2 1000 0))) 0 events in
    (held ≤ 1) × ((f.slot_event ≡ true) ⊎ (1 ≤ held))
in_flight_le_example = in_flight_le 1 (some (new_bucket 2 1000 0)) events

drops-ne-waits : drops ≢ waits
drops-ne-waits e = absurd (ground arith)

is_final-steps_example : is_final (steps 3 drops 5 (new_controller 1 none) entering).1 ≡ true
is_final-steps_example = is_final-steps drops 5 (new_controller 1 none) drops-ne-waits

acquire_all_bounded_example :
    (acquire_all (new_bucket 2 1000 0) 0 (0 ∷ 10 ∷ 10 ∷ 500 ∷ [])).1 * 1000
    ≤ 2 * 1000 + sum (0 ∷ 10 ∷ 10 ∷ 500 ∷ []) * 2
acquire_all_bounded_example = acquire_all_bounded 2 1000 0 (0 ∷ 10 ∷ 10 ∷ 500 ∷ [])
