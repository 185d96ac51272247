-- ===== src/Examples.antt =====
-- A ledger of four deliveries, acked, nacked, acked and waiting, on which the theorems are run.
use rabbitkit.Prelude.{
  ℕ, zero, suc, length, ◌≤◌, ◌≡◌, ◌≢◌, refl, Bool, true, false, if◌then◌else◌, List, [], ◌∷◌, ◌++◌,
  map, arith, contains, none, some, keep,
}
use rabbitkit.Prelude.Dict.{get, put, keys}
use rabbitkit.Prelude.Sort.{sort_by, Within}
use rabbitkit.Types.{success, nack, is_ack_safe}
use rabbitkit.Coordinator.Views.{frontier, frontier_from}
use rabbitkit.Coordinator.Frontier.{frontier-success}
use rabbitkit.Coordinator.{
  Coordinator, init, register, registered, set_intent, intended, can_become, same_state,
  sorted_tags, ok,
}
use rabbitkit.Coordinator.Invariant.{
  IsLedger, init-IsLedger, register-IsLedger, set_intent-IsLedger,
}
use rabbitkit.Coordinator.Intents.{decide_all, decide_all-ne-success, set_intent_idem}
use rabbitkit.Plan.{
  settle_tags, must_invalidate, SettlementBatch, prepare, commit_command, fail_command,
}
use rabbitkit.Plan.Walk.{
  ack_one, tag_of, plan_locked, walk, visit, visit_state, visit_ack_safe, visit_return,
  visit_blocking, flush_run, run_commands, safe_part, rest_part, begin,
}
use rabbitkit.Plan.Order.{plan_locked-Within}
use rabbitkit.Plan.Coverage.{all_covers, IsDue, covered-IsDue}
use rabbitkit.Plan.Complete.{is_due, plan_locked_due}
use rabbitkit.Plan.Reserve.{prepare_twice}
use rabbitkit.Emit.{emit_from, on_failure, Frame, emit_batch, apply_commands}
use rabbitkit.Emit.Ledger.{attempted, get-emit_batch}
use rabbitkit.Emit.Report.{attempts, emit_batch-apply_commands}
use rabbitkit.Message.{RabbitMessage, Disposition, Settlement}
use rabbitkit.Message.Once.{Event, calls, begins, ends, all_happen, Agrees, settles_once}

abbrev empty : Coordinator
empty = init 0 true 4 8

abbrev one : Coordinator
one = registered empty 1 0

abbrev two : Coordinator
two = registered one 2 0

abbrev three : Coordinator
three = registered two 3 0

abbrev four : Coordinator
four = registered three 4 0

abbrev acked_first : Coordinator
acked_first = intended four 1 success none

abbrev nacked_second : Coordinator
nacked_second = intended acked_first 2 nack (some false)

abbrev decided : Coordinator
decided = intended nacked_second 3 success none

four-IsLedger : IsLedger four
unfolding init register registered get put
four-IsLedger =
    register-IsLedger three four 4 0
      (register-IsLedger two three 3 0
        (register-IsLedger one two 2 0
          (register-IsLedger empty one 1 0 (init-IsLedger 0 true 4 8) refl) refl)
        refl)
      refl

decided-IsLedger : IsLedger decided
unfolding init registered set_intent intended get put same_state can_become
decided-IsLedger =
    set_intent-IsLedger nacked_second decided 3 success none
      (set_intent-IsLedger acked_first nacked_second 2 nack (some false)
        (set_intent-IsLedger four acked_first 1 success none four-IsLedger refl) refl)
      refl

plan_locked_due_example :
    all_covers (plan_locked decided true).0 ≡ keep (is_due decided) (keys decided.ledger)
unfolding intended registered init
plan_locked_due_example = plan_locked_due decided true refl decided-IsLedger

plan_locked-Within_example : Within tag_of 0 5 (plan_locked decided false).0
unfolding registered intended
plan_locked-Within_example = plan_locked-Within decided false decided-IsLedger

covers_two : contains (all_covers (plan_locked decided false).0) 2 ≡ true
unfolding init registered intended get put sort_by sorted_tags plan_locked walk visit visit_state
    visit_ack_safe visit_return visit_blocking flush_run run_commands safe_part rest_part begin
covers_two = refl

covered-IsDue_example : IsDue decided 2
covered-IsDue_example = covered-IsDue decided false 2 decided-IsLedger covers_two

prepared_two : contains (all_covers (prepare decided false).0.commands) 2 ≡ true
unfolding init registered intended get put sort_by sorted_tags prepare plan_locked walk visit
    visit_state visit_ack_safe visit_return visit_blocking flush_run run_commands safe_part
    rest_part begin
prepared_two = refl

prepare_twice_example :
    contains (all_covers (prepare (prepare decided false).1 true).0.commands) 2 ≡ false
prepare_twice_example = prepare_twice decided false decided-IsLedger true 2 prepared_two

-- The second decision is refused: a nacked delivery is not acked.
decide_all-ne-success_example :
    get (decide_all nacked_second ((3, success, none) ∷ (2, success, none) ∷ [])).ledger 2
    ≢ some success
unfolding init registered intended get put
decide_all-ne-success_example =
    decide_all-ne-success ((3, success, none) ∷ (2, success, none) ∷ []) nacked_second 2 nack refl
      refl

set_intent_idem_example : set_intent nacked_second 2 nack (some false) ≡ ok nacked_second
unfolding init registered set_intent intended get put same_state can_become
set_intent_idem_example = set_intent_idem acked_first nacked_second 2 nack (some false) refl

abbrev batch : SettlementBatch
batch = record { commands = ack_one 0 1 ∷ ack_one 0 3 ∷ []; generation = 0; batch_id = 1 }

-- A wire that takes as many frames as the world says, and fails then.
abbrev takes : Frame → ℕ → ℕ × Bool
takes frame n = elim n [ zero ↦ (0, false) | suc m ↦ (m, true) ]

emit_batch-apply_commands_example :
    let done = emit_batch takes batch decided 1 in
    (map (λ x. (x, true)) done.0.emitted ++ attempts done.0.failed
      ≡ (apply_commands takes batch.commands 1).0)
    × (done.2 ≡ (apply_commands takes batch.commands 1).1)
emit_batch-apply_commands_example = emit_batch-apply_commands takes batch decided 1

abbrev delivery : RabbitMessage
delivery = record {
  delivery_tag = some 1;
  message_id = none;
  ack_fn = true;
  nack_fn = true;
  reject_fn = true;
  ack_async_fn = true;
  nack_async_fn = true;
  reject_async_fn = true;
  disposition = Disposition.pending;
  settle_unknown = false;
  probe = none;
}

-- An ack that raises, an asynchronous nack, an ack while the nack is awaited, and the nack's failure.
abbrev events : List Event
events =
    calls Settlement.ack false
    ∷ begins (Settlement.nack true)
    ∷ calls Settlement.ack true
    ∷ ends false
    ∷ []

settles_once_example :
    let h = all_happen (record { message = delivery; frames = []; failures = 0 }) events in
    (length h.frames ≤ 1) × Agrees h.message.disposition h.frames
settles_once_example = settles_once delivery events refl

frontier-success_example : get decided.ledger 1 ≡ some success
unfolding init registered intended get put sort_by sorted_tags frontier frontier_from is_ack_safe
frontier-success_example = frontier-success decided 1 decided-IsLedger refl (omega arith)

get-emit_batch_example : get (emit_batch takes batch decided 1).1.ledger 3 ≡ (
    if contains (all_covers (attempted takes batch.commands 1)) 3
    then none
    else get decided.ledger 3)
unfolding init registered intended emit_batch emit_from on_failure fail_command must_invalidate
    commit_command settle_tags
get-emit_batch_example = get-emit_batch takes batch decided 1 3 refl refl
