-- ===== src/System/Examples.antt =====
-- A run in which two deliveries are acknowledged by one cumulative ack, and one in which a nack fails.
use rabbitkit.Prelude.{◌≡◌, refl, true, false, [], ◌∷◌, none, arith}
use rabbitkit.Types.{success}
use rabbitkit.Coordinator.{
  Coordinator, init, register, registered, set_intent, intended, can_become, same_state,
  sorted_tags,
}
use rabbitkit.Prelude.Dict.{get, put}
use rabbitkit.Prelude.Sort.{sort_by}
use rabbitkit.Plan.{prepare, commit_command}
use rabbitkit.Plan.Walk.{
  SettlementCommand, ack_run, plan_locked, walk, visit, visit_state, visit_ack_safe, flush_run,
  run_commands, safe_part, rest_part, begin,
}
use rabbitkit.Emit.{emit_one}
use rabbitkit.Broker.{two_sets}
use rabbitkit.Wire.Knows.{approve}
use rabbitkit.System.{
  System, is_invalidating, Reach, here, next, delivers, registers, decides, prepares, sends,
}
use rabbitkit.System.Safety.{start, start-IsSound, Reach-IsSound, acked-approved}
use rabbitkit.System.Sound.{IsSound}
use rabbitkit.Wire.{Safe}
use rabbitkit.Wire.Safety.{plan_locked-Safe}

abbrev first : Coordinator
first = registered (init 0 true 0 0) 1 0

abbrev first_done : Coordinator
first_done = intended first 1 success none

abbrev second : Coordinator
second = registered first_done 2 0

abbrev both_done : Coordinator
both_done = intended second 2 success none

abbrev command : SettlementCommand
command = ack_run 0 (1 ∷ 2 ∷ [])

-- The states of the run, each with the step that leads to it.
abbrev delivered_both : System two_sets
delivered_both = record (start two_sets 0 true 0 0) {
  channel = two_sets.deliver 2 (two_sets.deliver 1 two_sets.opened);
  delivered = 2;
}

abbrev done_first : System two_sets
done_first = record delivered_both {
  coordinator = first_done;
  approved = approve success 1 (λ u. false);
}

abbrev done_both : System two_sets
done_both = record delivered_both {
  coordinator = both_done;
  approved = approve success 2 (approve success 1 (λ u. false));
}

abbrev prepared : System two_sets
prepared = record done_both {
  coordinator = (prepare both_done false).1;
  batch = (prepare both_done false).0;
  in_flight = (prepare both_done false).0.commands;
  attached = true;
}

abbrev acknowledged : System two_sets
acknowledged = record prepared {
  coordinator = commit_command (prepare both_done false).1 (prepare both_done false).0 command;
  channel = two_sets.receive (emit_one command) prepared.channel;
  in_flight = [];
}

coalesced : (prepare both_done false).0.commands ≡ command ∷ []
unfolding init registered intended get put sort_by sorted_tags prepare plan_locked walk visit
    visit_state visit_ack_safe flush_run run_commands safe_part rest_part begin
coalesced = refl

run_delivered : Reach two_sets (start two_sets 0 true 0 0) delivered_both
run_delivered = next (next here delivers) delivers

run_first : Reach two_sets (start two_sets 0 true 0 0) done_first
unfolding init register registered set_intent intended get put same_state can_become
run_first =
    next (next run_delivered (registers 1 0 first (omega arith) refl))
      (decides 1 success none first_done refl)

run_both : Reach two_sets (start two_sets 0 true 0 0) done_both
unfolding init register registered set_intent intended get put same_state can_become
run_both =
    next (next run_first (registers 2 0 second (omega arith) refl))
      (decides 2 success none both_done refl)

run_acknowledged : Reach two_sets (start two_sets 0 true 0 0) acknowledged
run_acknowledged = next (next run_both (prepares false refl refl)) (sends command [] coalesced)

acked-approved_example : acknowledged.approved 1 ≡ true
unfolding emit_one
acked-approved_example = acked-approved two_sets 0 true 0 0 acknowledged run_acknowledged 1 refl

done_both-IsSound : IsSound two_sets done_both
done_both-IsSound = Reach-IsSound two_sets run_both (start-IsSound two_sets 0 true 0 0)

plan_locked-Safe_example :
    Safe done_both.approved (two_sets.unacked done_both.channel) (plan_locked both_done false).0
unfolding is_invalidating
plan_locked-Safe_example =
    plan_locked-Safe both_done false done_both.approved (two_sets.unacked done_both.channel)
      (done_both-IsSound.knows refl)
