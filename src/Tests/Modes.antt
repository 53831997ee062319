-- ===== src/Tests/Modes.antt =====
-- The theorems on modes and on what the machine answers, each at one machine.
use packml_ros.Base.{◌≡◌, ◌<>◌, refl, true, false, some, none, [], ◌∷◌, pos}
use packml_ros.Common.{
  State, TransitionCmd, production, maintenance, state_to_string, cmd_to_string,
}
use packml_ros.Events.{cmd_event, state_complete_event}
use packml_ros.Qt.{documented_engine}
use packml_ros.StateMachine.{StateMachine}
use packml_ros.StateMachine.Run.{next_event}
use packml_ros.StateMachine.Requests.{request, change_state, unexpected}
use packml_ros.Diagram.{single}
use packml_ros.Diagram.Built.{store_of}
use packml_ros.Diagram.Invariant.{IsConsistent}
use packml_ros.Diagram.Moves.{moved}
use packml_ros.Diagram.Modes.{switched}
use packml_ros.Diagram.Behaviour.{IsQuiet}
use packml_ros.Diagram.Verdicts.{
  after_refusal, request-aborting, request_unconfigured, change_state_lem, next_event-maintenance,
}
use packml_ros.Tests.{running_in, running_in-IsConsistent, unconfigured, unconfigured-IsConsistent}

abbrev producing : State → StateMachine
producing s = running_in single production s

request-aborting_example :
    request documented_engine TransitionCmd.start (producing State.aborting)
    ≡ some (true, after_refusal true (producing State.aborting))
unfolding switched
request-aborting_example =
    request-aborting documented_engine single (producing State.aborting) TransitionCmd.start refl
      (running_in-IsConsistent single production State.aborting refl) refl refl refl

request_unconfigured_example :
    request documented_engine TransitionCmd.clear (unconfigured single State.aborted)
    ≡ some (false, after_refusal false (unconfigured single State.aborted))
request_unconfigured_example =
    request_unconfigured documented_engine single (unconfigured single State.aborted)
      TransitionCmd.clear refl (unconfigured-IsConsistent single State.aborted refl) refl refl refl
      refl

change_state_lem_example :
    change_state documented_engine TransitionCmd.hold (producing State.idle)
    ≡ some (
      unexpected ("Transition command failed: " <> cmd_to_string TransitionCmd.hold),
      moved single State.idle
          (cmd_event TransitionCmd.hold)
          (record (producing State.idle) { prom = none; queue = [] }),
    )
unfolding switched
change_state_lem_example =
    change_state_lem documented_engine single (producing State.idle) TransitionCmd.hold
      (running_in-IsConsistent single production State.idle refl) refl refl

-- EXECUTE in MAINTENANCE, its work done.
abbrev maintained : StateMachine
maintained = record (running_in single maintenance State.execute) {
  queue = state_complete_event ∷ [];
}

maintained-IsConsistent : IsConsistent single maintained
unfolding switched
maintained-IsConsistent = record {
  leaf = refl;
  built_store = refl;
  active_object = refl;
  initial_object = refl;
  shown_name = refl;
  worker = λ w. refl;
  posted = (refl, tt);
}

next_event-maintenance_example :
    next_event documented_engine maintained ≡ record maintained { queue = [] }
unfolding switched store_of state_to_string
next_event-maintenance_example =
    next_event-maintenance documented_engine (producing State.idle) maintained []
      maintained-IsConsistent refl refl refl

-- EXECUTE with an operation that returns 5.
abbrev failing : StateMachine
failing = record (producing State.execute) { functions = (29, pos 5) ∷ [] }

failing-IsQuiet : IsQuiet single State.execute failing.properties failing.functions failing
unfolding switched
failing-IsQuiet = record {
  consistent = record {
    leaf = refl;
    built_store = refl;
    active_object = refl;
    initial_object = refl;
    shown_name = refl;
    worker = λ w. refl;
    posted = tt;
  };
  runs = refl;
  nothing_queued = refl;
  in_state = refl;
  threads = refl;
  properties_are = refl;
  functions_are = refl;
}
