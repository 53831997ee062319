-- ===== src/Tests/Nested.antt =====
-- The theorem on the super states, at a machine that is aborted and then cleared.
use packml_ros.Base.{◌≡◌, refl, ◌∷◌, []}
use packml_ros.Common.{State, TransitionCmd, production}
use packml_ros.Events.{cmd_event}
use packml_ros.Qt.{documented_engine}
use packml_ros.StateMachine.{StateMachine}
use packml_ros.StateMachine.Run.{rounds}
use packml_ros.StateMachine.Nested.{rounds_nested}
use packml_ros.StateMachine.Nested.Crossing.{crossing_order}
use packml_ros.Diagram.{single}
use packml_ros.Diagram.Invariant.{queue-IsConsistent}
use packml_ros.Diagram.Nested.Rounds.{rounds-nested}
use packml_ros.Tests.{running_in, running_in-IsConsistent}

-- In ABORTED, with CLEAR and then ABORT to be handled: the first transition enters one super state,
-- and the second leaves it.
abbrev cleared_and_aborted : StateMachine
cleared_and_aborted = record (running_in single production State.aborted) {
  queue = cmd_event TransitionCmd.clear ∷ cmd_event TransitionCmd.abort ∷ [];
}

rounds-nested_example :
    rounds_nested crossing_order documented_engine 2 cleared_and_aborted
    ≡ rounds documented_engine 2 cleared_and_aborted
rounds-nested_example =
    rounds-nested crossing_order documented_engine single 2 cleared_and_aborted (
      queue-IsConsistent single cleared_and_aborted.queue
        (running_in single production State.aborted) (refl, (refl, tt))
        (running_in-IsConsistent single production State.aborted refl))
