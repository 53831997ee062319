-- ===== src/Tests/Machine.antt =====
-- The theorems on the machine, each at one machine.
use packml_ros.Base.{◌++◌, ◌≡◌, refl, true, some, List, ◌∷◌, inr}
use packml_ros.Common.{State, TransitionCmd, production}
use packml_ros.Events.{Payload, cmd_event, state_complete_event}
use packml_ros.Qt.{documented_engine}
use packml_ros.StateMachine.{StateMachine}
use packml_ros.StateMachine.Run.{dispatch, rounds, finish_operation, next_event, operation_event}
use packml_ros.StateMachine.Requests.{request, post_event, value}
use packml_ros.Transitions.{candidates}
use packml_ros.Diagram.{single, continuous}
use packml_ros.Diagram.Built.{store_of, rows, candidates-rows}
use packml_ros.Diagram.Answers.{heard}
use packml_ros.Diagram.Moves.{moved, dispatch-moved}
use packml_ros.Diagram.Invariant.{
  IsConsistent, IsConsistent-IsAt, rounds-IsConsistent, finish_operation-IsConsistent,
}
use packml_ros.Diagram.Commands.{started, request_lem, meets, heeded}
use packml_ros.Diagram.Modes.{switched, change_mode-switched}
use packml_ros.Diagram.Tracked.{Reach-IsTracked}
use packml_ros.Diagram.Runs.{Reach, here, then, handle, command, choose_mode, IsTracked}
use packml_ros.Diagram.Interrupts.{IsInterrupted, abort-aborted}
use packml_ros.Diagram.Behaviour.{IsQuiet}
use packml_ros.Diagram.Cycles.{cycles, executes, cycles_lem}
use packml_ros.Tests.{
  new_machine, new_machine-IsBuilt, running_in, running_in-IsConsistent, running_in-IsQuiet,
}

-- A machine in PRODUCTION in the states that the examples need.
abbrev producing : State → StateMachine
producing s = running_in single production s

candidates-rows_example : candidates (store_of single) 29 ≡ rows single State.execute
candidates-rows_example = candidates-rows single State.execute refl

dispatch-moved_example :
    dispatch documented_engine state_complete_event (producing State.execute)
    ≡ moved single State.execute state_complete_event (producing State.execute)
unfolding switched
dispatch-moved_example =
    dispatch-moved documented_engine single State.execute state_complete_event
      (producing State.execute)
      (IsConsistent-IsAt single (producing State.execute)
        (running_in-IsConsistent single production State.execute refl))
      refl

rounds-IsConsistent_example :
    IsConsistent single (rounds documented_engine 3 (finish_operation 29 (producing State.execute)))
rounds-IsConsistent_example =
    rounds-IsConsistent documented_engine single 3 (finish_operation 29 (producing State.execute)) (
      finish_operation-IsConsistent single 29 (producing State.execute)
        (running_in-IsConsistent single production State.execute refl))

-- EXECUTE's work is done, and its event is queued when SUSPEND is posted.
abbrev executed : StateMachine
executed = finish_operation 29 (producing State.execute)

request_lem_example :
    let n = meets documented_engine TransitionCmd.suspend executed in
    (rest : List Payload) × (n.queue ≡ cmd_event TransitionCmd.suspend ∷ rest)
    × (request documented_engine TransitionCmd.suspend executed
        ≡ some (
          heard n.state_value (heeded single TransitionCmd.suspend n),
          moved single n.state_value (cmd_event TransitionCmd.suspend) (record n { queue = rest }),
        ))
    × ((moved single n.state_value
          (cmd_event TransitionCmd.suspend)
          (record n { queue = rest })).thrown
        ≡ executed.thrown)
unfolding finish_operation operation_event switched
request_lem_example =
    request_lem documented_engine single TransitionCmd.suspend executed refl
      (finish_operation-IsConsistent single 29 (producing State.execute)
        (running_in-IsConsistent single production State.execute refl))
      refl tt

-- From ABORTED: a mode is chosen, CLEAR is posted and handled.
abbrev cleared : StateMachine
cleared =
    let m = switched production (started (new_machine single)) in
    next_event documented_engine (post_event (cmd_event TransitionCmd.clear) m)

Reach-cleared : Reach documented_engine (started (new_machine single)) cleared
unfolding post_event switched
Reach-cleared =
    let m = started (new_machine single) in
    let chosen = change_mode-switched single production m refl (inr refl) in
    then
      (then (then here (choose_mode production (value true, switched production m) chosen))
        (command TransitionCmd.clear refl))
      (handle refl)

Reach-IsTracked_example : IsTracked single cleared
Reach-IsTracked_example =
    Reach-IsTracked documented_engine single (new_machine single) cleared
      (new_machine-IsBuilt single) tt refl Reach-cleared

abort-aborted_example :
    let m = producing State.execute in
    let ps = m.properties in
    let fs = m.functions in
    (n : StateMachine) × (request documented_engine TransitionCmd.abort m ≡ some (true, n))
    × IsInterrupted single State.execute State.aborting ps fs n
    × IsInterrupted single State.aborting State.aborted ps fs (next_event documented_engine n)
    × IsQuiet single State.aborted ps fs
        (next_event documented_engine (next_event documented_engine n))
unfolding switched operation_event
abort-aborted_example =
    abort-aborted documented_engine single State.execute (producing State.execute)
      (running_in-IsQuiet single production State.execute refl) refl refl (refl, refl) (refl, refl)

-- three rounds of EXECUTE in the continuous cycle
cycles_lem_example :
    let m = running_in continuous production State.execute in
    IsQuiet continuous State.execute m.properties m.functions (cycles documented_engine 3 m)
    × ((cycles documented_engine 3 m).calls ≡ m.calls ++ executes 3)
unfolding switched operation_event
cycles_lem_example =
    cycles_lem documented_engine 3 (running_in continuous production State.execute)
      (running_in-IsQuiet continuous production State.execute refl) refl refl
