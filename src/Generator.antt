-- ===== src/Generator.antt =====
-- packml_sm/include/packml_sm/states_generator.hpp: the states and transitions of a machine.
use packml_ros.Base.{ℕ, Option, none, some}
use packml_ros.Common.{State, TransitionCmd}
use packml_ros.Store.{
  PackmlState, Trigger, Build, pure, ◌>>=◌, ◌>>◌, object_at, new_transition, set_target_state,
  add_transition, set_initial_state, connect, find_state, insert_state,
}
use packml_ros.ActingState
use packml_ros.ActingState.{default_delay_ms}
use packml_ros.WaitState
use packml_ros.CmdTransition
use packml_ros.CmdTransition.{new_cmd_transition}

pub data TransitionType : Type 0 where
  error state_completed command : TransitionType

-- The `switch` on the target's state: the command whose transition leads there.
unfoldable command_to : State → Build ℕ
unfolding CmdTransition.clear CmdTransition.start CmdTransition.stop CmdTransition.abort
    CmdTransition.hold CmdTransition.unhold CmdTransition.suspend CmdTransition.unsuspend
    CmdTransition.reset new_cmd_transition
command_to State.clearing = CmdTransition.clear
command_to State.starting = CmdTransition.start
command_to State.stopping = CmdTransition.stop
command_to State.aborting = CmdTransition.abort
command_to State.holding = CmdTransition.hold
command_to State.unholding = CmdTransition.unhold
command_to State.suspending = CmdTransition.suspend
command_to State.unsuspending = CmdTransition.unsuspend
command_to State.resetting = CmdTransition.reset
command_to _ = new_cmd_transition TransitionCmd.no_command "No_Command"

unfoldable pub new_transition_of : TransitionType → State → Build ℕ
unfolding command_to new_transition
new_transition_of error to = new_transition Trigger.on_error
new_transition_of state_completed to = new_transition Trigger.on_state_complete
new_transition_of command to = command_to to

unfoldable pub generate_transition : ℕ → TransitionType → Build ℕ
unfolding new_transition_of object_at set_target_state
generate_transition transition_to trans_type = do
  to ← object_at transition_to
  transition ← new_transition_of trans_type to.state
  set_target_state transition transition_to
  pure transition

-- A super state has the state `UNDEFINED`, and is not connected.
connect_state : ℕ → State → Build (Unit {0})
connect_state p State.undefined = pure tt
connect_state p _ = connect p

insert_new : ℕ → PackmlState → Option ℕ → Build (Unit {0})
unfolding connect_state insert_state connect
insert_new p o none = do insert_state o.name p; connect_state p o.state
insert_new p o (some q) = pure tt

unfoldable add_state : ℕ → Build (Unit {0})
unfolding insert_new object_at find_state
add_state p = do o ← object_at p; λ s. insert_new p o (find_state o.name s) s

unfoldable pub generate_all_packml_states : Build (Unit {0})
unfolding generate_transition add_state add_transition set_initial_state WaitState.abortable
    WaitState.stoppable ActingState.aborting WaitState.aborted ActingState.clearing
    ActingState.stopping WaitState.stopped ActingState.resetting WaitState.idle ActingState.starting
    ActingState.execute ActingState.holding WaitState.held ActingState.unholding
    ActingState.suspending WaitState.suspended ActingState.unsuspending ActingState.completing
    WaitState.complete
generate_all_packml_states = do
  abortable ← WaitState.abortable
  stoppable ← WaitState.stoppable abortable
  aborting ← ActingState.aborting default_delay_ms
  aborted ← WaitState.aborted
  clearing ← ActingState.clearing abortable default_delay_ms
  stopping ← ActingState.stopping abortable default_delay_ms
  stopped ← WaitState.stopped abortable
  resetting ← ActingState.resetting stoppable default_delay_ms
  idle ← WaitState.idle stoppable
  starting ← ActingState.starting stoppable default_delay_ms
  execute ← ActingState.execute stoppable default_delay_ms
  holding ← ActingState.holding stoppable default_delay_ms
  held ← WaitState.held stoppable
  unholding ← ActingState.unholding stoppable default_delay_ms
  suspending ← ActingState.suspending stoppable default_delay_ms
  suspended ← WaitState.suspended stoppable
  unsuspending ← ActingState.unsuspending stoppable default_delay_ms
  completing ← ActingState.completing stoppable default_delay_ms
  complete ← WaitState.complete stoppable
  add_state abortable
  add_state aborting
  add_state aborted
  add_state clearing
  add_state stopping
  add_state stopped
  add_state resetting
  add_state idle
  add_state starting
  add_state execute
  add_state holding
  add_state held
  add_state unholding
  add_state suspending
  add_state suspended
  add_state unsuspending
  add_state completing
  add_state complete
  abortable_aborting ← generate_transition aborting command
  abortable_aborting_on_error ← generate_transition aborting error
  add_transition abortable abortable_aborting
  add_transition abortable abortable_aborting_on_error
  aborting_aborted ← generate_transition aborted state_completed
  add_transition aborting aborting_aborted
  aborted_clearing ← generate_transition clearing command
  add_transition aborted aborted_clearing
  clearing_stopped ← generate_transition stopped state_completed
  add_transition clearing clearing_stopped
  stoppable_stopping ← generate_transition stopping command
  add_transition stoppable stoppable_stopping
  stopping_stopped ← generate_transition stopped state_completed
  add_transition stopping stopping_stopped
  stopped_resetting ← generate_transition resetting command
  add_transition stopped stopped_resetting
  resetting_idle ← generate_transition idle state_completed
  add_transition resetting resetting_idle
  idle_starting ← generate_transition starting command
  add_transition idle idle_starting
  starting_execute ← generate_transition execute state_completed
  add_transition starting starting_execute
  execute_holding ← generate_transition holding command
  add_transition execute execute_holding
  holding_held ← generate_transition held state_completed
  add_transition holding holding_held
  held_unholding ← generate_transition unholding command
  add_transition held held_unholding
  unholding_execute ← generate_transition execute state_completed
  add_transition unholding unholding_execute
  execute_suspending ← generate_transition suspending command
  add_transition execute execute_suspending
  suspending_suspended ← generate_transition suspended state_completed
  add_transition suspending suspending_suspended
  suspended_unsuspending ← generate_transition unsuspending command
  add_transition suspended suspended_unsuspending
  unsuspending_execute ← generate_transition execute state_completed
  add_transition unsuspending unsuspending_execute
  execute_completing ← generate_transition completing state_completed
  add_transition execute execute_completing
  completing_complete ← generate_transition complete state_completed
  add_transition completing completing_complete
  complete_resetting ← generate_transition resetting command
  add_transition complete complete_resetting
  set_initial_state abortable clearing
  set_initial_state stoppable resetting
