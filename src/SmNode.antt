-- ===== src/SmNode.antt =====
-- packml_ros/include/packml_ros/packml_ros.hpp: the node with the services of the RViz panel. The
-- timers are floats in steps of 0.2 s; here they count the steps.
pub mod Services
pub mod Methods
use packml_ros.Base.{
  zero, suc, ◌+◌, ℤ, pos, Bool, true, false, ◌<>◌, Option, none, some, int_to_string,
}
use packml_ros.Common.{State, ModeType, TransitionCmd}
use packml_ros.Messages.{
  Response, success_code, invalid_request, unrecognized_request, Flags, Times, AllStatus,
}
use packml_ros.Qt.{QtEngine}
use packml_ros.StateMachine.{StateMachine, single_cycle_sm}
use packml_ros.StateMachine.Requests.{
  Expected, value, unexpected, request, change_mode, get_current_state, set_execute, activate,
}

abbrev pub no_flags : Flags
no_flags = record {
  stopped_state = false;
  idle_state = false;
  starting_state = false;
  execute_state = false;
  completing_state = false;
  complete_state = false;
  clearing_state = false;
  suspended_state = false;
  aborting_state = false;
  aborted_state = false;
  holding_state = false;
  held_state = false;
  unholding_state = false;
  suspending_state = false;
  unsuspending_state = false;
  resetting_state = false;
  stopping_state = false;
}

abbrev pub no_times : Times
no_times = record {
  t_stopped_state = 0;
  t_idle_state = 0;
  t_starting_state = 0;
  t_execute_state = 0;
  t_completing_state = 0;
  t_complete_state = 0;
  t_clearing_state = 0;
  t_suspended_state = 0;
  t_aborting_state = 0;
  t_aborted_state = 0;
  t_holding_state = 0;
  t_held_state = 0;
  t_unholding_state = 0;
  t_suspending_state = 0;
  t_unsuspending_state = 0;
  t_resetting_state = 0;
  t_stopping_state = 0;
}

-- The `switch` of `statusRequest`: the flag of the current state, and one more step on its timer.
unfoldable pub status_of : State → Times → AllStatus
status_of State.stopped t = record {
  flags = record no_flags { stopped_state = true };
  times = record t { t_stopped_state = t.t_stopped_state + 1 };
}
status_of State.starting t = record {
  flags = record no_flags { starting_state = true };
  times = record t { t_starting_state = t.t_starting_state + 1 };
}
status_of State.idle t = record {
  flags = record no_flags { idle_state = true };
  times = record t { t_idle_state = t.t_idle_state + 1 };
}
status_of State.suspended t = record {
  flags = record no_flags { suspended_state = true };
  times = record t { t_suspended_state = t.t_suspended_state + 1 };
}
status_of State.execute t = record {
  flags = record no_flags { execute_state = true };
  times = record t { t_execute_state = t.t_execute_state + 1 };
}
status_of State.stopping t = record {
  flags = record no_flags { stopping_state = true };
  times = record t { t_stopping_state = t.t_stopping_state + 1 };
}
status_of State.aborting t = record {
  flags = record no_flags { aborting_state = true };
  times = record t { t_aborting_state = t.t_aborting_state + 1 };
}
status_of State.aborted t = record {
  flags = record no_flags { aborted_state = true };
  times = record t { t_aborted_state = t.t_aborted_state + 1 };
}
status_of State.holding t = record {
  flags = record no_flags { holding_state = true };
  times = record t { t_holding_state = t.t_holding_state + 1 };
}
status_of State.held t = record {
  flags = record no_flags { held_state = true };
  times = record t { t_held_state = t.t_held_state + 1 };
}
status_of State.resetting t = record {
  flags = record no_flags { resetting_state = true };
  times = record t { t_resetting_state = t.t_resetting_state + 1 };
}
status_of State.suspending t = record {
  flags = record no_flags { suspending_state = true };
  times = record t { t_suspending_state = t.t_suspending_state + 1 };
}
status_of State.unsuspending t = record {
  flags = record no_flags { unsuspending_state = true };
  times = record t { t_unsuspending_state = t.t_unsuspending_state + 1 };
}
status_of State.clearing t = record {
  flags = record no_flags { clearing_state = true };
  times = record t { t_clearing_state = t.t_clearing_state + 1 };
}
status_of State.unholding t = record {
  flags = record no_flags { unholding_state = true };
  times = record t { t_unholding_state = t.t_unholding_state + 1 };
}
status_of State.completing t = record {
  flags = record no_flags { completing_state = true };
  times = record t { t_completing_state = t.t_completing_state + 1 };
}
status_of State.complete t = record {
  flags = record no_flags { complete_state = true };
  times = record t { t_complete_state = t.t_complete_state + 1 };
}
status_of _ t = record { flags = no_flags; times = t }

-- `statusRequest`: the response, and the timers of the node
unfoldable pub status_request : StateMachine → Times → AllStatus × Times
unfolding status_of
status_request m t = let status = status_of (get_current_state m) t in (status, status.times)

-- The `switch` of `transRequest`
unfoldable pub requested : ℤ → Option TransitionCmd
requested (pos (suc zero)) = some TransitionCmd.reset
requested (pos (suc (suc zero))) = some TransitionCmd.start
requested (pos (suc (suc (suc zero)))) = some TransitionCmd.stop
requested (pos (suc (suc (suc (suc zero))))) = some TransitionCmd.hold
requested (pos (suc (suc (suc (suc (suc zero)))))) = some TransitionCmd.unhold
requested (pos (suc (suc (suc (suc (suc (suc zero))))))) = some TransitionCmd.suspend
requested (pos (suc (suc (suc (suc (suc (suc (suc zero)))))))) = some TransitionCmd.unsuspend
requested (pos (suc (suc (suc (suc (suc (suc (suc (suc zero))))))))) = some TransitionCmd.abort
requested (pos (suc (suc (suc (suc (suc (suc (suc (suc (suc zero)))))))))) =
    some TransitionCmd.clear
requested _ = none

unfoldable pub trans_answer : ℤ → Option (Bool × StateMachine) → Option (Response × StateMachine)
trans_answer command none = none
trans_answer command (some (true, m)) = some (
  record {
    success = true;
    error_code = success_code;
    message = "Successful transition request command: " <> int_to_string command;
  },
  m,
)
trans_answer command (some (false, m)) = some (
  record {
    success = false;
    error_code = invalid_request;
    message = "Invalid transition request command: " <> int_to_string command;
  },
  m,
)

-- `transRequest`
unfoldable pub trans_request : QtEngine → ℤ → StateMachine → Option (Response × StateMachine)
unfolding requested request trans_answer
trans_request qt command m = elim (requested command) [
  | some c ↦ trans_answer command (request qt c m)
  | none ↦ some (
    record {
      success = false;
      error_code = unrecognized_request;
      message = "Unrecognized transition request command: " <> int_to_string command;
    },
    m,
  )
]

-- The `switch` of `modeRequest`
requested_mode : ℤ → ModeType
requested_mode (pos (suc zero)) = ModeType.production
requested_mode (pos (suc (suc zero))) = ModeType.maintenance
requested_mode (pos (suc (suc (suc zero)))) = ModeType.manual
requested_mode _ = ModeType.undefined

mode_answer : Option (Expected × StateMachine) → Option (Response × StateMachine)
mode_answer none = none
mode_answer (some (value b, m)) =
    some (record { success = true; error_code = success_code; message = "Succes!" }, m)
mode_answer (some (unexpected error, m)) =
    some (record { success = false; error_code = invalid_request; message = error }, m)

-- `modeRequest`
unfoldable mode_request : ℤ → StateMachine → Option (Response × StateMachine)
unfolding requested_mode mode_answer change_mode
mode_request mode m = mode_answer (change_mode (requested_mode mode) m)

node_of : Bool → Option StateMachine → Option StateMachine
unfolding set_execute activate
node_of app none = none
node_of app (some m) = some (activate app (set_execute (pos 0) m).1).1

-- The machine of the constructor: a single cycle, given `myExecuteMethod` and activated. `app` is
-- whether there is a Qt application.
unfoldable pub new_node : Bool → State → Option StateMachine
unfolding node_of single_cycle_sm
new_node app garbage = node_of app (single_cycle_sm garbage)
