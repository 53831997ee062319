-- ===== src/CmdTransition/Between.antt =====
-- packml_sm/include/packml_sm/transitions/ and src/transitions/: the transitions that are made
-- between two states, at once. Their names are in lower case.
use packml_ros.Base.{ℕ, String}
use packml_ros.Common.{TransitionCmd}
use packml_ros.Store.{
  Trigger, Build, pure, ◌>>=◌, ◌>>◌, new_transition, set_target_state, add_transition,
}
use packml_ros.CmdTransition.{new_cmd_transition}

-- what the three constructors do after the base class
end_points : ℕ → ℕ → ℕ → Build ℕ
unfolding set_target_state add_transition
end_points from to this = do set_target_state this to; add_transition from this; pure this

-- `CmdTransition(cmd_value, name_value, from, to)`
unfoldable pub cmd_transition_between : TransitionCmd → String → ℕ → ℕ → Build ℕ
unfolding new_cmd_transition end_points
cmd_transition_between cmd_value name_value from to = do
  this ← new_cmd_transition cmd_value name_value
  end_points from to this

-- `StateCompleteTransition(from, to)`
unfoldable pub state_complete_transition : ℕ → ℕ → Build ℕ
unfolding new_transition end_points
state_complete_transition from to = do
  this ← new_transition Trigger.on_state_complete
  end_points from to this

-- `ErrorTransition(from, to)`
unfoldable pub error_transition : ℕ → ℕ → Build ℕ
unfolding new_transition end_points
error_transition from to = do this ← new_transition Trigger.on_error; end_points from to this

unfoldable pub clear : ℕ → ℕ → Build ℕ
unfolding cmd_transition_between
clear from to = cmd_transition_between TransitionCmd.clear "clear" from to

unfoldable pub start : ℕ → ℕ → Build ℕ
unfolding cmd_transition_between
start from to = cmd_transition_between TransitionCmd.start "start" from to

unfoldable pub stop : ℕ → ℕ → Build ℕ
unfolding cmd_transition_between
stop from to = cmd_transition_between TransitionCmd.stop "stop" from to

unfoldable pub hold : ℕ → ℕ → Build ℕ
unfolding cmd_transition_between
hold from to = cmd_transition_between TransitionCmd.hold "hold" from to

unfoldable pub unhold : ℕ → ℕ → Build ℕ
unfolding cmd_transition_between
unhold from to = cmd_transition_between TransitionCmd.unhold "unhold" from to

unfoldable pub abort : ℕ → ℕ → Build ℕ
unfolding cmd_transition_between
abort from to = cmd_transition_between TransitionCmd.abort "abort" from to

unfoldable pub reset : ℕ → ℕ → Build ℕ
unfolding cmd_transition_between
reset from to = cmd_transition_between TransitionCmd.reset "reset" from to

unfoldable pub suspend : ℕ → ℕ → Build ℕ
unfolding cmd_transition_between
suspend from to = cmd_transition_between TransitionCmd.suspend "suspend" from to

unfoldable pub unsuspend : ℕ → ℕ → Build ℕ
unfolding cmd_transition_between
unsuspend from to = cmd_transition_between TransitionCmd.unsuspend "unsuspend" from to
