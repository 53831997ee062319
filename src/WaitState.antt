-- ===== src/WaitState.antt =====
-- packml_sm/include/packml_sm/states/wait_state.hpp and toplevel_states.hpp: the wait states, each
-- with the command that leaves it, and the super states.
use packml_ros.Base.{ℕ, Option, none, some}
use packml_ros.Common.{State, SuperState, TransitionCmd, state_to_string, super_to_string}
use packml_ros.Store.{Kind, Build, new_object}

-- `WaitState(state_value, exit_cmd_value, name_value, super_state)`
new_wait_state : State → TransitionCmd → Option ℕ → Build ℕ
unfolding new_object state_to_string
new_wait_state state_value exit_cmd super_state =
    new_object state_value (state_to_string state_value) super_state (Kind.wait exit_cmd)

unfoldable pub idle : ℕ → Build ℕ
unfolding new_wait_state
idle stoppable = new_wait_state State.idle TransitionCmd.start (some stoppable)

unfoldable pub held : ℕ → Build ℕ
unfolding new_wait_state
held stoppable = new_wait_state State.held TransitionCmd.unhold (some stoppable)

unfoldable pub complete : ℕ → Build ℕ
unfolding new_wait_state
complete stoppable = new_wait_state State.complete TransitionCmd.reset (some stoppable)

unfoldable pub suspended : ℕ → Build ℕ
unfolding new_wait_state
suspended stoppable = new_wait_state State.suspended TransitionCmd.unsuspend (some stoppable)

unfoldable pub stopped : ℕ → Build ℕ
unfolding new_wait_state
stopped abortable = new_wait_state State.stopped TransitionCmd.reset (some abortable)

unfoldable pub aborted : Build ℕ
unfolding new_wait_state
aborted = new_wait_state State.aborted TransitionCmd.clear none

-- `PackmlSuperState(state_value, transition_command, super_state)`: its state is `UNDEFINED`
new_super_state : SuperState → TransitionCmd → Option ℕ → Build ℕ
unfolding new_object super_to_string
new_super_state state_value transition_command super_state =
    new_object State.undefined (super_to_string state_value) super_state
      (Kind.super_state transition_command)

unfoldable pub abortable : Build ℕ
unfolding new_super_state
abortable = new_super_state SuperState.abortable TransitionCmd.abort none

unfoldable pub stoppable : ℕ → Build ℕ
unfolding new_super_state
stoppable superstate = new_super_state SuperState.stoppable TransitionCmd.stop (some superstate)
