-- ===== src/CmdTransition.antt =====
-- packml_sm/include/packml_sm/transitions/cmd_transition.hpp: the factories of the command
-- transitions, those without end points. The name of each is the text of its command.
pub mod Between
pub mod Generated
use packml_ros.Base.{ℕ, String}
use packml_ros.Common.{TransitionCmd, cmd_to_string}
use packml_ros.Store.{Trigger, Build, new_transition}

-- `CmdTransition(cmd_value, name_value)`
unfoldable pub new_cmd_transition : TransitionCmd → String → Build ℕ
unfolding new_transition
new_cmd_transition cmd_value name_value = new_transition (Trigger.on_command cmd_value name_value)

unfoldable pub clear : Build ℕ
unfolding new_cmd_transition cmd_to_string
clear = new_cmd_transition TransitionCmd.clear (cmd_to_string TransitionCmd.clear)

unfoldable pub start : Build ℕ
unfolding new_cmd_transition cmd_to_string
start = new_cmd_transition TransitionCmd.start (cmd_to_string TransitionCmd.start)

unfoldable pub stop : Build ℕ
unfolding new_cmd_transition cmd_to_string
stop = new_cmd_transition TransitionCmd.stop (cmd_to_string TransitionCmd.stop)

unfoldable pub hold : Build ℕ
unfolding new_cmd_transition cmd_to_string
hold = new_cmd_transition TransitionCmd.hold (cmd_to_string TransitionCmd.hold)

unfoldable pub unhold : Build ℕ
unfolding new_cmd_transition cmd_to_string
unhold = new_cmd_transition TransitionCmd.unhold (cmd_to_string TransitionCmd.unhold)

unfoldable pub abort : Build ℕ
unfolding new_cmd_transition cmd_to_string
abort = new_cmd_transition TransitionCmd.abort (cmd_to_string TransitionCmd.abort)

unfoldable pub reset : Build ℕ
unfolding new_cmd_transition cmd_to_string
reset = new_cmd_transition TransitionCmd.reset (cmd_to_string TransitionCmd.reset)

unfoldable pub suspend : Build ℕ
unfolding new_cmd_transition cmd_to_string
suspend = new_cmd_transition TransitionCmd.suspend (cmd_to_string TransitionCmd.suspend)

unfoldable pub unsuspend : Build ℕ
unfolding new_cmd_transition cmd_to_string
unsuspend = new_cmd_transition TransitionCmd.unsuspend (cmd_to_string TransitionCmd.unsuspend)
