-- ===== src/StateMachine/Methods.antt =====
-- packml_sm/src/state_machine.cpp: the nine methods of `StateMachineInterface`, each of which posts
-- its command's event and waits, by `_start` and the others.
use packml_ros.Base.{Bool, Option, none, some}
use packml_ros.Common.{TransitionCmd}
use packml_ros.Qt.{QtEngine}
use packml_ros.StateMachine.{StateMachine}
use packml_ros.StateMachine.Requests.{request}

unfoldable pub start : QtEngine → StateMachine → Option (Bool × StateMachine)
unfolding request
start qt m = request qt TransitionCmd.start m

unfoldable pub clear : QtEngine → StateMachine → Option (Bool × StateMachine)
unfolding request
clear qt m = request qt TransitionCmd.clear m

unfoldable pub reset : QtEngine → StateMachine → Option (Bool × StateMachine)
unfolding request
reset qt m = request qt TransitionCmd.reset m

unfoldable pub hold : QtEngine → StateMachine → Option (Bool × StateMachine)
unfolding request
hold qt m = request qt TransitionCmd.hold m

unfoldable pub unhold : QtEngine → StateMachine → Option (Bool × StateMachine)
unfolding request
unhold qt m = request qt TransitionCmd.unhold m

unfoldable pub suspend : QtEngine → StateMachine → Option (Bool × StateMachine)
unfolding request
suspend qt m = request qt TransitionCmd.suspend m

unfoldable pub unsuspend : QtEngine → StateMachine → Option (Bool × StateMachine)
unfolding request
unsuspend qt m = request qt TransitionCmd.unsuspend m

unfoldable pub stop : QtEngine → StateMachine → Option (Bool × StateMachine)
unfolding request
stop qt m = request qt TransitionCmd.stop m

unfoldable pub abort : QtEngine → StateMachine → Option (Bool × StateMachine)
unfolding request
abort qt m = request qt TransitionCmd.abort m

abbrev pub Method : Type 0
Method = QtEngine → StateMachine → Option (Bool × StateMachine)

-- The `switch` of `changeState`, which is that of `transRequest` too
unfoldable pub method_of : TransitionCmd → Option Method
unfolding start clear reset hold unhold suspend unsuspend stop abort
method_of TransitionCmd.abort = some abort
method_of TransitionCmd.stop = some stop
method_of TransitionCmd.clear = some clear
method_of TransitionCmd.hold = some hold
method_of TransitionCmd.reset = some reset
method_of TransitionCmd.start = some start
method_of TransitionCmd.suspend = some suspend
method_of TransitionCmd.unhold = some unhold
method_of TransitionCmd.unsuspend = some unsuspend
method_of _ = none
