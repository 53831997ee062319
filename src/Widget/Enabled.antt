-- ===== src/Widget/Enabled.antt =====
-- The panel against the diagram.
use packml_ros.Base.{◌≡◌, refl, Bool, true, false, Option, none, some, arith}
use packml_ros.Common.{State, TransitionCmd}
use packml_ros.Messages.{Times}
use packml_ros.SmNode.{status_of, requested}
use packml_ros.Diagram.{commanded}
use packml_ros.Widget.{
  Button, start_button, abort_button, clear_button, hold_button, reset_button, unsuspend_button,
  unhold_button, suspend_button, stop_button, on_button, Panel, update_button_state,
}

abbrev pub enabled : Button → Panel → Bool
enabled start_button p = p.start_enabled
enabled abort_button p = p.abort_enabled
enabled clear_button p = p.clear_enabled
enabled hold_button p = p.hold_enabled
enabled reset_button p = p.reset_enabled
enabled unsuspend_button p = p.unsuspend_enabled
enabled unhold_button p = p.unhold_enabled
enabled suspend_button p = p.suspend_enabled
enabled stop_button p = p.stop_enabled

abbrev pub command_of : Button → TransitionCmd
command_of start_button = TransitionCmd.start
command_of abort_button = TransitionCmd.abort
command_of clear_button = TransitionCmd.clear
command_of hold_button = TransitionCmd.hold
command_of reset_button = TransitionCmd.reset
command_of unsuspend_button = TransitionCmd.unsuspend
command_of unhold_button = TransitionCmd.unhold
command_of suspend_button = TransitionCmd.suspend
command_of stop_button = TransitionCmd.stop

abbrev pub is_heeded : Option State → Bool
is_heeded none = false
is_heeded (some t) = true

-- For every state, timers and earlier panel: after the panel has shown the node's status of that
-- state, a button is enabled exactly if the diagram heeds that button's command in that state.
pub enabled-commanded :
    (s : State) (b : Button) (t : Times) (p : Panel)
    → enabled b (update_button_state (status_of s t).flags p)
      ≡ is_heeded (commanded (command_of b) s)
unfolding status_of update_button_state
enabled-commanded State.clearing b t p = ground arith
enabled-commanded s b t p = ground arith

-- For every state, timers and earlier panel: after the panel has shown the node's status of that
-- state, the red labels are exactly those whose flags the status sets.
update_button_state-red :
    (s : State) (t : Times) (p : Panel)
    → (update_button_state (status_of s t).flags p).red ≡ (status_of s t).flags
unfolding status_of update_button_state
update_button_state-red State.clearing t p = refl
update_button_state-red _ t p = refl

-- The number that a button's slot sends is decoded by the node as the command that the button is
-- labelled with.
pub requested-on_button : (b : Button) → requested (on_button b) ≡ some (command_of b)
unfolding requested on_button
requested-on_button start_button = refl
requested-on_button _ = refl
