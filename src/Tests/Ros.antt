-- ===== src/Tests/Ros.antt =====
-- The theorems on the texts, the panel and the client nodes, each at one input.
use packml_ros.Base.{◌≡◌, refl, true, false}
use packml_ros.Common.{State, manual, state_val, mode_val}
use packml_ros.Messages.{Status}
use packml_ros.SmNode.{no_flags}
use packml_ros.Widget.{Panel}
use packml_ros.NodeInterface.{Node, on_state_trans_req, on_status_changed}
use packml_ros.NodeInterface.Handshake.{approve-status}

-- a panel with every button enabled and no label red
abbrev open_panel : Panel
open_panel = record {
  abort_enabled = true;
  clear_enabled = true;
  hold_enabled = true;
  reset_enabled = true;
  start_enabled = true;
  stop_enabled = true;
  suspend_enabled = true;
  unhold_enabled = true;
  unsuspend_enabled = true;
  red = no_flags;
}

-- A node in IDLE and MANUAL that has agreed to START, and the status that follows.
abbrev waiting_node : Node
waiting_node = record {
  current_mode = manual;
  switching_mode = manual;
  current_state = State.idle;
  switching_state = State.starting;
  waiting_for_new_mode = false;
  waiting_for_new_state = true;
  notified = 5;
}

abbrev starting_status : Status
starting_status = record { state_val = state_val State.starting; mode_val = mode_val manual }

approve-status_example :
    let status : Status = record { state_val = state_val State.idle; mode_val = mode_val manual } in
    let n = (on_state_trans_req (λ s. true) (state_val State.idle) waiting_node).1 in
    (on_status_changed status n).waiting_for_new_state ≡ true
approve-status_example =
    approve-status (λ s. true)
      (record { state_val = state_val State.idle; mode_val = mode_val manual }) waiting_node refl
      refl
