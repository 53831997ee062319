-- ===== src/Widget.antt =====
-- packml_plugin/src/packml_widget.cpp: the RViz panel, its nine buttons and its seventeen labels. A
-- label is red or black.
pub mod Enabled
pub mod Times
pub mod Watch
use packml_ros.Base.{ℤ, pos, Bool, true, false, if◌then◌else◌}
use packml_ros.Messages.{Flags}

pub data Button : Type 0 where
  start_button abort_button clear_button hold_button reset_button unsuspend_button unhold_button
        suspend_button stop_button :
      Button

-- The nine slots: the command that each sends.
unfoldable pub on_button : Button → ℤ
on_button start_button = pos 2
on_button abort_button = pos 8
on_button clear_button = pos 9
on_button hold_button = pos 4
on_button reset_button = pos 1
on_button unsuspend_button = pos 7
on_button unhold_button = pos 5
on_button suspend_button = pos 6
on_button stop_button = pos 3

-- Which buttons are enabled, and which labels are red.
pub record Panel : Type 0 where
  pub abort_enabled : Bool
  pub clear_enabled : Bool
  pub hold_enabled : Bool
  pub reset_enabled : Bool
  pub start_enabled : Bool
  pub stop_enabled : Bool
  pub suspend_enabled : Bool
  pub unhold_enabled : Bool
  pub unsuspend_enabled : Bool
  pub red : Flags

unfoldable disable_all_buttons : Panel → Panel
disable_all_buttons p = record p {
  abort_enabled = false;
  clear_enabled = false;
  hold_enabled = false;
  reset_enabled = false;
  start_enabled = false;
  stop_enabled = false;
  suspend_enabled = false;
  unhold_enabled = false;
  unsuspend_enabled = false;
}

show_stopped : Bool → Panel → Panel
show_stopped flag p =
    if flag
    then record p {
      red = record p.red { stopped_state = true };
      abort_enabled = true;
      reset_enabled = true;
    }
    else record p { red = record p.red { stopped_state = false } }

show_idle : Bool → Panel → Panel
show_idle flag p =
    if flag
    then record p {
      red = record p.red { idle_state = true };
      stop_enabled = true;
      abort_enabled = true;
      start_enabled = true;
    }
    else record p { red = record p.red { idle_state = false } }

show_starting : Bool → Panel → Panel
show_starting flag p =
    if flag
    then record p {
      red = record p.red { starting_state = true };
      stop_enabled = true;
      abort_enabled = true;
    }
    else record p { red = record p.red { starting_state = false } }

show_execute : Bool → Panel → Panel
show_execute flag p =
    if flag
    then record p {
      red = record p.red { execute_state = true };
      stop_enabled = true;
      abort_enabled = true;
      hold_enabled = true;
      suspend_enabled = true;
    }
    else record p { red = record p.red { execute_state = false } }

show_completing : Bool → Panel → Panel
show_completing flag p =
    if flag
    then record p {
      red = record p.red { completing_state = true };
      stop_enabled = true;
      abort_enabled = true;
    }
    else record p { red = record p.red { completing_state = false } }

show_complete : Bool → Panel → Panel
show_complete flag p =
    if flag
    then record p {
      red = record p.red { complete_state = true };
      stop_enabled = true;
      abort_enabled = true;
      reset_enabled = true;
    }
    else record p { red = record p.red { complete_state = false } }

show_suspended : Bool → Panel → Panel
show_suspended flag p =
    if flag
    then record p {
      red = record p.red { suspended_state = true };
      stop_enabled = true;
      abort_enabled = true;
      unsuspend_enabled = true;
    }
    else record p { red = record p.red { suspended_state = false } }

show_aborting : Bool → Panel → Panel
show_aborting flag p =
    if flag
    then record p { red = record p.red { aborting_state = true } }
    else record p { red = record p.red { aborting_state = false } }

show_aborted : Bool → Panel → Panel
show_aborted flag p =
    if flag
    then record p { red = record p.red { aborted_state = true }; clear_enabled = true }
    else record p { red = record p.red { aborted_state = false } }

show_holding : Bool → Panel → Panel
show_holding flag p =
    if flag
    then record p {
      red = record p.red { holding_state = true };
      stop_enabled = true;
      abort_enabled = true;
    }
    else record p { red = record p.red { holding_state = false } }

show_held : Bool → Panel → Panel
show_held flag p =
    if flag
    then record p {
      red = record p.red { held_state = true };
      stop_enabled = true;
      abort_enabled = true;
      unhold_enabled = true;
    }
    else record p { red = record p.red { held_state = false } }

show_unholding : Bool → Panel → Panel
show_unholding flag p =
    if flag
    then record p {
      red = record p.red { unholding_state = true };
      stop_enabled = true;
      abort_enabled = true;
    }
    else record p { red = record p.red { unholding_state = false } }

show_suspending : Bool → Panel → Panel
show_suspending flag p =
    if flag
    then record p {
      red = record p.red { suspending_state = true };
      stop_enabled = true;
      abort_enabled = true;
    }
    else record p { red = record p.red { suspending_state = false } }

show_unsuspending : Bool → Panel → Panel
show_unsuspending flag p =
    if flag
    then record p {
      red = record p.red { unsuspending_state = true };
      stop_enabled = true;
      abort_enabled = true;
    }
    else record p { red = record p.red { unsuspending_state = false } }

show_resetting : Bool → Panel → Panel
show_resetting flag p =
    if flag
    then record p {
      red = record p.red { resetting_state = true };
      stop_enabled = true;
      abort_enabled = true;
    }
    else record p { red = record p.red { resetting_state = false } }

show_clearing : Bool → Panel → Panel
show_clearing flag p =
    if flag
    then record p { red = record p.red { clearing_state = true }; abort_enabled = true }
    else record p { red = record p.red { clearing_state = false } }

show_stopping : Bool → Panel → Panel
show_stopping flag p =
    if flag
    then record p { red = record p.red { stopping_state = true }; abort_enabled = true }
    else record p { red = record p.red { stopping_state = false } }

-- `updateButtonState`
unfoldable pub update_button_state : Flags → Panel → Panel
unfolding disable_all_buttons show_stopped show_idle show_starting show_execute show_completing
    show_complete show_suspended show_aborting show_aborted show_holding show_held show_unholding
    show_suspending show_unsuspending show_resetting show_clearing show_stopping
update_button_state msg p =
    let p1 = show_stopped msg.stopped_state (disable_all_buttons p) in
    let p2 = show_idle msg.idle_state p1 in
    let p3 = show_starting msg.starting_state p2 in
    let p4 = show_execute msg.execute_state p3 in
    let p5 = show_completing msg.completing_state p4 in
    let p6 = show_complete msg.complete_state p5 in
    let p7 = show_suspended msg.suspended_state p6 in
    let p8 = show_aborting msg.aborting_state p7 in
    let p9 = show_aborted msg.aborted_state p8 in
    let p10 = show_holding msg.holding_state p9 in
    let p11 = show_held msg.held_state p10 in
    let p12 = show_unholding msg.unholding_state p11 in
    let p13 = show_suspending msg.suspending_state p12 in
    let p14 = show_unsuspending msg.unsuspending_state p13 in
    let p15 = show_resetting msg.resetting_state p14 in
    let p16 = show_clearing msg.clearing_state p15 in
    let p17 = show_stopping msg.stopping_state p16 in p17
