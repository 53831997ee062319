-- ===== src/Tests/Panel.antt =====
-- The theorems on the node's transition service, each at one machine.
use packml_ros.Base.{◌≡◌, refl, pos, true, false, some}
use packml_ros.Common.{State, TransitionCmd, production}
use packml_ros.Qt.{documented_engine}
use packml_ros.StateMachine.{StateMachine}
use packml_ros.Diagram.{single}
use packml_ros.Diagram.Built.{fresh}
use packml_ros.Diagram.Modes.{switched, available-switched}
use packml_ros.SmNode.{no_flags, no_times, status_of, requested, trans_request}
use packml_ros.SmNode.Services.{
  told, replied_to, moved_by, trans_request_lem, PermitsAll, press_lem,
}
use packml_ros.Widget.{Button, Panel, on_button, update_button_state}
use packml_ros.Widget.Enabled.{enabled}
use packml_ros.Base.{ℕ, ◌+◌, String, ◌<>◌, int_to_string, if◌then◌else◌}
use packml_ros.Diagram.{is_leaf, commanded}
use packml_ros.StateMachine.Requests.{state_eq}
use packml_ros.Widget.Enabled.{is_heeded, command_of}
use packml_ros.Widget.Times.{Display}
use packml_ros.Widget.Watch.{watch, time_of, label_of, title_of, reading, watch_lem}
use packml_ros.Tests.{running_in, running_in-IsConsistent}

abbrev executing : StateMachine
executing = running_in single production State.execute

executing-PermitsAll : PermitsAll executing
unfolding switched
executing-PermitsAll t h = available-switched production t (fresh single State.execute) h

-- a panel with no button enabled
abbrev closed_panel : Panel
closed_panel = record {
  abort_enabled = false;
  clear_enabled = false;
  hold_enabled = false;
  reset_enabled = false;
  start_enabled = false;
  stop_enabled = false;
  suspend_enabled = false;
  unhold_enabled = false;
  unsuspend_enabled = false;
  red = no_flags;
}

trans_request_lem_example :
    trans_request documented_engine (pos 4) executing
    ≡ some (
      told (pos 4) (replied_to single (requested (pos 4)) executing),
      moved_by single (requested (pos 4)) executing,
    )
unfolding switched
trans_request_lem_example =
    trans_request_lem documented_engine single (pos 4) executing
      (running_in-IsConsistent single production State.execute refl) refl refl

press_lem_example :
    trans_request documented_engine (on_button Button.hold_button) executing
    ≡ some (
      told (on_button Button.hold_button) (
          some (
            enabled Button.hold_button
              (update_button_state (status_of State.execute no_times).flags closed_panel))),
      moved_by single (some TransitionCmd.hold) executing,
    )
unfolding switched
press_lem_example =
    press_lem documented_engine single Button.hold_button no_times closed_panel executing
      (running_in-IsConsistent single production State.execute refl) refl refl executing-PermitsAll
      refl

-- a panel that has shown no status
abbrev blank_display : Display
blank_display = record {
  panel = closed_panel;
  labels = record {
    stopped_state = "";
    idle_state = "";
    starting_state = "";
    execute_state = "";
    completing_state = "";
    complete_state = "";
    suspended_state = "";
    aborting_state = "";
    aborted_state = "";
    holding_state = "";
    held_state = "";
    unholding_state = "";
    suspending_state = "";
    unsuspending_state = "";
    resetting_state = "";
    clearing_state = "";
    stopping_state = "";
  };
}

-- the print of ticks as whole numbers
abbrev printed : ℕ → String
printed n = int_to_string (pos n)

watch_lem_example :
    let (u, e) = watch printed executing 3 no_times blank_display in
    ((s : State)
      → is_leaf s ≡ true
      → (time_of s u
          ≡ (if state_eq State.execute s then time_of s no_times + 3 else time_of s no_times))
        × (label_of s e.labels
            ≡ title_of s <> reading printed State.execute s (time_of s u) <> "s"))
    × ((b : Button) → enabled b e.panel ≡ is_heeded (commanded (command_of b) State.execute))
unfolding switched
watch_lem_example = watch_lem printed executing 2 no_times blank_display refl
