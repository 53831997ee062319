-- ===== src/Widget/Times.antt =====
-- packml_plugin/src/packml_widget.cpp, `callbackTime` and `timerEvent`. The times count ticks of
-- 0.2 s; `fixed` is what a stream prints of one with two decimals.
use packml_ros.Base.{ℕ, Bool, true, false, String, ◌<>◌, Option, none, some}
use packml_ros.Messages.{AllStatus}
use packml_ros.Widget.{Panel, update_button_state}

-- the texts of the seventeen labels
pub record Labels : Type 0 where
  pub stopped_state : String
  pub idle_state : String
  pub starting_state : String
  pub execute_state : String
  pub completing_state : String
  pub complete_state : String
  pub suspended_state : String
  pub aborting_state : String
  pub aborted_state : String
  pub holding_state : String
  pub held_state : String
  pub unholding_state : String
  pub suspending_state : String
  pub unsuspending_state : String
  pub resetting_state : String
  pub clearing_state : String
  pub stopping_state : String

-- what a stream prints of a `bool`
abbrev pub bool_text : Bool → String
bool_text false = "0"
bool_text true = "1"

-- `callbackTime`
unfoldable pub callback_time : (ℕ → String) → AllStatus → Labels
callback_time fixed msg = record {
  stopped_state = "Stopped: " <> fixed msg.times.t_stopped_state <> "s";
  idle_state = "Idle: " <> fixed msg.times.t_idle_state <> "s";
  starting_state = "Starting: " <> fixed msg.times.t_starting_state <> "s";
  execute_state = "Executing: " <> fixed msg.times.t_execute_state <> "s";
  completing_state = "Completing: " <> fixed msg.times.t_completing_state <> "s";
  complete_state = "Complete: " <> bool_text msg.flags.complete_state <> "s";
  suspended_state = "Suspended: " <> fixed msg.times.t_suspended_state <> "s";
  aborting_state = "Aborting: " <> fixed msg.times.t_aborting_state <> "s";
  aborted_state = "Aborted: " <> fixed msg.times.t_aborted_state <> "s";
  holding_state = "Holding: " <> fixed msg.times.t_holding_state <> "s";
  held_state = "Held: " <> fixed msg.times.t_held_state <> "s";
  unholding_state = "Unholding: " <> fixed msg.times.t_unholding_state <> "s";
  suspending_state = "Suspending: " <> fixed msg.times.t_suspending_state <> "s";
  unsuspending_state = "Unsuspending: " <> fixed msg.times.t_unsuspending_state <> "s";
  resetting_state = "Resetting: " <> fixed msg.times.t_resetting_state <> "s";
  clearing_state = "Clearing: " <> fixed msg.times.t_clearing_state <> "s";
  stopping_state = "Stopping: " <> fixed msg.times.t_stopping_state <> "s";
}

-- what the panel shows
pub record Display : Type 0 where
  pub panel : Panel
  pub labels : Labels

-- `timerEvent`: the answer of the status service, if it comes within 100 ms
unfoldable pub timer_event : (ℕ → String) → Option AllStatus → Display → Display
unfolding update_button_state callback_time
timer_event fixed none d = d
timer_event fixed (some result) d = record {
  panel = update_button_state result.flags d.panel;
  labels = callback_time fixed result;
}
