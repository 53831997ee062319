-- ===== src/Events.antt =====
-- packml_sm/include/packml_sm/events/: the events that the machine posts to itself.
use packml_ros.Base.{ℕ, ◌+◌, ℤ, Bool}
use packml_ros.Common.{TransitionCmd}

-- The event classes: `CmdEvent`, `StateCompleteEvent` and `ErrorEvent` with its code.
pub data Payload : Type 0 where
  cmd_event : TransitionCmd → Payload
  state_complete_event : Payload
  error_event : ℤ → Payload

-- `QEvent::User`
abbrev user : ℕ
user = 1000

abbrev pub packml_cmd_event_type : ℕ
packml_cmd_event_type = user + 1

abbrev pub packml_state_complete_event_type : ℕ
packml_state_complete_event_type = user + 2

abbrev pub packml_error_event_type : ℕ
packml_error_event_type = user + 3

-- `e->type()`
abbrev pub event_type : Payload → ℕ
event_type (cmd_event c) = packml_cmd_event_type
event_type state_complete_event = packml_state_complete_event_type
event_type (error_event code) = packml_error_event_type

-- An event with its accept flag.
pub record QEvent : Type 0 where
  pub payload : Payload
  pub accepted : Bool
