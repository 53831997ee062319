-- ===== src/Messages.antt =====
-- packml_msgs/: the messages and services, with their constants.
use packml_ros.Base.{ℕ, ℤ, pos, negsuc, Bool, String}

-- The response of StateChange, ModeChange, StateTransition and ModeTransition.
pub record Response : Type 0 where
  pub success : Bool
  pub error_code : ℤ
  pub message : String

-- A response as it is made: false, 0 and no text.
abbrev pub new_response : Response
new_response = record { success = Bool.false; error_code = pos 0; message = "" }

abbrev pub success_code : ℤ
success_code = pos 1

-- INVALID_TRANSITION_REQUEST, INVALID_MODE_REQUEST
abbrev pub invalid_request : ℤ
invalid_request = negsuc 0

-- UNRECGONIZED_REQUEST
abbrev pub unrecognized_request : ℤ
unrecognized_request = negsuc 1

-- msg/Status.msg: the values of the state and of the mode
pub record Status : Type 0 where
  pub state_val : ℤ
  pub mode_val : ℤ

-- srv/AllStatus.srv: one flag for each state
pub record Flags : Type 0 where
  pub stopped_state : Bool
  pub idle_state : Bool
  pub starting_state : Bool
  pub execute_state : Bool
  pub completing_state : Bool
  pub complete_state : Bool
  pub clearing_state : Bool
  pub suspended_state : Bool
  pub aborting_state : Bool
  pub aborted_state : Bool
  pub holding_state : Bool
  pub held_state : Bool
  pub unholding_state : Bool
  pub suspending_state : Bool
  pub unsuspending_state : Bool
  pub resetting_state : Bool
  pub stopping_state : Bool

-- and one elapsed time, in ticks of 0.2 s
pub record Times : Type 0 where
  pub t_stopped_state : ℕ
  pub t_idle_state : ℕ
  pub t_starting_state : ℕ
  pub t_execute_state : ℕ
  pub t_completing_state : ℕ
  pub t_complete_state : ℕ
  pub t_clearing_state : ℕ
  pub t_suspended_state : ℕ
  pub t_aborting_state : ℕ
  pub t_aborted_state : ℕ
  pub t_holding_state : ℕ
  pub t_held_state : ℕ
  pub t_unholding_state : ℕ
  pub t_suspending_state : ℕ
  pub t_unsuspending_state : ℕ
  pub t_resetting_state : ℕ
  pub t_stopping_state : ℕ

pub record AllStatus : Type 0 where
  pub flags : Flags
  pub times : Times
