-- ===== src/NodeInterface.antt =====
-- packml_ros/include/packml_ros/interface/packml_interface.hpp, `PackmlNodeInterface`: the side of a
-- client node. What the node makes of a request, its virtual functions, is a parameter.
pub mod Handshake
use packml_ros.Base.{ℕ, ◌+◌, ℤ, Bool, true, false, not, ◌&&◌, ◌||◌, String, eq_int, if◌then◌else◌}
use packml_ros.Common.{State, ModeType, state_val, state_of_val, mode_val, mode_of_val}
use packml_ros.Messages.{Response, new_response, Status}

pub record Node : Type 0 where
  pub current_mode : ModeType
  pub switching_mode : ModeType
  pub current_state : State
  pub switching_state : State
  pub waiting_for_new_mode : Bool
  pub waiting_for_new_state : Bool
  pub notified : ℕ  -- calls of `on_status_changed`

-- The end of `init`; the two `waiting` flags keep what the memory held.
unfoldable pub init : Node → Node
init n = record n {
  current_mode = ModeType.undefined;
  current_state = State.undefined;
  switching_mode = ModeType.undefined;
  switching_state = State.undefined;
}

refusal : String → Response
refusal error_string = record new_response { message = error_string }

agreement : Response
agreement = record new_response { success = true }

-- the text that the two tests before the node is asked leave behind
waiting_error : Node → String
waiting_error n =
    if n.waiting_for_new_state
    then "Changing state but already waiting on new state"
    else if n.waiting_for_new_mode
    then "Changing state but mode change is still active"
    else ""

-- the end of both handlers: the text is sent when the request did not succeed
answer : Bool → String → Response
unfolding refusal agreement
answer true error_string = agreement
answer false error_string = refusal error_string

-- `onStateTranseReq`; `approve` is `on_state_trans_req`
unfoldable pub on_state_trans_req : (State → Bool) → ℤ → Node → Response × Node
unfolding answer waiting_error
on_state_trans_req approve val n =
    let state = state_of_val val in
    let error_string = waiting_error n in
    if approve state
    then (
      answer true error_string,
      record n { waiting_for_new_state = true; switching_state = state },
    )
    else (answer false "Node did not approve state switch", n)

-- `onModeTransReq`; `approve` is `on_mode_trans_req`
unfoldable pub on_mode_trans_req : (ModeType → Bool) → ℤ → Node → Response × Node
unfolding answer waiting_error
on_mode_trans_req approve val n =
    let mode = mode_of_val val in
    let error_string = waiting_error n in
    if approve mode
    then (answer true error_string, record n { waiting_for_new_mode = true; switching_mode = mode })
    else (answer false "Node did not approve mode switch", n)

-- `onStatusChanged`, the part about the state
status_state : State → Node → Node
unfolding state_val
status_state state n =
    if not (eq_int (state_val n.current_state) (state_val state))
    then record n {
      current_state = state;
      waiting_for_new_state = false;
      notified = n.notified + 1;
    }
    else n

-- and the part about the mode
status_mode : ModeType → Node → Node
unfolding mode_val
status_mode mode n =
    if not (eq_int (mode_val n.current_mode) (mode_val mode))
    then record n { current_mode = mode; waiting_for_new_mode = false; notified = n.notified + 1 }
    else n

unfoldable pub on_status_changed : Status → Node → Node
unfolding status_state status_mode
on_status_changed status n =
    status_mode (mode_of_val status.mode_val) (status_state (state_of_val status.state_val) n)
