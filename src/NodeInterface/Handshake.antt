-- ===== src/NodeInterface/Handshake.antt =====
-- What a client node does with requests and statuses.
use packml_ros.Base.{◌≡◌, ℕ, ◌+◌, ℤ, Bool, true, false, not, ◌&&◌, arith, eq_int, if◌then◌else◌}
use packml_ros.Common.{State, ModeType, state_val, state_of_val, mode_val, mode_of_val}
use packml_ros.Common.Casts.{state_val-state_of_val, mode_val-mode_of_val}
use packml_ros.Messages.{new_response, Status}
use packml_ros.NodeInterface.{Node, on_state_trans_req, on_mode_trans_req, on_status_changed}

eq_int_sound : (a b : ℤ) → eq_int a b ≡ true → a ≡ b
eq_int_sound a b h = ground arith

eq_int_complete : (a b : ℤ) → a ≡ b → eq_int a b ≡ true
eq_int_complete a b h = ground arith

-- After a status message a node's state and mode have the published numbers, whatever the node
-- waited for.
pub on_status_changed-follows :
    (status : Status) (n : Node)
    → (state_val (on_status_changed status n).current_state ≡ status.state_val)
      × (mode_val (on_status_changed status n).current_mode ≡ status.mode_val)
unfolding on_status_changed
on_status_changed-follows status n = ground (
  arith,
  state_val-state_of_val status.state_val,
  mode_val-mode_of_val status.mode_val,
  eq_int_sound (state_val n.current_state) (state_val (state_of_val status.state_val)),
  eq_int_sound (mode_val n.current_mode) (mode_val (mode_of_val status.mode_val)),
)

abbrev pub differs : ℤ → ℤ → Bool
differs a b = not (eq_int a b)

abbrev count_of : Bool → ℕ
count_of false = 0
count_of true = 1

-- On a status message the node calls `on_status_changed` once for each of state and mode that
-- differs from its own, stops waiting for those, and goes on waiting for one that does not differ.
pub on_status_changed-told :
    (status : Status) (n : Node)
    → let state_changed = differs (state_val n.current_state) status.state_val in
      let mode_changed = differs (mode_val n.current_mode) status.mode_val in
      ((on_status_changed status n).notified
        ≡ n.notified + count_of state_changed + count_of mode_changed)
      × ((on_status_changed status n).waiting_for_new_state
          ≡ (n.waiting_for_new_state && not state_changed))
      × ((on_status_changed status n).waiting_for_new_mode
          ≡ (n.waiting_for_new_mode && not mode_changed))
unfolding on_status_changed
on_status_changed-told status n =
    ground (arith, state_val-state_of_val status.state_val, mode_val-mode_of_val status.mode_val)

-- The answer to a state request depends on the node's approval alone. With approval it is success
-- without a text, and the node waits for that state; without it the only text is that of a refusal,
-- and nothing changes. The two texts about a change that is still awaited are never sent.
pub on_state_trans_req_lem :
    (approve : State → Bool) (val : ℤ) (n : Node)
    → on_state_trans_req approve val n ≡ (
        if approve (state_of_val val)
        then (
          record new_response { success = true },
          record n { waiting_for_new_state = true; switching_state = state_of_val val },
        )
        else (record new_response { message = "Node did not approve state switch" }, n))
unfolding on_state_trans_req
on_state_trans_req_lem approve val n = ground arith

-- The same for modes.
pub on_mode_trans_req_lem :
    (approve : ModeType → Bool) (val : ℤ) (n : Node)
    → on_mode_trans_req approve val n ≡ (
        if approve (mode_of_val val)
        then (
          record new_response { success = true },
          record n { waiting_for_new_mode = true; switching_mode = mode_of_val val },
        )
        else (record new_response { message = "Node did not approve mode switch" }, n))
unfolding on_mode_trans_req
on_mode_trans_req_lem approve val n = ground arith

-- A node that approves a request for the state that it is already in still waits for a new state
-- after that state is published.
pub approve-status :
    (approve : State → Bool) (status : Status) (n : Node)
    → approve (state_of_val status.state_val) ≡ true
    → state_val n.current_state ≡ status.state_val
    → let k = (on_state_trans_req approve status.state_val n).1 in
      (on_status_changed status k).waiting_for_new_state ≡ true
unfolding on_state_trans_req
approve-status approve status n h e = ground (
  arith,
  on_status_changed-told status (on_state_trans_req approve status.state_val n).1,
  eq_int_complete (state_val n.current_state) status.state_val e,
)
