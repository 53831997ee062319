-- ===== src/Manager.antt =====
-- packml_ros/include/packml_ros/interface/packml_interface.hpp, `PackmlManagerInterface`, and the
-- callbacks that packml_ros-new.hpp gives to the machine. The clients are the keys of `client_map_`
-- in the map's order; whether a service is there, and what it answers and when, is a parameter.
pub mod ClientMap
pub mod Waiting
pub mod Unanswered
pub mod Modes
pub mod Published
pub mod States
pub mod Outcomes
pub mod Start
pub mod Threads
use packml_ros.Base.{
  ℕ, zero, suc, ◌+◌, ℤ, pos, Bool, true, false, not, ◌&&◌, String, ◌<>◌, Option, none, some, List,
  [], ◌∷◌, ◌++◌, length, ◌==◌, if◌then◌else◌,
}
use packml_ros.Common.{
  State, ModeType, TransitionCmd, state_val, mode_val, mode_of_val, cmd_to_string,
}
use packml_ros.Common.Casts.{int8}
use packml_ros.Messages.{
  Response, new_response, success_code, invalid_request, unrecognized_request, Status,
}
use packml_ros.Qt.{QtEngine}
use packml_ros.StateMachine.{StateMachine}
use packml_ros.StateMachine.Requests.{Expected, value, unexpected, change_mode, change_state}

-- `to_transition_cmd`
unfoldable pub to_transition_cmd : ℤ → TransitionCmd
to_transition_cmd (pos (suc zero)) = TransitionCmd.reset
to_transition_cmd (pos (suc (suc zero))) = TransitionCmd.start
to_transition_cmd (pos (suc (suc (suc zero)))) = TransitionCmd.stop
to_transition_cmd (pos (suc (suc (suc (suc zero))))) = TransitionCmd.hold
to_transition_cmd (pos (suc (suc (suc (suc (suc zero)))))) = TransitionCmd.unhold
to_transition_cmd (pos (suc (suc (suc (suc (suc (suc zero))))))) = TransitionCmd.suspend
to_transition_cmd (pos (suc (suc (suc (suc (suc (suc (suc zero)))))))) = TransitionCmd.unsuspend
to_transition_cmd (pos (suc (suc (suc (suc (suc (suc (suc (suc zero))))))))) = TransitionCmd.abort
to_transition_cmd (pos (suc (suc (suc (suc (suc (suc (suc (suc (suc zero)))))))))) =
    TransitionCmd.clear
to_transition_cmd _ = TransitionCmd.no_command

-- A client's service as the manager meets it: whether it is there within a second, in which round of
-- the waiting loop its response to the request is ready, if ever, and whether `spin_once` of its
-- executor returns in a round: it has no timeout, and blocks while the executor has nothing to do.
pub record Service : Type 0 where
  pub is_available : String → Bool
  pub ready_in : ℕ → String → Option Response
  pub spins : ℕ → String → Bool

-- A future is valid until it is read.
pub record Future : Type 0 where
  pub client : String
  pub valid : Bool

-- `call_all_clients`: a future for each client whose service is there
unfoldable pub call_all_clients : Service → List String → List Future
call_all_clients service [] = []
call_all_clients service (c ∷ cs) =
    if service.is_available c
    then record { client = c; valid = true } ∷ call_all_clients service cs
    else call_all_clients service cs

-- What a round over the futures leaves: the futures, the last value read and whether one is missing.
pub record Round : Type 0 where
  pub futures : List Future
  pub success : Bool
  pub any_waiting : Bool

-- `on_value` of either request: whether the client switched
abbrev on_value : Response → Bool
on_value r = r.success

-- The loop over the futures. The value of the one read last is kept.
unfoldable pub poll : (String → Option Response) → List Future → Bool → Bool → Round
poll ready [] success any_waiting = record {
  futures = [];
  success = success;
  any_waiting = any_waiting;
}
poll ready (f ∷ fs) success any_waiting =
    if f.valid
    then elim (ready f.client) [
      | none ↦ let r = poll ready fs success true in record r { futures = f ∷ r.futures }
      | some response ↦
          let r = poll ready fs (on_value response) any_waiting in
          record r { futures = record f { valid = false } ∷ r.futures }
    ]
    else let r = poll ready fs success any_waiting in record r { futures = f ∷ r.futures }

-- the loop over the clients that spins each executor once; `false` is that one of them blocks
abbrev pub all_spin : (String → Bool) → List String → Bool
all_spin spins [] = true
all_spin spins (c ∷ cs) = spins c && all_spin spins cs

-- The `while` loop from round `i`; it has no timeout. `none` is that the fuel ran out, or that an
-- executor blocks.
unfoldable pub wait_loop : ℕ → Service → List String → ℕ → List Future → Option Bool
unfolding poll
wait_loop zero service clients i fs = none
wait_loop (suc fuel) service clients i fs =
    let r = poll (service.ready_in i) fs true false in
    let again = wait_loop fuel service clients (i + 1) r.futures in
    let done = if r.any_waiting && r.success then again else some r.success in
    if all_spin (service.spins i) clients then done else none

-- `wait_all_futures`
unfoldable pub wait_all_futures : ℕ → Service → List String → List Future → Option Bool
unfolding wait_loop
wait_all_futures fuel service clients futures =
    if length futures == 0
    then some false
    else if not (length futures == length clients)
    then some false
    else wait_loop fuel service clients 0 futures

-- `changed_prom_`: whether its value is set, and whether its future was taken.
pub record Promise : Type 0 where
  pub is_set : Bool
  pub is_retrieved : Bool

-- a promise that was made and set
abbrev pub kept_promise : Promise
kept_promise = record { is_set = true; is_retrieved = false }

-- The manager's own fields, and the machine it shares. What it publishes is kept in order.
pub record Manager : Type 0 where
  pub machine : StateMachine
  pub clients : List String
  pub current_mode : ModeType
  pub switching_mode : ModeType
  pub current_state : State
  pub published : List Status
  pub changed_prom : Promise

-- `publish_status`
unfoldable pub publish_status : Manager → Manager
unfolding int8 state_val mode_val
publish_status g = record g {
  published =
      g.published
      ++ record {
        state_val = int8 (state_val g.current_state);
        mode_val = int8 (mode_val g.current_mode);
      }
        ∷ [];
}

-- `on_mode_changed` of packml_ros-new.hpp
unfoldable pub on_mode_changed : ModeType → Manager → Manager
unfolding publish_status
on_mode_changed mode g = publish_status (record g { current_mode = mode })

unfoldable pub state_answer : State → Manager → Option Bool → Option Manager
unfolding publish_status
state_answer state g none = none
state_answer state g (some true) = some (publish_status (record g { current_state = state }))
state_answer state g (some false) = some g

-- `on_state_changed` of packml_ros-new.hpp
unfoldable pub on_state_changed : ℕ → Service → State → Manager → Option Manager
unfolding call_all_clients wait_all_futures state_answer
on_state_changed fuel service state g =
    state_answer state (record g { changed_prom = kept_promise })
      (wait_all_futures fuel service g.clients (call_all_clients service g.clients))

-- the end of `on_change_mode`: `success` as the clients left it
unfoldable pub mode_response : Manager → Option Bool → Option (Response × Manager)
unfolding publish_status
mode_response g none = none
mode_response g (some false) = some (
  record { success = false; error_code = pos 1; message = "Error in one of the packml clients" },
  g,
)
mode_response g (some true) = some (
  record new_response { success = true; error_code = success_code },
  publish_status (record g { current_mode = g.switching_mode }),
)

-- `changeMode` calls `on_mode_changed` at its end, before the clients are asked.
unfoldable pub mode_changed :
    ℕ → Service → Manager → Option (Expected × StateMachine) → Option (Response × Manager)
unfolding on_mode_changed call_all_clients wait_all_futures mode_response
mode_changed fuel service g none = none
mode_changed fuel service g (some (unexpected error, m)) =
    some (record { success = false; error_code = pos 1; message = error }, record g { machine = m })
mode_changed fuel service g (some (value b, m)) =
    let h = on_mode_changed g.switching_mode (record g { machine = m }) in
    mode_response h (wait_all_futures fuel service h.clients (call_all_clients service h.clients))

-- `on_change_mode`
unfoldable pub on_change_mode : ℕ → Service → ℤ → Manager → Option (Response × Manager)
unfolding change_mode mode_changed mode_of_val
on_change_mode fuel service val g =
    let mode = mode_of_val val in
    mode_changed fuel service (record g { switching_mode = mode }) (change_mode mode g.machine)
