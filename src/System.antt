-- ===== src/System.antt =====
-- The manager and its client nodes as one system: packml_ros/include/packml_ros/interface/
-- packml_interface.hpp with both of its sides. The services of the nodes answer the manager with
-- what `on_state_trans_req` and `on_mode_trans_req` return, and every status that the manager
-- publishes reaches every node. What the middleware and the nodes' own code decide is a `Setting`.
pub mod Steps
pub mod Told
pub mod Always
pub mod Sync
pub mod Race
pub mod Whole
pub mod Job
pub mod Commanded
pub mod Reached
pub mod NewState
pub mod Refused
pub mod NewMode
use packml_ros.Base.{
  ◌≡◌, ℕ, zero, suc, ℤ, Bool, true, false, ◌&&◌, ◌||◌, String, Option, none, some, List, [], ◌∷◌,
  drop, length, leb, if◌then◌else◌,
}
use text.Mathlib.Text.{◌==◌ as str_eq}
use packml_ros.Common.{State, ModeType, state_val, mode_of_val}
use packml_ros.Common.Casts.{int8}
use packml_ros.Messages.{Response, Status}
use packml_ros.StateMachine.{StateMachine}
use packml_ros.StateMachine.Requests.{Expected, value, unexpected, change_mode}
use packml_ros.NodeInterface.{Node, on_state_trans_req, on_mode_trans_req, on_status_changed}
use packml_ros.Manager.ClientMap.{contains}
use packml_ros.Manager.{Service, Manager, on_state_changed, on_change_mode}

-- By client: whether its services are there within a second, in which round of the waiting loop its
-- response is there, whether its executor returns in a round, whether the node approves, and how many of the statuses that are published
-- around a mode request it handles before the request.
pub record Setting : Type 0 where
  pub there : String → Bool
  pub delay : String → ℕ
  pub spins : ℕ → String → Bool
  pub approve_state : String → State → Bool
  pub approve_mode : String → ModeType → Bool
  pub handled_before : String → ℕ

pub record System : Type 0 where
  pub manager : Manager
  pub node : String → Node

-- the services of the nodes, whose answers are `answer`
abbrev pub service_of : Setting → (String → Response) → Service
service_of w answer = record {
  is_available = w.there;
  spins = w.spins;
  ready_in = λ i c. if leb (w.delay c) i then some (answer c) else none;
}

-- `onStateTranseReq` of every node
abbrev pub state_service : Setting → State → (String → Node) → Service
state_service w state node =
    service_of w λ c. (on_state_trans_req (w.approve_state c) (int8 (state_val state)) (node c)).0

-- `onModeTransReq` of every node
abbrev pub mode_service : Setting → ℤ → (String → Node) → Service
mode_service w val node = service_of w λ c. (on_mode_trans_req (w.approve_mode c) val (node c)).0

-- the node's subscription
unfoldable pub deliver : List Status → Node → Node
unfolding on_status_changed
deliver [] n = n
deliver (status ∷ rest) n = deliver rest (on_status_changed status n)

-- A request among the statuses, after the first `i` of them.
unfoldable pub deliver_around : ℕ → (Node → Node) → List Status → Node → Node
unfolding deliver on_status_changed
deliver_around zero request statuses n = deliver statuses (request n)
deliver_around (suc i) request [] n = request n
deliver_around (suc i) request (status ∷ rest) n =
    deliver_around i request rest (on_status_changed status n)

-- A client that is there is sent the request.
abbrev pub asked : Setting → Manager → String → Bool
asked w g c = w.there c && contains c g.clients

-- the statuses that were published since
abbrev pub news : Manager → Manager → List Status
news g h = drop (length g.published) h.published

unfoldable pub state_told_to : Setting → State → System → Manager → System
unfolding deliver on_state_trans_req
state_told_to w state s h = record {
  manager = h;
  node = λ c.
      let n = s.node c in
      let (response, k) = on_state_trans_req (w.approve_state c) (int8 (state_val state)) n in
      deliver (news s.manager h) (if asked w s.manager c then k else n);
}

-- `on_state_changed` and what the nodes do meanwhile
unfoldable pub state_told : ℕ → Setting → State → System → Option System
unfolding state_told_to on_state_changed
state_told fuel w state s =
    elim (on_state_changed fuel (state_service w state s.node) state s.manager) [
      | none ↦ none
      | some h ↦ some (state_told_to w state s h)
    ]

-- The clients are asked only when the machine has switched.
abbrev pub has_value : Option (Expected × StateMachine) → Bool
has_value (some (value b, m)) = true
has_value _ = false

unfoldable pub mode_told_to : Setting → ℤ → System → Manager → System
unfolding deliver_around on_mode_trans_req
mode_told_to w val s h = record {
  manager = h;
  node = λ c.
      let switched = has_value (change_mode (mode_of_val val) s.manager.machine) in
      let request : Node → Node = λ n. (on_mode_trans_req (w.approve_mode c) val n).1 in
      deliver_around (w.handled_before c)
        (λ n. if switched && asked w s.manager c then request n else n) (news s.manager h)
        (s.node c);
}

-- `on_change_mode` and what the nodes do meanwhile
unfoldable pub mode_requested : ℕ → Setting → ℤ → System → Option (Response × System)
unfolding mode_told_to on_change_mode
mode_requested fuel w val s = elim (on_change_mode fuel (mode_service w val s.node) val s.manager) [
  | none ↦ none
  | some (r, h) ↦ some (r, mode_told_to w val s h)
]
