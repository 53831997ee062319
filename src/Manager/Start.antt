-- ===== src/Manager/Start.antt =====
-- packml_ros/include/packml_ros/packml_ros-new.hpp, the constructor of `SMNode_new`, and `init` of
-- `PackmlManagerInterface`.
pub mod Boot
use packml_ros.Base.{
  ◌≡◌, refl, sym, ap, ◌∙◌, subst, ℕ, Bool, true, false, String, Option, none, some, List, [], ◌∷◌,
  ◌++◌, length, ◌⊎◌, inl, inr, if◌then◌else◌, ℤ, pos,
}
use packml_ros.Common.{State, ModeType, state_val, mode_val}
use packml_ros.Common.Casts.{int8}
use packml_ros.Messages.{Status}
use packml_ros.StateMachine.{StateMachine, single_cycle_sm}
use packml_ros.StateMachine.Requests.{Expected, change_mode, activate}
use packml_ros.Diagram.{Cycle, single}
use packml_ros.Diagram.Built.{fresh, built-fresh}
use packml_ros.Diagram.Modes.{switched, change_mode-switched}
use packml_ros.Diagram.Commands.{IsBuilt, started, started-IsConsistent, activate-started}
use packml_ros.Diagram.Invariant.{IsConsistent}
use packml_ros.Manager.{
  Service, Manager, on_mode_changed, on_state_changed, publish_status, state_answer,
  call_all_clients, wait_all_futures, kept_promise,
}
use packml_ros.Manager.ClientMap.{insert_clients}
use packml_ros.Manager.States.{hear, since}

-- `PackmlManagerInterface::init`, on a node that was just made
unfoldable pub init : List String → StateMachine → Manager
unfolding insert_clients
init node_names sm = record {
  machine = sm;
  clients = insert_clients node_names [];
  current_mode = ModeType.undefined;
  switching_mode = ModeType.undefined;
  current_state = State.undefined;
  published = [];
  changed_prom = record { is_set = false; is_retrieved = false };
}

-- the callbacks that a call of the machine made
called : ℕ → Service → StateMachine → Manager → Option Manager
unfolding hear
called fuel service m g =
    hear fuel service (since (length g.machine.calls) m.calls) (record g { machine = m })

-- `sm->activate()`, whose callback reaches the manager
activated : ℕ → Service → Bool → Option Manager → Option Manager
unfolding called activate
activated fuel service app none = none
activated fuel service app (some g) = called fuel service (activate app g.machine).1 g

-- `sm->changeMode(MANUAL)`, whose answer is not looked at
mode_chosen : ℕ → Service → Manager → Option (Expected × StateMachine) → Option Manager
unfolding called
mode_chosen fuel service g none = none
mode_chosen fuel service g (some (answer, m)) = called fuel service m g

started_with : ℕ → Service → Bool → Manager → Option Manager
unfolding mode_chosen activated change_mode
started_with fuel service app g =
    activated fuel service app (mode_chosen fuel service g (change_mode ModeType.manual g.machine))

-- `SMNode_new(node)`; `app` is whether there is a Qt application.
unfoldable pub new_sm_node : ℕ → Service → Bool → State → List String → Option Manager
unfolding single_cycle_sm init started_with
new_sm_node fuel service app garbage node_names = elim (single_cycle_sm garbage) [
  | none ↦ none
  | some m ↦ started_with fuel service app (init node_names m)
]
