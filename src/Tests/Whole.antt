-- ===== src/Tests/Whole.antt =====
-- The theorems on the manager with its nodes, each on a system of two clients.
use packml_ros.Base.{
  ◌≡◌, refl, ◌==◌, not, ◌&&◌, true, false, some, none, [], ◌∷◌, pos, inl, arith, String,
  if◌then◌else◌,
}
use packml_ros.Common.{State, production, state_val, mode_val, mode_of_val}
use packml_ros.Common.Casts.{int8}
use packml_ros.Messages.{new_response, success_code}
use packml_ros.NodeInterface.{Node}
use packml_ros.NodeInterface.Handshake.{differs}
use packml_ros.Diagram.{single}
use packml_ros.Diagram.Built.{store_of}
use packml_ros.Diagram.Modes.{switched}
use packml_ros.Manager.{kept_promise, publish_status}
use packml_ros.Manager.ClientMap.{contains}
use packml_ros.System.{System, Setting, state_told, mode_requested, deliver}
use packml_ros.System.Steps.{Reach, here, next, hears}
use packml_ros.System.Sync.Racing.{Reach-catches_up}
use packml_ros.System.Told.{node_view, manager_view, status_of}
use packml_ros.Manager.Start.{init}
use packml_ros.System.NewState.{state_told-agreed}
use packml_ros.System.Refused.{state_told-overruled}
use packml_ros.System.NewMode.{mode_requested-agreed}
use packml_ros.Tests.{running_in}
use packml_ros.Tests.Clients.{manager_of}
use text.Mathlib.Text.{◌==◌ as str_eq}

-- A node in IDLE and PRODUCTION that waits for nothing.
abbrev calm_node : Node
calm_node = record {
  current_mode = production;
  switching_mode = production;
  current_state = State.idle;
  switching_state = State.idle;
  waiting_for_new_mode = false;
  waiting_for_new_state = false;
  notified = 0;
}

abbrev pub two_nodes : System
two_nodes = record { manager = manager_of State.idle ("a" ∷ "b" ∷ []); node = λ c. calm_node }

-- All agree; "a" answers in the second round, and hears of a new mode before it is asked for it.
abbrev pub willing : Setting
willing = record {
  there = λ c. true;
  delay = λ c. if str_eq c "a" then 1 else 0;
  spins = λ i c. true;
  approve_state = λ c s. true;
  approve_mode = λ c m. true;
  handled_before = λ c. if str_eq c "a" then 1 else 0;
}

-- "b" refuses every state.
abbrev unwilling : Setting
unwilling = record willing { delay = λ c. 0; approve_state = λ c s. not (str_eq c "b") }

state_told-agreed_example :
    (t : System) × (state_told 2 willing State.starting two_nodes ≡ some t)
    × (t.manager
        ≡ publish_status (record two_nodes.manager {
          changed_prom = kept_promise;
          current_state = State.starting;
        }))
    × ((d : String)
        → contains d ("a" ∷ "b" ∷ []) ≡ true
        → (state_val (t.node d).current_state ≡ state_val State.starting)
          × ((t.node d).waiting_for_new_state
              ≡ not (differs (state_val State.idle) (state_val State.starting))))
state_told-agreed_example =
    state_told-agreed 2 1 willing State.starting two_nodes "a" ("b" ∷ []) refl refl (omega arith)
      ((refl, omega arith, (refl, omega arith, tt)), λ j h. refl) (λ d. refl)

-- "a" refuses every state, and "b", which answers in the same round, agrees.
abbrev overruled : Setting
overruled = record willing { delay = λ c. 0; approve_state = λ c s. not (str_eq c "a") }

state_told-overruled_example :
    (t : System) × (state_told 1 overruled State.starting two_nodes ≡ some t)
    × (t.manager
        ≡ publish_status (record two_nodes.manager {
          changed_prom = kept_promise;
          current_state = State.starting;
        }))
    × ((d : String)
        → contains d ("a" ∷ "b" ∷ []) ≡ true
        → state_val (t.node d).current_state ≡ state_val State.starting)
state_told-overruled_example =
    state_told-overruled 1 0 overruled State.starting two_nodes "a" ("b" ∷ []) refl refl
      (omega arith) ((refl, omega arith, (refl, omega arith, tt)), λ j h. refl) refl

mode_requested-agreed_example :
    (t : System) × (mode_requested 2 willing (pos 2) two_nodes
      ≡ some (record new_response { success = true; error_code = success_code }, t))
    × (t.manager.current_mode ≡ mode_of_val (pos 2))
    × ((d : String)
        → contains d ("a" ∷ "b" ∷ []) ≡ true
        → (mode_val (t.node d).current_mode ≡ pos 2)
          × ((t.node d).waiting_for_new_mode
              ≡ not (willing.handled_before d == 0 && differs (mode_val production) (pos 2))))
unfolding switched store_of int8
mode_requested-agreed_example =
    mode_requested-agreed single 2 1 willing (pos 2) two_nodes "a" ("b" ∷ []) refl (inl refl) refl
      refl (omega arith) ((refl, omega arith, (refl, omega arith, tt)), λ j h. refl) (λ d. refl)

-- A manager that was just initialised with two clients.
abbrev fresh_nodes : System
unfolding init
fresh_nodes = record two_nodes {
  manager = init ("a" ∷ "b" ∷ []) (running_in single production State.idle);
}

idle_told : System
unfolding state_told
idle_told = elim (state_told 2 willing State.idle fresh_nodes) [ none ↦ two_nodes | some t ↦ t ]

idle_told-Reach : Reach fresh_nodes idle_told
unfolding idle_told fresh_nodes
idle_told-Reach =
    next fresh_nodes fresh_nodes idle_told (here fresh_nodes)
      (hears 2 willing State.idle fresh_nodes idle_told refl)

-- A node in IDLE and PRODUCTION that hears the last status only.
Reach-catches_up_example :
    node_view (deliver (status_of idle_told.manager ∷ []) calm_node)
    ≡ manager_view idle_told.manager
unfolding idle_told state_told publish_status init state_val mode_val int8
Reach-catches_up_example =
    Reach-catches_up fresh_nodes idle_told [] [] (status_of idle_told.manager) calm_node
      idle_told-Reach (λ e. ground (arith, e)) refl
