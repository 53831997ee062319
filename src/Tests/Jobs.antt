-- ===== src/Tests/Jobs.antt =====
-- The theorems on runs of the whole program: a job of an operator, a start, a machine that is halted.
use packml_ros.Base.{◌≡◌, refl, pos, true, some, [], ◌∷◌, List, String, arith}
use packml_ros.Common.{State, production}
use packml_ros.Qt.{documented_engine}
use packml_ros.Messages.{new_response, success_code}
use packml_ros.StateMachine.{StateMachine}
use packml_ros.StateMachine.Run.{operation_event}
use packml_ros.NodeInterface.{Node}
use packml_ros.Diagram.{single}
use packml_ros.Diagram.Modes.{switched}
use packml_ros.Diagram.Runs.{IsTracked}
use packml_ros.Manager.{Manager, to_transition_cmd, wait_all_futures, call_all_clients}
use packml_ros.Manager.States.{responds}
use packml_ros.Manager.ClientMap.{insert_clients}
use packml_ros.Manager.Start.{new_sm_node}
use packml_ros.System.{System}
use packml_ros.System.Steps.{state_requested}
use packml_ros.System.Job.{works_told, Holds, Follows}
use packml_ros.System.Job.Ordered.{ordered-Follows}
use packml_ros.System.Whole.{Reach}
use packml_ros.System.Whole.Reports.{Reported, states_of}
use packml_ros.System.Whole.Boot.{new_sm_node-runs}
use packml_ros.Tests.{running_in, running_in-IsQuiet, new_machine}
use packml_ros.Tests.Clients.{slow_service}
use packml_ros.Tests.Whole.{two_nodes, willing}

abbrev idle_machine : StateMachine
idle_machine = running_in single production State.idle

two_nodes-Holds :
    Holds single idle_machine.properties idle_machine.functions
      ("a" ∷ "b" ∷ [])
      State.idle
      two_nodes
two_nodes-Holds = record {
  quiet = running_in-IsQuiet single production State.idle refl;
  asks = refl;
  held = refl;
  nodes = λ d b. refl;
}

-- The rest of a single cycle after its start.
abbrev rest_of_cycle : List State
rest_of_cycle = State.execute ∷ State.completing ∷ State.complete ∷ []

ordered-Follows_example :
    (v u : System) × (state_requested documented_engine 2 willing (pos 2) two_nodes
      ≡ some (responds (record new_response { success = true; error_code = success_code }), v))
    × (works_told documented_engine 2 willing State.starting rest_of_cycle v ≡ some u)
    × Follows single idle_machine.properties idle_machine.functions
        ("a" ∷ "b" ∷ [])
        State.idle
        (State.starting ∷ rest_of_cycle)
        two_nodes
        u
unfolding switched to_transition_cmd operation_event
ordered-Follows_example =
    ordered-Follows documented_engine single idle_machine.properties idle_machine.functions 2 1
      willing "a" ("b" ∷ []) (omega arith)
      ((refl, omega arith, (refl, omega arith, tt)), λ j h. refl) (λ d t. refl) (pos 2) State.idle
      State.starting rest_of_cycle two_nodes two_nodes-Holds refl refl refl refl
      (refl, refl, refl, (refl, refl, refl, (refl, refl, refl, tt)))

new_sm_node-runs_example :
    (g : Manager) × (new_sm_node 2 slow_service true State.held ("b" ∷ "a" ∷ []) ≡ some g)
    × ((node : String → Node) (t : System)
        → Reach documented_engine (record { manager = g; node = node }) t
        → IsTracked single t.manager.machine
          × Reported (states_of t.manager.machine.calls) t.manager)
unfolding insert_clients wait_all_futures call_all_clients
new_sm_node-runs_example =
    new_sm_node-runs documented_engine 2 slow_service State.held ("b" ∷ "a" ∷ []) true refl

-- A system whose machine was not started.
abbrev unstarted : System
unstarted = record two_nodes { manager = record two_nodes.manager { machine = new_machine single } }
