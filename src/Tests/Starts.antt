-- ===== src/Tests/Starts.antt =====
-- The theorems on the start of the manager and on its map, each at one input.
use packml_ros.Base.{◌≡◌, refl, true, some, [], ◌∷◌}
use packml_ros.Common.{State, manual}
use packml_ros.Diagram.{single}
use packml_ros.Diagram.Invariant.{IsConsistent}
use packml_ros.Manager.{Manager, wait_all_futures, call_all_clients}
use packml_ros.Manager.ClientMap.{insert_clients}
use packml_ros.Manager.Start.{new_sm_node}
use packml_ros.Manager.Start.Boot.{manual_status, new_sm_node_lem}
use packml_ros.Tests.Clients.{slow_service}

new_sm_node_lem_example :
    (g : Manager) × (new_sm_node 2 slow_service true State.held ("b" ∷ "a" ∷ []) ≡ some g)
    × IsConsistent single g.machine
    × (g.machine.state_value ≡ State.aborted)
    × (g.current_mode ≡ manual)
    × (g.current_state ≡ State.aborted)
    × (g.published ≡ manual_status State.undefined ∷ manual_status State.aborted ∷ [])
unfolding insert_clients wait_all_futures call_all_clients
new_sm_node_lem_example = new_sm_node_lem 2 slow_service State.held ("b" ∷ "a" ∷ []) true refl
