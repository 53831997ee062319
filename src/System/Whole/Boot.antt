-- ===== src/System/Whole/Boot.antt =====
-- Every run from the constructor of `SMNode_new`.
use packml_ros.Base.{◌≡◌, refl, List, [], ℕ, Bool, true, false, String, some}
use packml_ros.Qt.{QtEngine}
use packml_ros.Common.{State, ModeType}
use packml_ros.NodeInterface.{Node}
use packml_ros.Diagram.{single}
use packml_ros.Diagram.Modes.{switched}
use packml_ros.Diagram.Commands.{started-IsConsistent}
use packml_ros.Diagram.Runs.{IsTracked}
use packml_ros.Manager.{
  Service, Manager, publish_status, on_mode_changed, call_all_clients, wait_all_futures,
}
use packml_ros.Manager.ClientMap.{insert_clients}
use packml_ros.Manager.Start.{init, new_sm_node}
use packml_ros.Manager.Start.Boot.{configured, booted, new_sm_node-booted}
use packml_ros.System.{System}
use packml_ros.System.Whole.{Reach}
use packml_ros.System.Whole.Reports.{Reported, states_of, untold, publishes, kept, passed_over}
use packml_ros.System.Whole.Traced.{Reach-IsTraced}

booted-IsTracked :
    (garbage : State) (names : List String) (b : Bool)
    → IsTracked single (booted garbage names b).machine
unfolding publish_status on_mode_changed init switched
booted-IsTracked garbage names true = record {
  consistent =
      started-IsConsistent single (configured garbage names).machine
        (record { built_store = refl; initial_object = refl });
  path = (refl, refl, tt);
  stands = refl;
}
booted-IsTracked garbage names false = record {
  consistent =
      started-IsConsistent single (configured garbage names).machine
        (record { built_store = refl; initial_object = refl });
  path = (refl, refl, tt);
  stands = refl;
}

booted-Reported :
    (garbage : State) (names : List String) (b : Bool)
    → let g = booted garbage names b in Reported (states_of g.machine.calls) g
unfolding publish_status on_mode_changed init switched
booted-Reported garbage names true =
    publishes _ _ _ ModeType.manual
      (kept _ _ _ State.aborted (publishes [] State.undefined [] ModeType.manual untold))
booted-Reported garbage names false =
    passed_over _ _ _ State.aborted (publishes [] State.undefined [] ModeType.manual untold)

-- Where a Qt application is there and the wait for the clients of the first state ends, the
-- constructor of the manager succeeds, and on every run of the whole program from there, whatever
-- the event loop, the threads and the clients do, whichever nodes are there, refuse or are slow,
-- and with the two threads that publish also at work at once, in any order of their steps: the
-- states that the machine tells form a path through the PackML diagram from ABORTED to the state
-- that it shows; the manager holds UNDEFINED or a state that it was told, each told state is passed
-- over or replaces the one that is held, and each published status has the state that was held when
-- it was published, but for one that may come right after the first status of a new state and has
-- the state that was held before.
pub new_sm_node-runs :
    (qt : QtEngine) (fuel : ℕ) (service : Service) (garbage : State) (names : List String)
    (b : Bool)
    → let cs = insert_clients names [] in
      wait_all_futures fuel service cs (call_all_clients service cs) ≡ some b
      → (g : Manager) × (new_sm_node fuel service true garbage names ≡ some g)
        × ((node : String → Node) (t : System)
            → Reach qt (record { manager = g; node = node }) t
            → IsTracked single t.manager.machine
              × Reported (states_of t.manager.machine.calls) t.manager)
new_sm_node-runs qt fuel service garbage names b h = (
  booted garbage names b,
  new_sm_node-booted fuel service garbage names b h,
  λ node t r.
      let i =
        Reach-IsTraced qt single (record { manager = booted garbage names b; node = node }) t r
          (record {
            tracked = booted-IsTracked garbage names b;
            reported = booted-Reported garbage names b;
          }) in
      (i.tracked, i.reported),
)
