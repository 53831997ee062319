-- ===== src/Manager/Unanswered.antt =====
-- The manager when a client is there and never answers: on_change_mode of packml_ros/include/
-- packml_ros/interface/packml_interface.hpp and on_state_changed of packml_ros-new.hpp.
use packml_ros.Base.{◌≡◌, ◌⊎◌, refl, ℕ, ℤ, String, none}
use packml_ros.Common.{State, mode_of_val}
use packml_ros.Diagram.{Cycle}
use packml_ros.Diagram.Built.{store_of}
use packml_ros.Diagram.Modes.{change_mode-switched}
use packml_ros.Manager.{Service, Manager, on_state_changed, on_change_mode}
use packml_ros.Manager.Waiting.{AllAvailable, Agrees}
use packml_ros.Manager.Waiting.Silent.{IsClient, wait_all_futures-silent}

-- All clients of the manager are there, one of them never answers, and every answer that the others
-- give is a success. Then neither the callback on a new state nor a mode request, for a machine
-- with the store that `init` built which shows IDLE or has no mode yet, ever returns: no fuel is
-- enough.
pub never_answers :
    (cy : Cycle) (service : Service) (g : Manager) (d : String) (fuel : ℕ) (state : State) (val : ℤ)
    → AllAvailable service g.clients
    → IsClient d g.clients
    → ((j : ℕ) → service.ready_in j d ≡ none)
    → ((j : ℕ) → Agrees (service.ready_in j))
    → g.machine.store ≡ store_of cy
    → (g.machine.state_value ≡ State.idle) ⊎ (g.machine.current_mode.name ≡ "")
    → (on_state_changed fuel service state g ≡ none) × (on_change_mode fuel service val g ≡ none)
unfolding on_state_changed on_change_mode
never_answers cy service g d fuel state val there client silent agrees st w =
    let waits = wait_all_futures-silent service d g.clients fuel there client silent agrees in
    (rw waits refl, rw (change_mode-switched cy (mode_of_val val) g.machine st w, waits) refl)
