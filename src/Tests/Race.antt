-- ===== src/Tests/Race.antt =====
-- The theorems on the two publishing threads, at a manager in IDLE that enters STARTING and MAINTENANCE.
use packml_ros.Base.{◌≡◌, refl, [], ◌∷◌, List, pos}
use packml_ros.Common.{State, ModeType, state_val, mode_val, mode_of_val}
use packml_ros.Common.Casts.{int8}
use packml_ros.Messages.{Status}
use packml_ros.NodeInterface.{Node}
use packml_ros.Manager.{Manager}
use packml_ros.Manager.Threads.{
  Thread, qt_thread, spin_thread, publisher_step, turn, turns, both_start,
}
use packml_ros.System.{deliver}
use packml_ros.System.Told.{node_view}
use packml_ros.System.Race.{status_with, turns-late}
use packml_ros.System.Race.Fresh.{Publishes}
use packml_ros.System.Race.Orders.{turns-Publishes}
use packml_ros.Tests.Clients.{manager_of}

abbrev idle_manager : Manager
idle_manager = manager_of State.idle []

abbrev new_mode : ModeType
new_mode = mode_of_val (pos 2)

abbrev blank : Status
blank = record { state_val = pos 0; mode_val = pos 0 }

turns-late_example :
    (late : List Thread) × ((turns State.starting new_mode late
        (both_start blank idle_manager)).manager
      ≡ record idle_manager {
        current_state = State.starting;
        current_mode = new_mode;
        published =
            status_with State.starting new_mode
            ∷ status_with State.starting idle_manager.current_mode
            ∷ [];
      })
    × ((n : Node)
        → node_view (
            deliver
              (status_with State.starting new_mode
                ∷ status_with State.starting idle_manager.current_mode
                ∷ [])
              n)
          ≡ (int8 (state_val State.starting), int8 (mode_val idle_manager.current_mode)))
turns-late_example = turns-late State.starting new_mode blank idle_manager

-- The threads take turns.
abbrev by_turns : List Thread
by_turns =
    qt_thread ∷ spin_thread ∷ qt_thread ∷ spin_thread ∷ qt_thread ∷ spin_thread ∷ qt_thread
    ∷ spin_thread ∷ []

turns-Publishes_example :
    let h = (turns State.starting new_mode by_turns (both_start blank idle_manager)).manager in
    (h.current_state ≡ State.starting)
    × (h.current_mode ≡ new_mode)
    × Publishes State.starting new_mode [] h.published
unfolding turns turn publisher_step
turns-Publishes_example =
    turns-Publishes State.starting new_mode blank idle_manager by_turns refl refl
