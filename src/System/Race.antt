-- ===== src/System/Race.antt =====
-- The two threads of Manager/Threads, each alone and both together.
pub mod Fresh
pub mod Orders
use mathlib.Core.List.{append_assoc, append-nil}
use packml_ros.Base.{◌≡◌, refl, sym, ap, ◌∙◌, ◌⊎◌, inl, inr, List, [], ◌∷◌, ◌++◌, arith, ℤ}
use packml_ros.Common.{State, ModeType, state_val, mode_val}
use packml_ros.Common.Casts.{int8}
use packml_ros.Messages.{Status}
use packml_ros.NodeInterface.{Node}
use packml_ros.Manager.{Manager, publish_status, on_mode_changed}
use packml_ros.Manager.Threads.{
  Point, at_write, at_state, at_mode, at_publish, at_end, Publisher, publisher_step, Thread,
  qt_thread, spin_thread, Threads, turn, turns, both_start,
}
use packml_ros.System.{deliver}
use packml_ros.System.Told.{node_view, deliver-view}

abbrev pub status_with : State → ModeType → Status
status_with state mode = record {
  state_val = int8 (state_val state);
  mode_val = int8 (mode_val mode);
}

-- A thread alone does what the callback does.
turns-publish_status :
    (state : State) (mode : ModeType) (blank : Status) (g : Manager)
    → ((turns state mode
          (qt_thread ∷ qt_thread ∷ qt_thread ∷ qt_thread ∷ [])
          (both_start blank g)).manager
        ≡ publish_status (record g { current_state = state }))
      × ((turns state mode
            (spin_thread ∷ spin_thread ∷ spin_thread ∷ spin_thread ∷ [])
            (both_start blank g)).manager
          ≡ on_mode_changed mode g)
unfolding turns turn publisher_step publish_status on_mode_changed
turns-publish_status state mode blank g = (refl, refl)

-- There is an order of the steps of the two threads after which the manager has the new state and
-- the new mode, but the status that was published last has the old mode, and a node that hears both
-- statuses ends with the new state and the old mode.
pub turns-late :
    (state : State) (mode : ModeType) (blank : Status) (g : Manager)
    → (late : List Thread) × ((turns state mode late (both_start blank g)).manager ≡ record g {
      current_state = state;
      current_mode = mode;
      published = g.published ++ status_with state mode ∷ status_with state g.current_mode ∷ [];
    })
      × ((n : Node)
          → node_view (deliver (status_with state mode ∷ status_with state g.current_mode ∷ []) n)
            ≡ (int8 (state_val state), int8 (mode_val g.current_mode)))
unfolding turns turn publisher_step
turns-late state mode blank g =
    let new = status_with state mode in
    let old = status_with state g.current_mode in
    (
      qt_thread ∷ qt_thread ∷ qt_thread ∷ spin_thread ∷ spin_thread ∷ spin_thread ∷ spin_thread
          ∷ qt_thread ∷ [],
      ap (λ p. record g { current_state = state; current_mode = mode; published = p })
          (append_assoc g.published (new ∷ []) (old ∷ [])),
      deliver-view (new ∷ old ∷ []),
    )
