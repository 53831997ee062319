-- ===== src/Manager/Threads.antt =====
-- packml_ros/include/packml_ros: the thread of Qt that enters a state and the thread that spins the
-- node and changes the mode. Each writes its field and then runs `publish_status`, with nothing that
-- keeps the other out.
use packml_ros.Base.{List, [], ◌∷◌, ◌++◌}
use packml_ros.Common.{State, ModeType, state_val, mode_val}
use packml_ros.Common.Casts.{int8}
use packml_ros.Messages.{Status}
use packml_ros.Manager.{Manager}

-- What a thread does next: the write of its field, the two reads of `publish_status`, the publishing.
pub data Point : Type 0 where
  at_write at_state at_mode at_publish at_end : Point

-- a thread with the message that it fills
pub record Publisher : Type 0 where
  pub point : Point
  pub status : Status

-- One step of a thread whose field is written by `write`.
unfoldable pub publisher_step : (Manager → Manager) → Manager → Status → Point → Manager × Publisher
unfolding int8 state_val mode_val
publisher_step write g status at_write = (write g, record { point = at_state; status = status })
publisher_step write g status at_state = (
  g,
  record {
    point = at_mode;
    status = record status { state_val = int8 (state_val g.current_state) };
  },
)
publisher_step write g status at_mode = (
  g,
  record {
    point = at_publish;
    status = record status { mode_val = int8 (mode_val g.current_mode) };
  },
)
publisher_step write g status at_publish = (
  record g { published = g.published ++ status ∷ [] },
  record { point = at_end; status = status },
)
publisher_step write g status at_end = (g, record { point = at_end; status = status })

pub data Thread : Type 0 where
  qt_thread spin_thread : Thread

pub record Threads : Type 0 where
  pub manager : Manager
  pub qt : Publisher
  pub spin : Publisher

-- The state thread ends `on_state_changed`, the other one is in `on_mode_changed`.
unfoldable pub turn : State → ModeType → Thread → Threads → Threads
unfolding publisher_step
turn state mode qt_thread t =
    let r =
      publisher_step (λ g. record g { current_state = state }) t.manager t.qt.status t.qt.point in
    record { manager = r.0; qt = r.1; spin = t.spin }
turn state mode spin_thread t =
    let r =
      publisher_step (λ g. record g { current_mode = mode }) t.manager t.spin.status t.spin.point in
    record { manager = r.0; qt = t.qt; spin = r.1 }

-- the threads' steps, one after another
unfoldable pub turns : State → ModeType → List Thread → Threads → Threads
unfolding turn
turns state mode [] t = t
turns state mode (thread ∷ rest) t = turns state mode rest (turn state mode thread t)

-- Both threads before their writes; `blank` is a message before it is filled.
abbrev pub both_start : Status → Manager → Threads
both_start blank g = record {
  manager = g;
  qt = record { point = at_write; status = blank };
  spin = record { point = at_write; status = blank };
}
