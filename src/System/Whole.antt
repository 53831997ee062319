-- ===== src/System/Whole.antt =====
-- The program as a whole: the machine of packml_sm, which its threads, the event loop and the clients
-- drive, the manager of packml_ros-new.hpp, which hears every call of the machine, and the nodes.
pub mod Reports
pub mod Told
pub mod Raced
pub mod Traced
pub mod Boot
use packml_ros.Base.{◌≡◌, ℕ, ℤ, Option, some, List, [], ◌∷◌, ◌++◌, length}
use packml_ros.Qt.{QtEngine}
use packml_ros.Messages.{Response}
use packml_ros.StateMachine.{StateMachine}
use packml_ros.Diagram.Runs as Machine
use packml_ros.Manager.States.{Outcome, since}
use packml_ros.System.{System, Setting, mode_requested}
use packml_ros.System.Steps.{hear_all, state_requested, mode_published}
use packml_ros.Common.{State, ModeType}
use packml_ros.Messages.{Status}
use packml_ros.Manager.{on_mode_changed}
use packml_ros.Manager.Threads.{at_end, Thread, turns, both_start}
use packml_ros.System.Whole.Reports.{states_of}

abbrev pub with_machine : System → StateMachine → System
with_machine s m = record s { manager = record s.manager { machine = m } }

module _ (qt : QtEngine) where
  -- The machine makes a step and the manager hears what it called; or the machine moves to one new
  -- state, which the clients let pass, and the thread of Qt keeps and publishes it while the thread
  -- that spins the node keeps and publishes a mode; or a mode is kept and published, as in a request
  -- of which another part raced; or a state or a mode is requested.
  pub data Step : System → System → Type 0 where
    machine_steps :
        (fuel : ℕ) (w : Setting) (s t : System) (m : StateMachine)
        → Machine.Step qt s.manager.machine m
        → hear_all fuel w (since (length s.manager.machine.calls) m.calls) (with_machine s m)
          ≡ some t
        → Step s t
    races :
        (s : System) (m : StateMachine) (state : State) (mode : ModeType) (blank : Status)
        (order : List Thread)
        → Machine.Reach qt s.manager.machine m
        → states_of m.calls ≡ states_of s.manager.machine.calls ++ state ∷ []
        → (turns state mode order (both_start blank (with_machine s m).manager)).qt.point ≡ at_end
        → (turns state mode order (both_start blank (with_machine s m).manager)).spin.point ≡ at_end
        → Step s (
            mode_published
              (with_machine s m)
              (turns state mode order (both_start blank (with_machine s m).manager)).manager)
    publishes_mode :
        (s : System) (mode : ModeType) → Step s (mode_published s (on_mode_changed mode s.manager))
    requests_mode :
        (fuel : ℕ) (w : Setting) (val : ℤ) (s t : System) (r : Response)
        → mode_requested fuel w val s ≡ some (r, t)
        → Step s t
    requests_state :
        (fuel : ℕ) (w : Setting) (val : ℤ) (s t : System) (o : Outcome)
        → state_requested qt fuel w val s ≡ some (o, t)
        → Step s t

  pub data Reach : System → System → Type 0 where
    here : (s : System) → Reach s s
    next : (s t u : System) → Reach s t → Step t u → Reach s u
