-- ===== src/System/Race/Orders.antt =====
-- What is published when both threads are done, whatever the order of their steps.
use mathlib.Core.List.{append-nil}
use packml_ros.Base.{◌≡◌, sym, subst, inl, inr, List, [], ◌∷◌}
use packml_ros.Common.{State, ModeType}
use packml_ros.Messages.{Status}
use packml_ros.Manager.{Manager}
use packml_ros.Manager.Threads.{
  at_end, Thread, qt_thread, spin_thread, Threads, turn, turns, both_start,
}
use packml_ros.System.Race.Fresh.{Publishes, IsRace, sure, state_step-IsRace, mode_step-IsRace}

turns-IsRace :
    (state : State) (mode : ModeType) (base : List Status) (order : List Thread) (t : Threads)
    → IsRace state mode base t.manager t.qt.point t.qt.status t.spin.point t.spin.status
    → let u = turns state mode order t in
      IsRace state mode base u.manager u.qt.point u.qt.status u.spin.point u.spin.status
unfolding turns turn
turns-IsRace state mode base [] t i = i
turns-IsRace state mode base (qt_thread ∷ rest) t i =
    turns-IsRace state mode base rest (turn state mode qt_thread t) (
      state_step-IsRace state mode base t.manager t.qt.point t.qt.status t.spin.point t.spin.status
        i)
turns-IsRace state mode base (spin_thread ∷ rest) t i =
    turns-IsRace state mode base rest (turn state mode spin_thread t) (
      mode_step-IsRace state mode base t.manager t.qt.point t.qt.status t.spin.point t.spin.status
        i)

ended :
    (state : State) (mode : ModeType) (base : List Status) (g : Manager) (a b : Status)
    → IsRace state mode base g at_end a at_end b
    → (g.current_state ≡ state) × (g.current_mode ≡ mode) × Publishes state mode base g.published
ended state mode base g a b i = (
  sure i.state_written,
  sure i.mode_written,
  elim (sure (sure i.fresh)) [ inl h ↦ h | inr h ↦ h ],
)

-- The thread of Qt writes a new state and the thread that spins the node a new mode, and each then
-- runs `publish_status`: in every order of their steps after which both are done, the manager has
-- the new state and mode, and a status with both is among those published since.
pub turns-Publishes :
    (state : State) (mode : ModeType) (blank : Status) (g : Manager) (order : List Thread)
    → (turns state mode order (both_start blank g)).qt.point ≡ at_end
    → (turns state mode order (both_start blank g)).spin.point ≡ at_end
    → let h = (turns state mode order (both_start blank g)).manager in
      (h.current_state ≡ state)
      × (h.current_mode ≡ mode)
      × Publishes state mode g.published h.published
turns-Publishes state mode blank g order e f =
    let u = turns state mode order (both_start blank g) in
    ended state mode g.published u.manager u.qt.status u.spin.status (
      subst (λ p. IsRace state mode g.published u.manager p u.qt.status at_end u.spin.status) e
        (subst (λ q. IsRace state mode g.published u.manager u.qt.point u.qt.status q u.spin.status)
          f
          (turns-IsRace state mode g.published order (both_start blank g) (record {
            statuses = [];
            adds = sym (append-nil g.published);
            state_written = inl tt;
            mode_written = inl tt;
            fresh = inl tt;
          }))))
