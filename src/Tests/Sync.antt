-- ===== src/Tests/Sync.antt =====
-- The theorem on what the nodes know, after a race of the two threads and a later state.
use packml_ros.Base.{◌≡◌, ◌⊎◌, refl, none, some, [], ◌∷◌, List, pos}
use packml_ros.Common.{State, ModeType, state_val, mode_val, mode_of_val}
use packml_ros.Common.Casts.{int8}
use packml_ros.Messages.{Status}
use packml_ros.Manager.Threads.{
  Thread, qt_thread, spin_thread, publisher_step, turn, turns, both_start,
}
use packml_ros.System.{System, state_told}
use packml_ros.System.Steps.{Reach, here, next, hears, mode_published}
use packml_ros.System.Sync.{IsInSync, IsHeard}
use packml_ros.System.Sync.Racing.{Racing, Racing-IsInSync}
use packml_ros.System.Told.{manager_view}
use packml_ros.Tests.Whole.{two_nodes, willing}

-- The thread of Qt publishes last, with the mode that it has read before.
abbrev late : List Thread
late =
    qt_thread ∷ qt_thread ∷ qt_thread ∷ spin_thread ∷ spin_thread ∷ spin_thread ∷ spin_thread
    ∷ qt_thread ∷ []

abbrev blank : Status
blank = record { state_val = pos 0; mode_val = pos 0 }

abbrev new_mode : ModeType
new_mode = mode_of_val (pos 2)

abbrev raced : System
raced =
    mode_published two_nodes
      (turns State.starting new_mode late (both_start blank two_nodes.manager)).manager

raced-Racing : Racing two_nodes raced
unfolding turns turn publisher_step
raced-Racing =
    Racing.race two_nodes two_nodes State.starting new_mode blank late (Racing.here two_nodes) refl
      refl

healed : System
unfolding state_told
healed = elim (state_told 2 willing State.execute raced) [ none ↦ raced | some t ↦ t ]

healed-Reach : Reach raced healed
unfolding healed mode_published turns
healed-Reach =
    next raced raced healed (here raced) (hears 2 willing State.execute raced healed refl)

two_nodes-IsHeard : IsHeard (manager_view two_nodes.manager) two_nodes
unfolding state_val mode_val int8
two_nodes-IsHeard c = refl

Racing-IsInSync_example :
    IsHeard (manager_view two_nodes.manager) raced
    × IsHeard (manager_view two_nodes.manager) healed
    × ((healed.manager.published ≡ raced.manager.published) ⊎ IsInSync healed)
Racing-IsInSync_example =
    Racing-IsInSync (manager_view two_nodes.manager) two_nodes raced healed raced-Racing
      healed-Reach two_nodes-IsHeard
