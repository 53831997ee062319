-- ===== src/StateMachine/Nested.antt =====
-- Super states: packml_sm/src/states/, as Qt runs it for every state that a transition leaves or
-- enters, the super states of packml_sm/include/packml_sm/states/toplevel_states.hpp among them.
-- StateMachine/Run has the active state and the target alone.
pub mod Crossing
use packml_ros.Base.{
  ◌≡◌, ◌⊎◌, ℕ, zero, suc, Bool, true, false, ◌&&◌, ◌||◌, Option, none, some, List, [], ◌∷◌, ◌++◌,
  length, get_elem?, ◌==◌, if◌then◌else◌,
}
use packml_ros.Events.{Payload, QEvent}
use packml_ros.Store.{Store, Transition}
use packml_ros.Qt.{QtEngine, flatten}
use packml_ros.Transitions.{candidates, event_test}
use packml_ros.StateMachine.{StateMachine}
use packml_ros.StateMachine.Run.{is_acting, on_entry, on_exit, end_select_transitions, available}

-- `parentState()`, upwards. As many rounds as there are objects are enough.
abbrev climb_parents : ℕ → Store → Option ℕ → List ℕ
climb_parents zero s p = []
climb_parents (suc fuel) s none = []
climb_parents (suc fuel) s (some p) = elim (get_elem? s.objects p) [
  | none ↦ p ∷ []
  | some o ↦ p ∷ climb_parents fuel s o.parent
]

abbrev parent_of : Store → ℕ → Option ℕ
parent_of s p = elim (get_elem? s.objects p) [ none ↦ none | some o ↦ o.parent ]

-- the super states around a state, innermost first
abbrev pub ancestors : Store → ℕ → List ℕ
ancestors s p = climb_parents (length s.objects) s (parent_of s p)

abbrev pub is_in : ℕ → List ℕ → Bool
is_in a [] = false
is_in a (b ∷ bs) = a == b || is_in a bs

abbrev pub all_in : List ℕ → List ℕ → Bool
all_in [] bs = true
all_in (a ∷ rest) bs = is_in a bs && all_in rest bs

abbrev pub IsAmong : Transition → List Transition → Type 0
IsAmong t [] = ⊥
IsAmong t (x ∷ xs) = (x ≡ t) ⊎ IsAmong t xs

-- Which states Qt leaves and enters for a transition, in its order. A state is left before the
-- super states around it, and entered after them; `p` is the active state that has no child.
pub record QtOrder : Type 0 where
  pub exit_set : Store → ℕ → Transition → List ℕ
  pub entry_set : Store → ℕ → Transition → List ℕ
  pub exit_set_lem :
      (s : Store) (p : ℕ) (t : Transition) (q : ℕ)
      → IsAmong t (flatten (candidates s p))
      → t.target ≡ some q
      → (supers : List ℕ) × (exit_set s p t ≡ p ∷ supers) × (all_in supers (ancestors s p) ≡ true)
  pub entry_set_lem :
      (s : Store) (p : ℕ) (t : Transition) (q : ℕ)
      → IsAmong t (flatten (candidates s p))
      → t.target ≡ some q
      → (supers : List ℕ) × (entry_set s p t ≡ supers ++ q ∷ [])
        × (all_in supers (ancestors s q) ≡ true)

-- `onExit`, by the class of the object
unfoldable pub leave : ℕ → StateMachine → StateMachine
unfolding on_exit
leave p m = elim (get_elem? m.store.objects p) [
  | none ↦ m
  | some o ↦ if is_acting o.kind then on_exit p m else m
]

unfoldable pub leave_all : List ℕ → StateMachine → StateMachine
unfolding leave
leave_all [] m = m
leave_all (p ∷ ps) m = leave_all ps (leave p m)

unfoldable pub enter_all : List ℕ → StateMachine → StateMachine
unfolding on_entry
enter_all [] m = m
enter_all (p ∷ ps) m = enter_all ps (on_entry p m)

module _ (order : QtOrder) where
  unfoldable pub take_nested : ℕ → Option Transition → StateMachine → StateMachine
  unfolding leave_all enter_all
  take_nested p none m = m
  take_nested p (some t) m = elim t.target [
    | none ↦ m
    | some q ↦
        enter_all (order.entry_set m.store p t)
          (record (leave_all (order.exit_set m.store p t) m) { active = some q })
  ]

  unfoldable pub settle_nested : ℕ → Option Transition × QEvent → StateMachine → StateMachine
  unfolding take_nested end_select_transitions
  settle_nested p (t, e) m = take_nested p t (end_select_transitions e m)

  module _ (qt : QtEngine) where
    unfoldable pub respond_nested : Option ℕ → Payload → StateMachine → StateMachine
    respond_nested none payload m = m
    respond_nested (some p) payload m =
        settle_nested p
          (qt.select (candidates m.store p) (event_test qt (available m))
            (record { payload = payload; accepted = qt.born_accepted }))
          m

    unfoldable pub take_event_nested : List Payload → StateMachine → StateMachine
    unfolding respond_nested settle_nested candidates event_test
    take_event_nested [] m = m
    take_event_nested (e ∷ es) m = respond_nested m.active e (record m { queue = es })

    unfoldable pub rounds_nested : ℕ → StateMachine → StateMachine
    unfolding take_event_nested
    rounds_nested zero m = m
    rounds_nested (suc n) m = rounds_nested n (take_event_nested m.queue m)
