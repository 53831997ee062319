-- ===== src/Transitions.antt =====
-- packml_sm/include/packml_sm/transitions/packml_transitions.hpp and packml_sm/src/transitions/:
-- when a transition answers to an event. A property of an object is `none` until it is set.
pub mod Search
use packml_ros.Base.{
  ℕ, zero, suc, Bool, true, false, Option, none, some, List, [], ◌∷◌, ◌==◌, if◌then◌else◌, eq_int,
  get_elem?, length,
}
use packml_ros.Common.{TransitionCmd, cmd_val}
use packml_ros.Events.{
  Payload, QEvent, cmd_event, state_complete_event, error_event, event_type, packml_cmd_event_type,
  packml_state_complete_event_type, packml_error_event_type,
}
use packml_ros.Store.{Transition, Store, on_command, on_state_complete, on_error}
use packml_ros.Qt.{QtEngine, EventTest}

-- `property("Available")` of an object.
abbrev pub Available : Type 0
Available = ℕ → Option Bool

-- `e->accept()`, `e->ignore()`
abbrev accept : QEvent → QEvent
accept e = record e { accepted = true }

abbrev ignore : QEvent → QEvent
ignore e = record e { accepted = false }

-- two enumerators are equal when their values are
abbrev pub cmd_eq : TransitionCmd → TransitionCmd → Bool
unfolding cmd_val
cmd_eq c d = eq_int (cmd_val c) (cmd_val d)

-- `static_cast<CmdEvent *>(e)->cmd == cmd`, for an event of that type
cmd_matches : TransitionCmd → Payload → Bool
unfolding cmd_val
cmd_matches c (cmd_event d) = cmd_eq c d
cmd_matches c state_complete_event = false
cmd_matches c (error_event code) = false

module _ (qt : QtEngine) (available : Available) where
  -- `property("Available").toBool()` of the target; a transition without a target is not taken
  to_bool : Option Bool → Bool
  to_bool none = qt.unset_to_bool
  to_bool (some b) = b

  is_available : Option ℕ → Bool
  unfolding to_bool
  is_available none = false
  is_available (some p) = to_bool (available p)

  -- `PackmlTransition::eventTest`
  unfoldable pub packml_event_test : Option ℕ → QEvent → Bool × QEvent
  unfolding is_available
  packml_event_test target e = if is_available target then (true, e) else (false, ignore e)

  -- the rest of `CmdTransition::eventTest`, after the base class has answered
  cmd_answer : TransitionCmd → Bool × QEvent → Bool × QEvent
  unfolding cmd_matches
  cmd_answer cmd (false, e) = (false, e)
  cmd_answer cmd (true, e) =
      if cmd_matches cmd e.payload then (true, accept e) else (false, ignore e)

  -- `CmdTransition::eventTest`
  unfoldable pub cmd_event_test : TransitionCmd → Option ℕ → QEvent → Bool × QEvent
  unfolding packml_event_test cmd_answer
  cmd_event_test cmd target e =
      if event_type e.payload == packml_cmd_event_type
      then cmd_answer cmd (packml_event_test target e)
      else (false, e)

  -- `StateCompleteTransition::eventTest`
  unfoldable pub state_complete_event_test : Option ℕ → QEvent → Bool × QEvent
  unfolding packml_event_test
  state_complete_event_test target e =
      if event_type e.payload == packml_state_complete_event_type
      then packml_event_test target e
      else (false, e)

  -- `ErrorTransition::eventTest`
  unfoldable pub error_event_test : Option ℕ → QEvent → Bool × QEvent
  unfolding packml_event_test
  error_event_test target e =
      if event_type e.payload == packml_error_event_type
      then packml_event_test target e
      else (false, e)

  -- the virtual call
  unfoldable pub event_test : EventTest
  unfolding cmd_event_test state_complete_event_test error_event_test
  event_test t e = elim t.trigger [
    | on_command cmd name ↦ cmd_event_test cmd t.target e
    | on_state_complete ↦ state_complete_event_test t.target e
    | on_error ↦ error_event_test t.target e
  ]

-- The transitions at the addresses of a list.
unfoldable arrows_at : Store → List ℕ → List Transition
arrows_at s [] = []
arrows_at s (t ∷ ts) = elim (get_elem? s.arrows t) [
  | none ↦ arrows_at s ts
  | some a ↦ a ∷ arrows_at s ts
]

-- The transitions of a state and of its ancestors, innermost first. An object is built after its
-- parent, so as many rounds as there are objects are enough.
unfoldable climb : ℕ → Store → Option ℕ → List (List Transition)
unfolding arrows_at
climb zero s p = []
climb (suc fuel) s none = []
climb (suc fuel) s (some p) = elim (get_elem? s.objects p) [
  | none ↦ []
  | some o ↦ arrows_at s o.transitions ∷ climb fuel s o.parent
]

unfoldable pub candidates : Store → ℕ → List (List Transition)
unfolding climb
candidates s p = climb (length s.objects) s (some p)
