-- ===== src/StateMachine/Run.antt =====
-- The running machine: packml_sm/src/states/, `setState`, `PackmlStateMachine` and the event loop
-- that Qt drives them by. One event is handled at a time, in the order of posting.
use packml_ros.Base.{
  ℕ, zero, suc, ℤ, pos, Bool, true, false, String, Option, none, some, List, [], ◌∷◌, ◌++◌,
  get_elem?, assoc_get, ◌==◌, ◌||◌, eq_int, if◌then◌else◌,
}
use packml_ros.Common.{State}
use packml_ros.Events.{
  Payload, QEvent, state_complete_event, error_event, event_type, packml_cmd_event_type,
}
use packml_ros.Store.{PackmlState, Kind, Transition, acting, wait, super_state}
use packml_ros.Qt.{QtEngine}
use packml_ros.Transitions.{Available, event_test, candidates}
use packml_ros.StateMachine.{StateMachine, on_state_changed}

-- `StateMachine::setState`
unfoldable set_state : State → String → StateMachine → StateMachine
set_state value name m = record m {
  state_value = value;
  state_name = name;
  calls = m.calls ++ on_state_changed value name ∷ [];
}

abbrev pub is_connected : ℕ → List ℕ → Bool
is_connected p [] = false
is_connected p (q ∷ qs) = q == p || is_connected p qs

abbrev pub is_acting : Kind → Bool
is_acting (acting delay_ms) = true
is_acting (wait exit_cmd) = false
is_acting (super_state transition) = false

-- `ActingState::operation`: what is posted when the thread is done
unfoldable pub operation_event : Option ℤ → Payload
operation_event none = state_complete_event
operation_event (some error_code) =
    if eq_int (pos 0) error_code then state_complete_event else error_event error_code

-- the thread of state `p` ends: its event is posted
unfoldable pub finish_operation : ℕ → StateMachine → StateMachine
unfolding operation_event
finish_operation p m = record m {
  working = false;
  queue = m.queue ++ operation_event (assoc_get m.functions p) ∷ [];
}

-- `PackmlState::onEntry`: whoever is connected hears of it
announce : ℕ → PackmlState → StateMachine → StateMachine
unfolding set_state
announce p o m = if is_connected p m.store.connections then set_state o.state o.name m else m

-- `onEntry` of a state: an acting state also starts its thread
unfoldable pub on_entry : ℕ → StateMachine → StateMachine
unfolding announce
on_entry p m = elim (get_elem? m.store.objects p) [
  | none ↦ m
  | some o ↦ let n = announce p o m in if is_acting o.kind then record n { working = true } else n
]

-- `onExit` of a state: an acting state waits for its thread
unfoldable pub on_exit : ℕ → StateMachine → StateMachine
unfolding finish_operation
on_exit p m = if m.working then finish_operation p m else m

-- `prom.set_value`: a promise keeps its first value, and a second one throws. The exception ends the
-- program; the machine is marked, and whatever it does then is more than the program does.
abbrev pub first_value : Option Bool → Bool → Option Bool
first_value none b = some b
first_value (some a) b = some a

abbrev pub set_twice : Option Bool → Bool → Bool
set_twice none thrown = thrown
set_twice (some a) thrown = true

abbrev pub set_value : Bool → StateMachine → StateMachine
set_value b m = record m { prom = first_value m.prom b; thrown = set_twice m.prom m.thrown }

-- `PackmlStateMachine::endSelectTransitions`: a command event answers the promise
unfoldable pub end_select_transitions : QEvent → StateMachine → StateMachine
end_select_transitions e m =
    if event_type e.payload == packml_cmd_event_type then set_value e.accepted m else m

-- `property("Available")`
abbrev pub available : StateMachine → Available
available m = assoc_get m.properties

-- A transition that is taken leaves the active state and enters its target.
unfoldable pub take_transition : ℕ → Option Transition → StateMachine → StateMachine
unfolding on_entry on_exit
take_transition p none m = m
take_transition p (some t) m = elim t.target [
  | none ↦ m
  | some q ↦ on_entry q (record (on_exit p m) { active = some q })
]

unfoldable pub settle : ℕ → Option Transition × QEvent → StateMachine → StateMachine
unfolding take_transition end_select_transitions
settle p (t, e) m = take_transition p t (end_select_transitions e m)

module _ (qt : QtEngine) where
  -- an event meets the active state, if the machine has one
  unfoldable pub respond : Option ℕ → Payload → StateMachine → StateMachine
  respond none payload m = m
  respond (some p) payload m =
      settle p
        (qt.select (candidates m.store p) (event_test qt (available m))
          (record { payload = payload; accepted = qt.born_accepted }))
        m

  -- one event of the queue
  unfoldable pub dispatch : Payload → StateMachine → StateMachine
  unfolding respond settle candidates event_test
  dispatch payload m = respond m.active payload m

  -- the head of the queue is taken off and handled
  unfoldable pub take_event : List Payload → StateMachine → StateMachine
  take_event [] m = m
  take_event (e ∷ es) m = dispatch e (record m { queue = es })

  unfoldable pub next_event : StateMachine → StateMachine
  unfolding take_event
  next_event m = take_event m.queue m

  unfoldable pub rounds : ℕ → StateMachine → StateMachine
  rounds zero m = m
  rounds (suc n) m = rounds n (next_event m)
