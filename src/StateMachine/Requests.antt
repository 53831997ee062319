-- ===== src/StateMachine/Requests.antt =====
-- What a client of the machine calls: activation, commands and modes.
use packml_ros.Base.{
  ℕ, ℤ, Bool, true, false, String, ◌<>◌, Option, none, some, List, [], ◌∷◌, ◌++◌, length, assoc_set,
  ◌||◌, eq_int, if◌then◌else◌,
}
use packml_ros.Common.{
  State, ModeType, TransitionCmd, state_val, state_to_string, mode_to_string, cmd_to_string,
  maintenance,
}
use packml_ros.Events.{Payload, cmd_event}
use packml_ros.Store.{find_state}
use packml_ros.Qt.{QtEngine}
use packml_ros.StateMachine.{StateMachine, Mode, on_mode_changed, set_operation_method}
use packml_ros.StateMachine.Run.{on_entry, rounds}
use text.Mathlib.Text.{◌==◌ as str_eq}

-- `std::expected<bool, std::string>`
pub data Expected : Type 0 where
  value : Bool → Expected
  unexpected : String → Expected

-- `sm_internal_.start()` together with what it queues for Qt's thread, before anything else happens:
-- the initial state is entered
unfoldable pub enter_initial : Option ℕ → StateMachine → StateMachine
unfolding on_entry
enter_initial none m = m
enter_initial (some p) m =
    on_entry p (record m { running = true; active = some p; working = false; queue = [] })

unfoldable start_internal : StateMachine → StateMachine
unfolding enter_initial
start_internal m = if m.running then m else enter_initial m.initial m

-- `activate`; there may be no Qt application, `QCoreApplication::instance() == NULL`
unfoldable pub activate : Bool → StateMachine → Bool × StateMachine
unfolding start_internal
activate false m = (false, m)
activate true m = (true, start_internal m)

unfoldable pub deactivate : StateMachine → Bool × StateMachine
deactivate m = (true, record m { running = false })

abbrev is_active : StateMachine → Bool
is_active m = m.running

abbrev pub get_current_state : StateMachine → State
get_current_state m = m.state_value

unfoldable pub set_execute : ℤ → StateMachine → Bool × StateMachine
set_execute execute_method m = (true, set_operation_method m.members.execute_ execute_method m)

unfoldable pub set_resetting : ℤ → StateMachine → Bool × StateMachine
set_resetting resetting_method m =
    (true, set_operation_method m.members.resetting_ resetting_method m)

-- `postEvent`: a machine that does not run drops the event
unfoldable pub post_event : Payload → StateMachine → StateMachine
post_event e m = if m.running then record m { queue = m.queue ++ e ∷ [] } else m

abbrev pub answered : Option Bool → StateMachine → Option (Bool × StateMachine)
answered none m = none
answered (some b) m = some (b, m)

-- the event loop of Qt's thread: a machine that runs handles what is queued
unfoldable pub event_loop : QtEngine → StateMachine → StateMachine
unfolding rounds
event_loop qt m = if m.running then rounds qt (length m.queue) m else m

-- `get_future().get()`: the first value of the promise, once what is queued is handled. `none` is a
-- wait without end: all is handled, and the promise has no value.
unfoldable pub await : QtEngine → StateMachine → Option (Bool × StateMachine)
unfolding event_loop
await qt m = let done = event_loop qt m in answered done.prom done

-- `_start` and the others: a fresh promise, the event posted, and the wait.
unfoldable pub request : QtEngine → TransitionCmd → StateMachine → Option (Bool × StateMachine)
unfolding post_event await
request qt command m = await qt (post_event (cmd_event command) (record m { prom = none }))

-- what `changeState` makes of the answer
unfoldable pub change_answer :
    TransitionCmd → Option (Bool × StateMachine) → Option (Expected × StateMachine)
change_answer cmd none = none
change_answer cmd (some (true, m)) = some (value true, m)
change_answer cmd (some (false, m)) =
    some (unexpected ("Transition command failed: " <> cmd_to_string cmd), m)

abbrev pub is_command : TransitionCmd → Bool
is_command TransitionCmd.no_command = false
is_command (TransitionCmd.unnamed z) = false
is_command _ = true

unfoldable pub change_state :
    QtEngine → TransitionCmd → StateMachine → Option (Expected × StateMachine)
unfolding request change_answer
change_state qt command m =
    if is_command command
    then change_answer command (request qt command m)
    else some (unexpected ("Invalid transition request command: " <> cmd_to_string command), m)

-- the states of a mode, COMPLETING apart
mode_states : Bool → List (State × Bool)
mode_states completing =
    (State.aborting, true)
    ∷ (State.aborted, true)
    ∷ (State.clearing, true)
    ∷ (State.stopping, true)
    ∷ (State.stopped, true)
    ∷ (State.resetting, true)
    ∷ (State.idle, true)
    ∷ (State.starting, true)
    ∷ (State.execute, true)
    ∷ (State.holding, true)
    ∷ (State.held, true)
    ∷ (State.unholding, true)
    ∷ (State.suspending, true)
    ∷ (State.suspended, true)
    ∷ (State.unsuspending, true)
    ∷ (State.completing, completing)
    ∷ (State.complete, true)
    ∷ []

-- MAINTENANCE has no COMPLETING
unfoldable pub available_states : ModeType → List (State × Bool)
unfolding mode_states
available_states maintenance = mode_states false
available_states _ = mode_states true

-- the loop of `mode_switcher` over the states of the mode; `none` is a state without an object
unfoldable pub set_available : List (State × Bool) → StateMachine → Option StateMachine
unfolding find_state state_to_string
set_available [] m = some m
set_available ((s, b) ∷ rest) m = elim (find_state (state_to_string s) m.store) [
  | none ↦ none
  | some p ↦ set_available rest (record m { properties = assoc_set m.properties p b })
]

abbrev pub state_eq : State → State → Bool
unfolding state_val
state_eq s t = eq_int (state_val s) (state_val t)

-- `switch_states.find(state) != switch_states.end()`
abbrev contains : State → List State → Bool
contains s [] = false
contains s (t ∷ ts) = state_eq t s || contains s ts

abbrev switch_states : List State
switch_states = State.idle ∷ []

-- the condition of `StatesGenerator::mode_switcher`
unfoldable pub may_switch : StateMachine → Bool
unfolding state_val
may_switch m = contains (get_current_state m) switch_states || str_eq m.current_mode.name ""

mark_states : Mode → Option StateMachine → Option (Expected × StateMachine)
mark_states mode none = none
mark_states mode (some m) = some (value true, record m { current_mode = mode })

-- `StatesGenerator::mode_switcher`
unfoldable mode_switcher : Mode → StateMachine → Option (Expected × StateMachine)
unfolding may_switch mark_states set_available
mode_switcher mode m =
    if may_switch m
    then mark_states mode (set_available mode.available_states m)
    else some
        (unexpected ("Cannot switch mode in state: " <> state_to_string (get_current_state m)), m)

change_mode_answer : ModeType → Expected × StateMachine → Expected × StateMachine
change_mode_answer mode (value b, m) =
    (value b, record m { calls = m.calls ++ on_mode_changed mode ∷ [] })
change_mode_answer mode (unexpected msg, m) = (unexpected msg, m)

-- `StateMachine::changeMode`
unfoldable pub change_mode : ModeType → StateMachine → Option (Expected × StateMachine)
unfolding mode_switcher change_mode_answer available_states mode_to_string
change_mode mode m =
    elim (mode_switcher
      (record { name = mode_to_string mode; available_states = available_states mode }) m) [
        | none ↦ none
        | some r ↦ some (change_mode_answer mode r)
      ]
