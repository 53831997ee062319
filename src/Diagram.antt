-- ===== src/Diagram.antt =====
-- The PackML state diagram, as a reading of the standard that is independent of the code: which
-- command is heeded where, where a completed state leads, and how an event is answered.
pub mod Built
pub mod Answers
pub mod Moves
pub mod Invariant
pub mod Nested
pub mod Commands
pub mod Modes
pub mod Runs
pub mod Tracked
pub mod Grown
pub mod Behaviour
pub mod Interrupts
pub mod Work
pub mod Verdicts
pub mod Cycles
use packml_ros.Base.{
  ℕ, Bool, true, false, not, ◌&&◌, ◌||◌, Option, none, some, List, [], ◌∷◌, if◌then◌else◌,
}
use packml_ros.Common.{State, TransitionCmd, cmd_to_string}
use packml_ros.Events.{Payload, QEvent, cmd_event, state_complete_event, error_event}
use packml_ros.Store.{Transition, on_command, on_state_complete, on_error}
use packml_ros.Transitions.{Available}
use packml_ros.Transitions.Search.{is_set}

-- `SingleCycle` completes after EXECUTE, `ContinuousCycle` executes again.
pub data Cycle : Type 0 where
  single continuous : Cycle

-- A state of the diagram: every enumerator but UNDEFINED.
abbrev pub is_leaf : State → Bool
is_leaf State.undefined = false
is_leaf (State.unnamed z) = false
is_leaf _ = true

-- Where the object of a state lies in the store of a machine that was built.
abbrev pub address : State → ℕ
address State.undefined = 19
address (State.unnamed z) = 20
address State.aborting = 21
address State.aborted = 22
address State.clearing = 23
address State.stopping = 24
address State.stopped = 25
address State.resetting = 26
address State.idle = 27
address State.starting = 28
address State.execute = 29
address State.holding = 30
address State.held = 31
address State.unholding = 32
address State.suspending = 33
address State.suspended = 34
address State.unsuspending = 35
address State.completing = 36
address State.complete = 37

-- The super states: all but ABORTED and ABORTING may be aborted, and of those all but CLEARING,
-- STOPPING and STOPPED may be stopped.
abbrev pub is_abortable : State → Bool
is_abortable State.aborting = false
is_abortable State.aborted = false
is_abortable s = is_leaf s

abbrev pub is_stoppable : State → Bool
is_stoppable State.clearing = false
is_stoppable State.stopping = false
is_stoppable State.stopped = false
is_stoppable s = is_abortable s

-- The state that a command asks for, where the diagram heeds it.
abbrev pub commanded : TransitionCmd → State → Option State
commanded TransitionCmd.abort s = if is_abortable s then some State.aborting else none
commanded TransitionCmd.stop s = if is_stoppable s then some State.stopping else none
commanded TransitionCmd.clear State.aborted = some State.clearing
commanded TransitionCmd.reset State.stopped = some State.resetting
commanded TransitionCmd.reset State.complete = some State.resetting
commanded TransitionCmd.start State.idle = some State.starting
commanded TransitionCmd.hold State.execute = some State.holding
commanded TransitionCmd.unhold State.held = some State.unholding
commanded TransitionCmd.suspend State.execute = some State.suspending
commanded TransitionCmd.unsuspend State.suspended = some State.unsuspending
commanded _ s = none

-- Where a state leads when its work is done.
abbrev pub completed : Cycle → State → Option State
completed cy State.aborting = some State.aborted
completed cy State.clearing = some State.stopped
completed cy State.stopping = some State.stopped
completed cy State.resetting = some State.idle
completed cy State.starting = some State.execute
completed cy State.holding = some State.held
completed cy State.unholding = some State.execute
completed cy State.suspending = some State.suspended
completed cy State.unsuspending = some State.execute
completed cy State.completing = some State.complete
completed single State.execute = some State.completing
completed continuous State.execute = some State.execute
completed cy s = none

-- An error aborts.
abbrev pub failed : State → Option State
failed s = if is_abortable s then some State.aborting else none

abbrev pub wanted : Cycle → Payload → State → Option State
wanted cy (cmd_event c) s = commanded c s
wanted cy state_complete_event s = completed cy s
wanted cy (error_event code) s = failed s

-- A state is entered only if the mode has it; a property that was never set counts as no.
abbrev pub permitted : Available → Option State → Option State
permitted av none = none
permitted av (some t) = if is_set (av (address t)) then some t else none

-- The next state of the diagram, if there is one.
abbrev pub next : Cycle → Available → Payload → State → Option State
next cy av e s = permitted av (wanted cy e s)
