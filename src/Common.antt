-- ===== src/Common.antt =====
-- packml_sm/include/packml_sm/common.hpp: the enumerations and their texts. An enumeration has
-- `int` beneath it and takes any `int` by a cast: `unnamed` holds a value that is no enumerator.
pub mod Names
pub mod Casts
pub mod Fits
use packml_ros.Base.{
  ℕ, ℤ, pos, negsuc, Bool, true, false, String, Option, none, some, List, [], ◌∷◌, get_elem?, ltb,
  if◌then◌else◌, int_to_string,
}

pub data SuperState : Type 0 where
  abortable stoppable : SuperState

unfoldable pub super_to_string : SuperState → String
super_to_string abortable = "ABORTABLE"
super_to_string stoppable = "STOPPABLE"

pub data State : Type 0 where
  undefined clearing stopped starting idle suspended execute stopping aborting aborted holding held
        unholding suspending unsuspending resetting completing complete :
      State
  unnamed : ℤ → State

-- `static_cast<int>(state)`
unfoldable pub state_val : State → ℤ
state_val undefined = pos 0
state_val clearing = pos 1
state_val stopped = pos 2
state_val starting = pos 3
state_val idle = pos 4
state_val suspended = pos 5
state_val execute = pos 6
state_val stopping = pos 7
state_val aborting = pos 8
state_val aborted = pos 9
state_val holding = pos 10
state_val held = pos 11
state_val unholding = pos 12
state_val suspending = pos 13
state_val unsuspending = pos 14
state_val resetting = pos 15
state_val completing = pos 16
state_val complete = pos 17
state_val (unnamed z) = z

abbrev pub states : List State
states =
    undefined ∷ clearing ∷ stopped ∷ starting ∷ idle ∷ suspended ∷ execute ∷ stopping ∷ aborting
    ∷ aborted ∷ holding ∷ held ∷ unholding ∷ suspending ∷ unsuspending ∷ resetting ∷ completing
    ∷ complete ∷ []

-- `static_cast<State>(val)`
unfoldable pub state_of_val : ℤ → State
state_of_val (pos n) = elim (get_elem? states n) [ some s ↦ s | none ↦ unnamed (pos n) ]
state_of_val (negsuc n) = unnamed (negsuc n)

unfoldable pub state_to_string : State → String
state_to_string undefined = "UNDEFINED"
state_to_string clearing = "CLEARING"
state_to_string stopped = "STOPPED"
state_to_string starting = "STARTING"
state_to_string idle = "IDLE"
state_to_string suspended = "SUSPENDED"
state_to_string execute = "EXECUTE"
state_to_string stopping = "STOPPING"
state_to_string aborting = "ABORTING"
state_to_string aborted = "ABORTED"
state_to_string holding = "HOLDING"
state_to_string held = "HELD"
state_to_string unholding = "UNHOLDING"
state_to_string suspending = "SUSPENDING"
state_to_string unsuspending = "UNSUSPENDING"
state_to_string resetting = "RESETTING"
state_to_string completing = "COMPLETING"
state_to_string complete = "COMPLETE"
state_to_string (unnamed z) = int_to_string z

pub data ModeType : Type 0 where
  undefined production maintenance manual : ModeType
  unnamed : ℤ → ModeType

unfoldable pub mode_val : ModeType → ℤ
mode_val undefined = pos 0
mode_val production = pos 1
mode_val maintenance = pos 2
mode_val manual = pos 3
mode_val (unnamed z) = z

abbrev pub modes : List ModeType
modes = undefined ∷ production ∷ maintenance ∷ manual ∷ []

unfoldable pub mode_of_val : ℤ → ModeType
mode_of_val (pos n) = elim (get_elem? modes n) [ some m ↦ m | none ↦ unnamed (pos n) ]
mode_of_val (negsuc n) = unnamed (negsuc n)

-- the values above `MANUAL` are the user's modes
unfoldable pub mode_to_string : ModeType → String
mode_to_string undefined = "UNDEFINED"
mode_to_string production = "PRODUCTION"
mode_to_string maintenance = "MAINTENANCE"
mode_to_string manual = "MANUAL"
mode_to_string (unnamed (pos n)) = if ltb 3 n then "USER_DEFINED" else int_to_string (pos n)
mode_to_string (unnamed (negsuc n)) = int_to_string (negsuc n)

pub data TransitionCmd : Type 0 where
  no_command reset start stop hold unhold suspend unsuspend abort clear : TransitionCmd
  unnamed : ℤ → TransitionCmd

unfoldable pub cmd_val : TransitionCmd → ℤ
cmd_val no_command = pos 0
cmd_val reset = pos 1
cmd_val start = pos 2
cmd_val stop = pos 3
cmd_val hold = pos 4
cmd_val unhold = pos 5
cmd_val suspend = pos 6
cmd_val unsuspend = pos 7
cmd_val abort = pos 8
cmd_val clear = pos 9
cmd_val (unnamed z) = z

unfoldable pub cmd_to_string : TransitionCmd → String
cmd_to_string no_command = "NO_COMMAND"
cmd_to_string reset = "RESET"
cmd_to_string start = "START"
cmd_to_string stop = "STOP"
cmd_to_string hold = "HOLD"
cmd_to_string unhold = "UNHOLD"
cmd_to_string suspend = "SUSPEND"
cmd_to_string unsuspend = "UNSUSPEND"
cmd_to_string abort = "ABORT"
cmd_to_string clear = "CLEAR"
cmd_to_string (unnamed z) = int_to_string z
