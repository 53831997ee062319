-- ===== src/Tests.antt =====
-- The machines that the examples of Tests/ run on.
mod Machine
mod Modes
mod Nested
mod Sync
mod Ros
mod Panel
mod Clients
mod Outcomes
mod Whole
mod Starts
mod Named
mod Race
mod Jobs
use packml_ros.Base.{◌≡◌, refl, Bool, true, false, some, none, List, [], ◌∷◌, ℕ, ℤ, pos}
use packml_ros.Common.{State, ModeType, state_to_string}
use packml_ros.StateMachine.{StateMachine}
use packml_ros.Diagram.{Cycle, is_leaf, address}
use packml_ros.Diagram.Built.{fresh, works}
use packml_ros.Diagram.Invariant.{IsConsistent}
use packml_ros.Diagram.Commands.{IsBuilt, started}
use packml_ros.Diagram.Modes.{switched}
use packml_ros.Diagram.Behaviour.{IsQuiet}

-- A machine of either kind before it is started.
abbrev pub new_machine : Cycle → StateMachine
new_machine cy = fresh cy State.undefined

pub new_machine-IsBuilt : (cy : Cycle) → IsBuilt cy (new_machine cy)
new_machine-IsBuilt cy = record { built_store = refl; initial_object = refl }

-- A running machine in a state and a mode.
abbrev pub running_in : Cycle → ModeType → State → StateMachine
running_in cy mode s =
    let m = switched mode (fresh cy s) in
    record m {
      state_name = state_to_string s;
      running = true;
      active = some (address s);
      working = works s;
    }

-- The same without a mode.
abbrev pub unconfigured : Cycle → State → StateMachine
unconfigured cy s = record (fresh cy s) {
  state_name = state_to_string s;
  running = true;
  active = some (address s);
  working = works s;
}

pub running_in-IsConsistent :
    (cy : Cycle) (mode : ModeType) (s : State)
    → is_leaf s ≡ true
    → IsConsistent cy (running_in cy mode s)
unfolding switched
running_in-IsConsistent cy mode s h = record {
  leaf = h;
  built_store = refl;
  active_object = refl;
  initial_object = refl;
  shown_name = refl;
  worker = λ w. w;
  posted = tt;
}

pub unconfigured-IsConsistent :
    (cy : Cycle) (s : State) → is_leaf s ≡ true → IsConsistent cy (unconfigured cy s)
unconfigured-IsConsistent cy s h = record {
  leaf = h;
  built_store = refl;
  active_object = refl;
  initial_object = refl;
  shown_name = refl;
  worker = λ w. w;
  posted = tt;
}

pub running_in-IsQuiet :
    (cy : Cycle) (mode : ModeType) (s : State)
    → is_leaf s ≡ true
    → let m = running_in cy mode s in IsQuiet cy s m.properties m.functions m
unfolding switched
running_in-IsQuiet cy mode s h = record {
  consistent = running_in-IsConsistent cy mode s h;
  runs = refl;
  nothing_queued = refl;
  in_state = refl;
  threads = refl;
  properties_are = refl;
  functions_are = refl;
}
