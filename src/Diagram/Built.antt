-- ===== src/Diagram/Built.antt =====
-- The store that the constructors and `init` build against the diagram: the transitions of each
-- state and of its super states, in the order in which they are tried.
use packml_ros.Base.{
  String, get_elem?, ◌≡◌, refl, Bool, true, false, Option, none, some, List, [], ◌∷◌, arith, pos,
}
use packml_ros.Common.{State, TransitionCmd, cmd_to_string, state_to_string}
use packml_ros.Store.{
  PackmlState, Store, Transition, on_command, on_state_complete, on_error, empty, find_state,
}
use packml_ros.Transitions.{candidates}
use packml_ros.StateMachine.{StateMachine, single_cycle_sm, continuous_cycle_sm}
use packml_ros.StateMachine.Run.{is_acting, is_connected}
use packml_ros.Diagram.{Cycle, single, continuous, is_leaf, address, is_abortable, is_stoppable}

abbrev store_in : Option StateMachine → Store
store_in none = empty
store_in (some m) = m.store

-- The store of a machine of either cycle.
unfoldable pub store_of : Cycle → Store
unfolding single_cycle_sm continuous_cycle_sm
store_of single = store_in (single_cycle_sm State.undefined)
store_of continuous = store_in (continuous_cycle_sm State.undefined)

abbrev pub built : Cycle → State → Option StateMachine
built single garbage = single_cycle_sm garbage
built continuous garbage = continuous_cycle_sm garbage

-- A machine as it leaves its factory.
abbrev pub fresh : Cycle → State → StateMachine
fresh cy garbage = record {
  store = store_of cy;
  members = record { abortable_ = 0; aborted_ = 7; aborting_ = 17; resetting_ = 12; execute_ = 18 };
  functions = (29, pos 0) ∷ [];
  properties = [];
  current_mode = record { name = ""; available_states = [] };
  state_value = garbage;
  state_name = "";
  calls = [];
  top_level = 0 ∷ 7 ∷ 17 ∷ 19 ∷ 22 ∷ 21 ∷ [];
  initial = some 22;
  running = false;
  active = none;
  working = false;
  queue = [];
  prom = none;
  thrown = false;
}

-- Both factories succeed without dereferencing a null pointer, whatever the memory held, and leave
-- the machine that `fresh` describes: its initial state is ABORTED, no mode is set, and it does not
-- run.
pub built-fresh : (cy : Cycle) (garbage : State) → built cy garbage ≡ some (fresh cy garbage)
unfolding single_cycle_sm continuous_cycle_sm store_of
built-fresh single garbage = refl
built-fresh continuous garbage = refl

-- Transitions of the diagram.
abbrev pub on_cmd : TransitionCmd → State → Transition
on_cmd c to = record { trigger = on_command c (cmd_to_string c); target = some (address to) }

abbrev pub on_done : State → Transition
on_done to = record { trigger = on_state_complete; target = some (address to) }

abbrev pub on_failure : Transition
on_failure = record { trigger = on_error; target = some (address State.aborting) }

abbrev own : Cycle → State → List Transition
own cy State.aborting = on_done State.aborted ∷ []
own cy State.aborted = on_cmd TransitionCmd.clear State.clearing ∷ []
own cy State.clearing = on_done State.stopped ∷ []
own cy State.stopping = on_done State.stopped ∷ []
own cy State.stopped = on_cmd TransitionCmd.reset State.resetting ∷ []
own cy State.resetting = on_done State.idle ∷ []
own cy State.idle = on_cmd TransitionCmd.start State.starting ∷ []
own cy State.starting = on_done State.execute ∷ []
own single State.execute =
    on_cmd TransitionCmd.hold State.holding
    ∷ on_cmd TransitionCmd.suspend State.suspending
    ∷ on_done State.completing
    ∷ []
own continuous State.execute =
    on_cmd TransitionCmd.hold State.holding
    ∷ on_cmd TransitionCmd.suspend State.suspending
    ∷ on_done State.execute
    ∷ []
own cy State.holding = on_done State.held ∷ []
own cy State.held = on_cmd TransitionCmd.unhold State.unholding ∷ []
own cy State.unholding = on_done State.execute ∷ []
own cy State.suspending = on_done State.suspended ∷ []
own cy State.suspended = on_cmd TransitionCmd.unsuspend State.unsuspending ∷ []
own cy State.unsuspending = on_done State.execute ∷ []
own cy State.completing = on_done State.complete ∷ []
own cy State.complete = on_cmd TransitionCmd.reset State.resetting ∷ []
own cy _ = []

abbrev around : Bool → Bool → List (List Transition)
around abortable true =
    (on_cmd TransitionCmd.stop State.stopping ∷ [])
    ∷ (on_cmd TransitionCmd.abort State.aborting ∷ on_failure ∷ [])
    ∷ []
around true false = (on_cmd TransitionCmd.abort State.aborting ∷ on_failure ∷ []) ∷ []
around false false = []

abbrev pub rows : Cycle → State → List (List Transition)
rows cy s = own cy s ∷ around (is_abortable s) (is_stoppable s)

-- In the store that the construction leaves for either cycle, looking a state of the diagram up by
-- its text finds the object of that state.
pub find_state-address :
    (cy : Cycle) (s : State)
    → is_leaf s ≡ true
    → find_state (state_to_string s) (store_of cy) ≡ some (address s)
unfolding store_of find_state state_to_string
find_state-address single State.clearing h = refl
find_state-address single s h = ground arith
find_state-address continuous State.clearing h = refl
find_state-address continuous s h = ground arith

-- For either cycle and every state of the diagram, the transitions that Qt tries for that state in
-- the store that the construction leaves, innermost first, are those of the independently written
-- diagram.
pub candidates-rows :
    (cy : Cycle) (s : State) → is_leaf s ≡ true → candidates (store_of cy) (address s) ≡ rows cy s
unfolding store_of candidates cmd_to_string
candidates-rows single State.clearing h = refl
candidates-rows single s h = ground arith
candidates-rows continuous State.clearing h = refl
candidates-rows continuous s h = ground arith

-- The states whose entry starts a thread.
abbrev pub works : State → Bool
works State.idle = false
works State.held = false
works State.complete = false
works State.suspended = false
works State.stopped = false
works State.aborted = false
works s = is_leaf s

-- What entering a state's object reads of it.
pub record Glance : Type 0 where
  pub state : State
  pub name : String
  pub starts : Bool

abbrev pub look : Option PackmlState → Option Glance
look none = none
look (some o) = some (record { state = o.state; name = o.name; starts = is_acting o.kind })

abbrev pub glance_of : State → Glance
glance_of s = record { state = s; name = state_to_string s; starts = works s }

pub look-object :
    (cy : Cycle) (s : State)
    → is_leaf s ≡ true
    → look (get_elem? (store_of cy).objects (address s)) ≡ some (glance_of s)
unfolding store_of state_to_string
look-object single State.clearing h = refl
look-object single s h = ground arith
look-object continuous State.clearing h = refl
look-object continuous s h = ground arith

pub is_connected-address :
    (cy : Cycle) (s : State)
    → is_leaf s ≡ true
    → is_connected (address s) (store_of cy).connections ≡ true
unfolding store_of
is_connected-address single State.clearing h = refl
is_connected-address single s h = ground arith
is_connected-address continuous State.clearing h = refl
is_connected-address continuous s h = ground arith
