-- ===== src/StateMachine.antt =====
-- packml_sm/include/packml_sm/state_machine.hpp and src/state_machine.cpp, with the parts of
-- src/states/ that run when a state is entered or left and `StatesGenerator::mode_switcher`.
pub mod Run
pub mod Nested
pub mod Requests
pub mod Methods
pub mod Times
use packml_ros.Base.{
  ℕ, ℤ, pos, Bool, false, String, Option, none, some, List, [], ◌∷◌, ◌++◌, assoc_set,
}
use packml_ros.Common.{State, SuperState, ModeType, state_to_string, super_to_string}
use packml_ros.Events.{Payload}
use packml_ros.Store.{Store, Build, empty, state_named}
use packml_ros.Generator.{generate_all_packml_states}
use packml_ros.Construct.{Members, construct, redirect_execute}

-- `StatesGenerator::Mode`
pub record Mode : Type 0 where
  pub name : String
  pub available_states : List (State × Bool)

-- A call of one of the two callbacks.
pub data Callback : Type 0 where
  on_state_changed : State → String → Callback
  on_mode_changed : ModeType → Callback

-- `StateMachine`, its generator and its `sm_internal_`. The properties and the operations of the
-- state objects are kept by address: a `std::function<int()>` by the code that it returns.
pub record StateMachine : Type 0 where
  pub store : Store
  pub members : Members
  pub functions : List (ℕ × ℤ)
  pub properties : List (ℕ × Bool)
  pub current_mode : Mode
  pub state_value : State
  pub state_name : String
  pub calls : List Callback
  pub top_level : List ℕ  -- `addState`
  pub initial : Option ℕ  -- `setInitialState`
  pub running : Bool
  pub active : Option ℕ  -- the active leaf of the hierarchy
  pub working : Bool  -- the thread of the active acting state runs
  pub queue : List Payload  -- `postEvent`
  pub prom : Option Bool  -- the promise that `_start` and the others wait for
  pub thrown : Bool  -- `promise_already_satisfied` left the event loop

abbrev M : Type 0 → Type 0
M A = StateMachine → Option (A × StateMachine)

infixl 5 ◌>>=◌ ◌>>◌
abbrev ◌>>=◌ : {A B : Type 0} → M A → (A → M B) → M B
◌>>=◌ m f s = elim (m s) [ none ↦ none | some (a, t) ↦ f a t ]

abbrev ◌>>◌ : {B : Type 0} → M (Unit {0}) → M B → M B
m >> k = m >>= λ _. k

abbrev lift : {A : Type 0} → Build A → M A
lift b m = elim (b m.store) [ none ↦ none | some (a, s) ↦ some (a, record m { store = s }) ]

abbrev modify_machine : (StateMachine → StateMachine) → M (Unit {0})
modify_machine f m = some (tt, f m)

-- Construction -----------------------------------------------------------------------------------

-- `sm_internal_.addState(state)`
add_top_level : ℕ → M (Unit {0})
add_top_level p = modify_machine λ m. record m { top_level = m.top_level ++ p ∷ [] }

-- `ActingState::setOperationMethod`
abbrev pub set_operation_method : ℕ → ℤ → StateMachine → StateMachine
set_operation_method p code m = record m { functions = assoc_set m.functions p code }

-- The constructor; `state_value_` has no initial value, so it is whatever the memory held.
unfoldable new_state_machine : State → Option StateMachine
unfolding construct
new_state_machine garbage = elim (construct empty) [
  | none ↦ none
  | some (ms, s) ↦ some (record {
    store = s;
    members = ms;
    functions = [];
    properties = [];
    current_mode = record { name = ""; available_states = [] };
    state_value = garbage;
    state_name = "";
    calls = [];
    top_level = ms.abortable_ ∷ ms.aborted_ ∷ ms.aborting_ ∷ [];
    initial = none;
    running = false;
    active = none;
    working = false;
    queue = [];
    prom = none;
    thrown = false;
  })
]

-- what both cycles do first
init_states : M (Unit {0})
unfolding generate_all_packml_states state_named add_top_level super_to_string state_to_string
init_states = do
  lift generate_all_packml_states
  abortable ← lift (state_named (super_to_string SuperState.abortable))
  add_top_level abortable
  aborted ← lift (state_named (state_to_string State.aborted))
  add_top_level aborted
  aborting ← lift (state_named (state_to_string State.aborting))
  add_top_level aborting
  initial ← lift (state_named (state_to_string State.aborted))
  modify_machine λ m. record m { initial = some initial }

-- and last: EXECUTE sleeps for a second and returns 0
init_execute : M (Unit {0})
unfolding state_named state_to_string
init_execute = do
  execute ← lift (state_named (state_to_string State.execute))
  modify_machine (set_operation_method execute (pos 0))

unfoldable single_cycle_init : M (Unit {0})
unfolding init_states init_execute
single_cycle_init = do init_states; init_execute

unfoldable continuous_cycle_init : M (Unit {0})
unfolding init_states init_execute redirect_execute
continuous_cycle_init = do init_states; lift redirect_execute; init_execute

abbrev initialised : M (Unit {0}) → Option StateMachine → Option StateMachine
initialised init none = none
initialised init (some m) = elim (init m) [ none ↦ none | some (u, n) ↦ some n ]

unfoldable pub single_cycle_sm : State → Option StateMachine
unfolding new_state_machine single_cycle_init
single_cycle_sm garbage = initialised single_cycle_init (new_state_machine garbage)

unfoldable pub continuous_cycle_sm : State → Option StateMachine
unfolding new_state_machine continuous_cycle_init
continuous_cycle_sm garbage = initialised continuous_cycle_init (new_state_machine garbage)
