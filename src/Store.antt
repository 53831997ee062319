-- ===== src/Store.antt =====
-- The objects that the machine is built from, in a store: an address is an object's place in it.
-- A step of the construction is a function on the store; `none` is a null pointer dereferenced.
use text.Mathlib.Text.{◌==◌ as str_eq}
use packml_ros.Base.{
  ℕ, String, Option, none, some, List, [], ◌∷◌, ◌++◌, length, get_elem?, modify, ◌==◌,
  if◌then◌else◌,
}
use packml_ros.Common.{State, TransitionCmd}

-- The subclasses of `PackmlState`, with the field that each adds.
pub data Kind : Type 0 where
  acting : (delay_ms : ℕ) → Kind
  wait : (exit_cmd : TransitionCmd) → Kind
  super_state : (transition_command : TransitionCmd) → Kind

-- `PackmlState`, with what `QState` keeps: its parent, its transitions and its initial state.
pub record PackmlState : Type 0 where
  pub state : State
  pub name : String
  pub parent : Option ℕ
  pub kind : Kind
  pub transitions : List ℕ
  pub initial_state : Option ℕ

-- The subclasses of `PackmlTransition`.
pub data Trigger : Type 0 where
  on_command : (cmd : TransitionCmd) → (name : String) → Trigger
  on_state_complete : Trigger
  on_error : Trigger

pub record Transition : Type 0 where
  pub trigger : Trigger
  pub target : Option ℕ

-- `states` is the generator's map; `connections` are the objects whose `stateEntered` calls
-- `StateMachine::setState`.
pub record Store : Type 0 where
  pub objects : List PackmlState
  pub arrows : List Transition
  pub states : List (String × ℕ)
  pub connections : List ℕ

abbrev pub empty : Store
empty = record { objects = []; arrows = []; states = []; connections = [] }

abbrev pub Build : Type 0 → Type 0
Build A = Store → Option (A × Store)

abbrev pub pure : {A : Type 0} → A → Build A
pure a s = some (a, s)

infixl 5 ◌>>=◌ ◌>>◌
abbrev pub ◌>>=◌ : {A B : Type 0} → Build A → (A → Build B) → Build B
◌>>=◌ m f s = elim (m s) [ none ↦ none | some (a, t) ↦ f a t ]

abbrev pub ◌>>◌ : {B : Type 0} → Build (Unit {0}) → Build B → Build B
m >> k = m >>= λ _. k

-- `new`
unfoldable pub new_object : State → String → Option ℕ → Kind → Build ℕ
new_object state name parent kind s =
    some (length s.objects, record s { objects = s.objects ++ object ∷ [] })
  where
    object : PackmlState
    object = record {
      state = state;
      name = name;
      parent = parent;
      kind = kind;
      transitions = [];
      initial_state = none;
    }

unfoldable pub new_transition : Trigger → Build ℕ
new_transition trigger s = some (
  length s.arrows,
  record s { arrows = s.arrows ++ record { trigger = trigger; target = none } ∷ [] },
)

unfoldable pub object_at : ℕ → Build PackmlState
object_at p s = elim (get_elem? s.objects p) [ none ↦ none | some o ↦ some (o, s) ]

unfoldable pub transition_at : ℕ → Build Transition
transition_at t s = elim (get_elem? s.arrows t) [ none ↦ none | some a ↦ some (a, s) ]

-- `transition->setTargetState(state)`
unfoldable pub set_target_state : ℕ → ℕ → Build (Unit {0})
set_target_state t p s =
    some (tt, record s { arrows = modify s.arrows t (λ a. record a { target = some p }) })

-- `state->addTransition(transition)`
unfoldable pub add_transition : ℕ → ℕ → Build (Unit {0})
add_transition p t s = some (
  tt,
  record s {
    objects = modify s.objects p (λ o. record o { transitions = o.transitions ++ t ∷ [] });
  },
)

abbrev remove : ℕ → List ℕ → List ℕ
remove t [] = []
remove t (u ∷ us) = if u == t then us else u ∷ remove t us

-- `state->removeTransition(transition)`
unfoldable pub remove_transition : ℕ → ℕ → Build (Unit {0})
remove_transition p t s = some (
  tt,
  record s {
    objects = modify s.objects p (λ o. record o { transitions = remove t o.transitions });
  },
)

-- `state->setInitialState(initial)`
unfoldable pub set_initial_state : ℕ → ℕ → Build (Unit {0})
set_initial_state p i s =
    some (tt, record s { objects = modify s.objects p (λ o. record o { initial_state = some i }) })

-- `QObject::connect(state, stateEntered, machine, setState)`
unfoldable pub connect : ℕ → Build (Unit {0})
connect p s = some (tt, record s { connections = s.connections ++ p ∷ [] })

abbrev find : String → List (String × ℕ) → Option ℕ
find k [] = none
find k ((j, p) ∷ m) = if str_eq j k then some p else find k m

-- `states.find(name)`
unfoldable pub find_state : String → Store → Option ℕ
find_state k s = find k s.states

-- `states[name]`, dereferenced
unfoldable pub state_named : String → Build ℕ
unfolding find_state
state_named k s = elim (find_state k s) [ none ↦ none | some p ↦ some (p, s) ]

-- `states[name] = state`, for a name that is not there
unfoldable pub insert_state : String → ℕ → Build (Unit {0})
insert_state k p s = some (tt, record s { states = s.states ++ (k, p) ∷ [] })
