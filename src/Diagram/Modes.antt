-- ===== src/Diagram/Modes.antt =====
-- Choosing a mode, and the marks that it leaves on the states.
use packml_ros.Base.{
  ◌≡◌, refl, ap, ◌∙◌, ◌≢◌, ◌⊎◌, inl, inr, ℕ, Bool, true, false, ◌<>◌, Option, some, List, [], ◌∷◌,
  ◌++◌, arith, assoc_get, assoc_set, assoc_get-assoc_set, ◌==◌, if◌then◌else◌,
}
use text.Mathlib.TextEquality.{eq_iff}
use packml_ros.Common.{State, ModeType, maintenance, state_val, state_to_string, mode_to_string}
use packml_ros.Store.{find_state}
use packml_ros.StateMachine.{StateMachine, on_mode_changed}
use packml_ros.StateMachine.Run.{available}
use packml_ros.StateMachine.Requests.{
  Expected, value, unexpected, set_available, available_states, may_switch, change_mode,
}
use packml_ros.Diagram.{Cycle, is_leaf, address}
use packml_ros.Diagram.Built.{store_of, find_state-address}

-- The states that a mode has: MAINTENANCE lacks COMPLETING.
abbrev mode_allows : ModeType → State → Bool
mode_allows maintenance State.completing = false
mode_allows mode s = true

abbrev marks : List (State × Bool) → List (ℕ × Bool) → List (ℕ × Bool)
marks [] ps = ps
marks ((s, b) ∷ rest) ps = marks rest (assoc_set ps (address s) b)

abbrev AllLeaf : List (State × Bool) → Type 0
AllLeaf [] = Unit {0}
AllLeaf ((s, b) ∷ rest) = (is_leaf s ≡ true) × AllLeaf rest

set_available-marks :
    (cy : Cycle) (l : List (State × Bool)) (m : StateMachine)
    → AllLeaf l
    → m.store ≡ store_of cy
    → set_available l m ≡ some (record m { properties = marks l m.properties })
unfolding set_available
set_available-marks cy [] m a h = refl
set_available-marks cy ((s, b) ∷ rest) m a h = ground (
  arith,
  ap (find_state (state_to_string s)) h ∙ find_state-address cy s a.0,
  set_available-marks cy rest (record m { properties = assoc_set m.properties (address s) b }) a.1
      h,
)

-- the last mark of an address
abbrev mark_of : List (State × Bool) → ℕ → Option Bool → Option Bool
mark_of [] k d = d
mark_of ((s, b) ∷ rest) k d = mark_of rest k (if address s == k then some b else d)

assoc_get-marks :
    (l : List (State × Bool)) (k : ℕ) (ps : List (ℕ × Bool))
    → assoc_get (marks l ps) k ≡ mark_of l k (assoc_get ps k)
assoc_get-marks [] k ps = refl
assoc_get-marks ((s, b) ∷ rest) k ps =
    assoc_get-marks rest k (assoc_set ps (address s) b)
    ∙ ap (mark_of rest k) (assoc_get-assoc_set ps (address s) k b)

available_states-leaf : (mode : ModeType) → AllLeaf (available_states mode)
unfolding available_states
available_states-leaf maintenance = ground arith
available_states-leaf _ = ground arith

mark_of-mode :
    (mode : ModeType) (s : State) (d : Option Bool)
    → is_leaf s ≡ true
    → mark_of (available_states mode) (address s) d ≡ some (mode_allows mode s)
unfolding available_states
mark_of-mode maintenance State.clearing d h = refl
mark_of-mode maintenance s d h = ground arith
mark_of-mode _ s d h = ground arith

-- The machine after a switch: the states are marked, and the callback hears of it.
unfoldable pub switched : ModeType → StateMachine → StateMachine
unfolding mode_to_string available_states
switched mode m = record m {
  properties = marks (available_states mode) m.properties;
  current_mode = record { name = mode_to_string mode; available_states = available_states mode };
  calls = m.calls ++ on_mode_changed mode ∷ [];
}

-- What a switch leaves alone.
pub switched-frame :
    (mode : ModeType) (m : StateMachine)
    → switched mode m ≡ record m {
      properties = (switched mode m).properties;
      current_mode = (switched mode m).current_mode;
      calls = m.calls ++ on_mode_changed mode ∷ [];
    }
unfolding switched
switched-frame mode m = refl

-- After a switch to a mode every state of the diagram is available, except COMPLETING after a
-- switch to MAINTENANCE.
pub available-switched :
    (mode : ModeType) (s : State) (m : StateMachine)
    → is_leaf s ≡ true
    → available (switched mode m) (address s) ≡ some (mode_allows mode s)
unfolding switched
available-switched mode s m h =
    assoc_get-marks (available_states mode) (address s) m.properties
    ∙ mark_of-mode mode s (available m (address s)) h

can_switch :
    (m : StateMachine)
    → (m.state_value ≡ State.idle) ⊎ (m.current_mode.name ≡ "")
    → may_switch m ≡ true
unfolding may_switch state_val
can_switch m (inl e) = rw e
can_switch m (inr e) = ground (arith, eq_iff m.current_mode.name "")

-- A machine with the store that `init` built that shows IDLE, or has no mode yet, accepts any mode:
-- every state gets that mode's mark, the mode is kept and `on_mode_changed` is told.
pub change_mode-switched :
    (cy : Cycle) (mode : ModeType) (m : StateMachine)
    → m.store ≡ store_of cy
    → (m.state_value ≡ State.idle) ⊎ (m.current_mode.name ≡ "")
    → change_mode mode m ≡ some (value true, switched mode m)
unfolding change_mode switched
change_mode-switched cy mode m h w = ground (
  arith,
  can_switch m w,
  set_available-marks cy (available_states mode) m (available_states-leaf mode) h,
)

-- A machine that has a mode and shows a state of the diagram other than IDLE refuses every mode: it
-- is left as it was, and the text names its state.
pub change_mode-refused :
    (mode : ModeType) (m : StateMachine)
    → is_leaf m.state_value ≡ true
    → m.state_value ≢ State.idle
    → m.current_mode.name ≢ ""
    → change_mode mode m
      ≡ some (unexpected ("Cannot switch mode in state: " <> state_to_string m.state_value), m)
unfolding change_mode state_val
change_mode-refused mode m leaf busy chosen = ground (arith, eq_iff m.current_mode.name "")

-- Either way: `changeMode` returns, and the machine is switched or as it was.
pub change_mode-cases :
    (cy : Cycle) (mode : ModeType) (m : StateMachine) {r : Expected × StateMachine}
    → m.store ≡ store_of cy
    → change_mode mode m ≡ some r
    → (r.1 ≡ switched mode m) ⊎ (r.1 ≡ m)
unfolding change_mode switched
change_mode-cases cy mode m h e =
    ground (arith, set_available-marks cy (available_states mode) m (available_states-leaf mode) h)
