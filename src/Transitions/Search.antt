-- ===== src/Transitions/Search.antt =====
-- Trying a list of transitions, as a search for the one that fits.
use packml_ros.Base.{
  ◌≡◌, refl, ℕ, Bool, true, false, ◌&&◌, ◌||◌, Option, none, some, List, [], ◌∷◌, arith,
  if◌then◌else◌,
}
use packml_ros.Common.{TransitionCmd}
use packml_ros.Events.{Payload, QEvent, cmd_event, state_complete_event, error_event}
use packml_ros.Store.{Transition, Trigger, on_command, on_state_complete, on_error}
use packml_ros.Qt.{QtEngine, first_enabled}
use packml_ros.Transitions.{Available, event_test, cmd_eq, cmd_matches, is_available}

-- the event is of the type that the transition looks at
abbrev concerns : Trigger → Payload → Bool
concerns (on_command c name) (cmd_event d) = true
concerns on_state_complete state_complete_event = true
concerns on_error (error_event code) = true
concerns _ _ = false

-- and is the event that the transition waits for
abbrev fits : Trigger → Payload → Bool
fits (on_command c name) (cmd_event d) = cmd_eq c d
fits on_state_complete state_complete_event = true
fits on_error (error_event code) = true
fits _ _ = false

abbrev pub is_set : Option Bool → Bool
is_set none = false
is_set (some b) = b

abbrev usable : Available → Option ℕ → Bool
usable av none = false
usable av (some p) = is_set (av p)

abbrev pub pick : Available → Payload → List Transition → Option Transition
pick av e [] = none
pick av e (t ∷ ts) = if fits t.trigger e && usable av t.target then some t else pick av e ts

abbrev is_some : Option Transition → Bool
is_some none = false
is_some (some t) = true

abbrev any_concerns : Payload → List Transition → Bool
any_concerns e [] = false
any_concerns e (t ∷ ts) = concerns t.trigger e || any_concerns e ts

-- the accept flag of a command event after the tests
abbrev pub verdict : Bool → Option Transition → Payload → List Transition → Bool
verdict before (some t) e ts = true
verdict before none e ts = if any_concerns e ts then false else before

module _ (qt : QtEngine) (av : Available) where
  is_available-usable : (target : Option ℕ) → is_available qt av target ≡ usable av target
  unfolding is_available
  is_available-usable none = refl
  is_available-usable (some p) = ground (arith, qt.unset_to_bool_lem)

  event_test-fits :
      (t : Transition) (e : QEvent)
      → (event_test qt av t e).0 ≡ (fits t.trigger e.payload && usable av t.target)
  unfolding event_test cmd_matches
  event_test-fits t e = ground (arith, is_available-usable t.target)

  event_test-payload : (t : Transition) (e : QEvent) → (event_test qt av t e).1.payload ≡ e.payload
  unfolding event_test cmd_matches
  event_test-payload t e = ground (arith, is_available-usable t.target)

  event_test-accepted :
      (t : Transition) (e : QEvent) (c : TransitionCmd)
      → e.payload ≡ cmd_event c
      → (event_test qt av t e).1.accepted ≡ (
          if fits t.trigger e.payload && usable av t.target
          then true
          else if concerns t.trigger e.payload
          then false
          else e.accepted)
  unfolding event_test cmd_matches
  event_test-accepted t e c h = ground (arith, is_available-usable t.target)

  -- The transition that is taken, and the event is still the one posted.
  pub first_enabled-pick :
      (ts : List Transition) (e : QEvent)
      → ((first_enabled (event_test qt av) ts e).0 ≡ pick av e.payload ts)
        × ((first_enabled (event_test qt av) ts e).1.payload ≡ e.payload)
  unfolding first_enabled
  first_enabled-pick [] e = (refl, refl)
  first_enabled-pick (t ∷ ts) e = ground (
    arith,
    event_test-fits t e,
    event_test-payload t e,
    first_enabled-pick ts (event_test qt av t e).1,
  )

  -- The accept flag of a command event.
  pub first_enabled-verdict :
      (ts : List Transition) (e : QEvent) (c : TransitionCmd)
      → e.payload ≡ cmd_event c
      → (first_enabled (event_test qt av) ts e).1.accepted
        ≡ verdict e.accepted (pick av e.payload ts) e.payload ts
  unfolding first_enabled
  first_enabled-verdict [] e c h = refl
  first_enabled-verdict (t ∷ ts) e c h = ground (
    arith,
    event_test-fits t e,
    event_test-payload t e,
    event_test-accepted t e c h,
    first_enabled-verdict ts (event_test qt av t e).1 c,
  )
