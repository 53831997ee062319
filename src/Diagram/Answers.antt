-- ===== src/Diagram/Answers.antt =====
-- How a state answers an event: the transition, and the accept flag of a command.
use packml_ros.Base.{◌≡◌, refl, ◌∙◌, ap, Bool, true, false, ◌||◌, Option, none, some, arith}
use packml_ros.Common.{State, TransitionCmd, cmd_val}
use packml_ros.Events.{Payload, QEvent, cmd_event, state_complete_event, error_event}
use packml_ros.Store.{Transition}
use packml_ros.Qt.{QtEngine, first_enabled, flatten, select-first_enabled}
use packml_ros.Transitions.{Available, event_test, candidates}
use packml_ros.Transitions.Search.{pick, verdict, first_enabled-pick, first_enabled-verdict}
use packml_ros.StateMachine.Requests.{is_command}
use packml_ros.Diagram.{Cycle, single, continuous, is_leaf, address, next}
use packml_ros.Diagram.Built.{store_of, rows, on_cmd, on_done, on_failure, candidates-rows}

-- the events that the code posts: a command event carries a command
abbrev pub is_posted : Payload → Bool
is_posted (cmd_event c) = is_command c
is_posted state_complete_event = true
is_posted (error_event code) = true

abbrev pub taken : Payload → Option State → Option Transition
taken e none = none
taken (cmd_event c) (some t) = some (on_cmd c t)
taken state_complete_event (some t) = some (on_done t)
taken (error_event code) (some t) = some on_failure

abbrev is_some : Option State → Bool
is_some none = false
is_some (some t) = true

abbrev pub is_aborting : State → Bool
is_aborting State.aborting = true
is_aborting s = false

abbrev pub heard : State → Option State → Bool
heard s n = is_some n || is_aborting s

module _ (av : Available) where
  pick-taken :
      (cy : Cycle) (s : State) (e : Payload)
      → is_leaf s ≡ true
      → is_posted e ≡ true
      → pick av e (flatten (rows cy s)) ≡ taken e (next cy av e s)
  unfolding flatten cmd_val
  pick-taken single State.clearing (cmd_event TransitionCmd.reset) h p = ground arith
  pick-taken single s (cmd_event c) h p = ground arith
  pick-taken single s e h p = ground arith
  pick-taken continuous s e h p = ground arith

  verdict-heard :
      (cy : Cycle) (s : State) (c : TransitionCmd)
      → is_leaf s ≡ true
      → is_command c ≡ true
      → verdict true
          (taken (cmd_event c) (next cy av (cmd_event c) s))
          (cmd_event c)
          (flatten (rows cy s))
        ≡ heard s (next cy av (cmd_event c) s)
  unfolding flatten
  verdict-heard single State.clearing c h p = ground arith
  verdict-heard single s c h p = ground arith
  verdict-heard continuous s c h p = ground arith

-- What Qt is handed for an event in a state, and what it hands back.
abbrev pub response : QtEngine → Available → Cycle → State → Payload → Option Transition × QEvent
response qt av cy s e =
    qt.select (candidates (store_of cy) (address s)) (event_test qt av)
      (record { payload = e; accepted = qt.born_accepted })

module _ (qt : QtEngine) (av : Available) (cy : Cycle) (s : State) (leaf : is_leaf s ≡ true) where
  response-tries :
      (e : Payload)
      → response qt av cy s e
        ≡ first_enabled
            (event_test qt av)
            (flatten (rows cy s))
            (record { payload = e; accepted = true })
  response-tries e =
      ap
        (λ ls.
          qt.select ls (event_test qt av) (record { payload = e; accepted = qt.born_accepted }))
        (candidates-rows cy s leaf)
      ∙ (ap (λ b. qt.select (rows cy s) (event_test qt av) (record { payload = e; accepted = b }))
            qt.born_accepted_lem
          ∙ select-first_enabled qt (rows cy s) (event_test qt av) _)

  -- In a state of the diagram, under any availability of states, Qt's choice among the generated
  -- transitions for a posted event is the transition to the diagram's next state, and none if there
  -- is none; the event is still the one posted.
  pub response-taken :
      (e : Payload)
      → is_posted e ≡ true
      → ((response qt av cy s e).0 ≡ taken e (next cy av e s))
        × ((response qt av cy s e).1.payload ≡ e)
  response-taken e p = rw (response-tries e) (
      let (t, q) =
        first_enabled-pick qt av (flatten (rows cy s)) (record { payload = e; accepted = true }) in
      (t ∙ pick-taken av cy s e leaf p, q))

  -- In a state of the diagram, under any availability of states, the accept flag that the
  -- transitions leave on a command's event is set if the diagram heeds the command, and always in
  -- ABORTING; otherwise it is cleared.
  pub response-accepted :
      (c : TransitionCmd)
      → is_command c ≡ true
      → (response qt av cy s (cmd_event c)).1.accepted ≡ heard s (next cy av (cmd_event c) s)
  response-accepted c p =
      rw
        (
          response-tries (cmd_event c),
          first_enabled-verdict qt av (flatten (rows cy s))
              (record { payload = cmd_event c; accepted = true }) c refl,
          pick-taken av cy s (cmd_event c) leaf p,
        )
        (verdict-heard av cy s c leaf p)
