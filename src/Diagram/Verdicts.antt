-- ===== src/Diagram/Verdicts.antt =====
-- Answers that a client may not expect, and the texts of `changeState`.
use packml_ros.Base.{
  ◌≡◌, refl, sym, subst, ap, ◌∙◌, ℤ, Bool, true, false, ◌<>◌, Option, none, some, List, [], ◌∷◌,
  ◌++◌, arith, assoc_get, assoc_get-assoc_set, if◌then◌else◌, ◌==◌, Bool-cases, inl, inr,
}
use packml_ros.Common.{State, TransitionCmd, maintenance, cmd_to_string}
use packml_ros.Events.{Payload, cmd_event, state_complete_event}
use packml_ros.Qt.{QtEngine}
use packml_ros.StateMachine.{StateMachine}
use packml_ros.StateMachine.Run.{finish_operation, operation_event, next_event, available}
use packml_ros.StateMachine.Requests.{
  value, unexpected, request, change_answer, change_state, set_execute, is_command,
}
use packml_ros.Diagram.{Cycle, single, address, next, commanded, completed, permitted}
use packml_ros.Diagram.Answers.{heard, is_aborting}
use packml_ros.Diagram.Moves.{arrive, moved}
use packml_ros.Diagram.Invariant.{IsConsistent, next_event-cons}
use packml_ros.Diagram.Commands.{heeded}
use packml_ros.Diagram.Modes.{switched, available-switched}
use packml_ros.Diagram.Behaviour.{request_quiet}

-- The machine with a promise that was answered, and nothing else changed.
abbrev pub after_refusal : Bool → StateMachine → StateMachine
after_refusal b m = record m { prom = some b; queue = [] }

module _ (qt : QtEngine) (cy : Cycle) (m : StateMachine) (c : TransitionCmd) where
  unheeded :
      is_command c ≡ true
      → IsConsistent cy m
      → m.running ≡ true
      → m.queue ≡ []
      → heeded cy c m ≡ none
      → request qt c m
        ≡ some (is_aborting m.state_value, after_refusal (is_aborting m.state_value) m)
  unheeded p i r q h =
      request_quiet qt cy c m p i r q
      ∙ ap
          (λ n. some (
            heard m.state_value n,
            arrive m.state_value n (record m { prom = some (heard m.state_value n); queue = [] }),
          ))
          h

  -- A consistent running machine in ABORTING with nothing queued answers each of the nine commands
  -- with acceptance, although nothing but the answered promise changes.
  pub request-aborting :
      is_command c ≡ true
      → IsConsistent cy m
      → m.running ≡ true
      → m.queue ≡ []
      → m.state_value ≡ State.aborting
      → request qt c m ≡ some (true, after_refusal true m)
  request-aborting p i r q s =
      unheeded p i r q
        (subst (λ v. permitted (available m) (commanded c v) ≡ none) (sym s) (deaf c))
      ∙ ap (λ v. some (is_aborting v, after_refusal (is_aborting v) m)) s
    where
      deaf : (d : TransitionCmd) → permitted (available m) (commanded d State.aborting) ≡ none
      deaf TransitionCmd.reset = refl
      deaf _ = refl

  permitted-nothing : (n : Option State) → permitted (λ k. none) n ≡ none
  permitted-nothing none = refl
  permitted-nothing (some t) = refl

  -- A consistent running machine that was never given a mode and is not in ABORTING, with nothing
  -- queued, refuses each of the nine commands, and nothing but the answered promise changes.
  pub request_unconfigured :
      is_command c ≡ true
      → IsConsistent cy m
      → m.running ≡ true
      → m.queue ≡ []
      → m.properties ≡ []
      → is_aborting m.state_value ≡ false
      → request qt c m ≡ some (false, after_refusal false m)
  request_unconfigured p i r q e s =
      unheeded p i r q (
        subst (λ l. permitted (assoc_get l) (commanded c m.state_value) ≡ none) (sym e)
          (permitted-nothing (commanded c m.state_value)))
      ∙ ap (λ b. some (b, after_refusal b m)) s

  -- On a consistent running machine with nothing queued, `changeState` returns `true` if the
  -- command is one of the nine and is accepted, a text that names the command if it is refused,
  -- each after the diagram's move, and another text, without a move, for a value that is no
  -- command.
  pub change_state_lem :
      IsConsistent cy m
      → m.running ≡ true
      → m.queue ≡ []
      → change_state qt c m ≡ (
          if is_command c
          then some (
            (if heard m.state_value (heeded cy c m)
                then value true
                else unexpected ("Transition command failed: " <> cmd_to_string c)),
            moved cy m.state_value (cmd_event c) (record m { prom = none; queue = [] }),
          )
          else some (unexpected ("Invalid transition request command: " <> cmd_to_string c), m))
  unfolding change_state change_answer
  change_state_lem i r q = elim (Bool-cases (is_command c)) [
    | inl p ↦ ground (arith, p, request_quiet qt cy c m p i r q)
    | inr p ↦ ground (arith, p)
  ]

-- A consistent single-cycle machine in EXECUTE whose states are marked as for MAINTENANCE handles
-- the completion of EXECUTE's work by dropping it: it stays in EXECUTE, and only the event is gone.
pub next_event-maintenance :
    (qt : QtEngine) (k m : StateMachine) (es : List Payload)
    → IsConsistent single m
    → m.properties ≡ (switched maintenance k).properties
    → m.state_value ≡ State.execute
    → m.queue ≡ state_complete_event ∷ es
    → next_event qt m ≡ record m { queue = es }
next_event-maintenance qt k m es i p s q =
    next_event-cons qt single state_complete_event es m q i
    ∙ ap (λ n. arrive m.state_value n (record m { queue = es })) stays
  where
    stays : next single (available m) state_complete_event m.state_value ≡ none
    stays =
        subst (λ v. permitted (available m) (completed single v) ≡ none) (sym s)
          (ground (
            arith,
            ap (λ l. assoc_get l (address State.completing)) p
                ∙ available-switched maintenance State.completing k refl,
          ))

-- On a machine whose member `execute_` is the object that the constructor made, `setExecute` does
-- not change what the thread of any state posts when it ends.
finish_operation-set_execute :
    (code : ℤ) (s : State) (m : StateMachine)
    → m.members.execute_ ≡ 18
    → (finish_operation (address s) (set_execute code m).1).queue
      ≡ (finish_operation (address s) m).queue
unfolding finish_operation set_execute
finish_operation-set_execute code s m h =
    ap (λ f. m.queue ++ operation_event f ∷ [])
      (assoc_get-assoc_set m.functions m.members.execute_ (address s) code
        ∙ (ap (λ p. if p == address s then some code else assoc_get m.functions (address s)) h
            ∙ ap (λ b. if b then some code else assoc_get m.functions (address s)) (elsewhere s)))
  where
    elsewhere : (t : State) → (18 == address t) ≡ false
    elsewhere State.clearing = refl
    elsewhere _ = refl
