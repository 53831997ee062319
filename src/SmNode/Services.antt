-- ===== src/SmNode/Services.antt =====
-- What the node's transition service answers, from its constructor on and to the panel's buttons.
use packml_ros.Base.{
  ◌≡◌, refl, sym, ap, subst, ◌∙◌, ◌<>◌, ℤ, pos, Bool, true, false, Option, none, some, [], arith,
  Option-cases, inl, inr, int_to_string,
}
use packml_ros.Common.{State, TransitionCmd}
use packml_ros.Events.{cmd_event}
use packml_ros.Messages.{Response, Times, success_code, invalid_request, unrecognized_request}
use packml_ros.Qt.{QtEngine}
use packml_ros.StateMachine.{StateMachine}
use packml_ros.StateMachine.Run.{available}
use packml_ros.StateMachine.Requests.{is_command, activate, set_execute}
use packml_ros.Diagram.{Cycle, single, is_leaf, address, commanded}
use packml_ros.Diagram.Built.{fresh, store_of}
use packml_ros.Diagram.Answers.{heard, is_aborting}
use packml_ros.Diagram.Moves.{moved}
use packml_ros.Diagram.Invariant.{IsConsistent}
use packml_ros.Diagram.Commands.{IsBuilt, activate-started, activate_lem, heeded}
use packml_ros.Diagram.Behaviour.{request_quiet}
use packml_ros.Diagram.Verdicts.{request_unconfigured, after_refusal}
use packml_ros.SmNode.{status_of, requested, trans_request, trans_answer, new_node}
use packml_ros.Widget.{Button, Panel, on_button, update_button_state}
use packml_ros.Widget.Enabled.{
  enabled, command_of, is_heeded, enabled-commanded, requested-on_button,
}

-- The response to a number: `none` if it is no command, else whether the command was accepted.
abbrev pub told : ℤ → Option Bool → Response
told command none = record {
  success = false;
  error_code = unrecognized_request;
  message = "Unrecognized transition request command: " <> int_to_string command;
}
told command (some true) = record {
  success = true;
  error_code = success_code;
  message = "Successful transition request command: " <> int_to_string command;
}
told command (some false) = record {
  success = false;
  error_code = invalid_request;
  message = "Invalid transition request command: " <> int_to_string command;
}

-- What the diagram answers to a request, and the machine after it.
abbrev pub replied_to : Cycle → Option TransitionCmd → StateMachine → Option Bool
replied_to cy none m = none
replied_to cy (some c) m = some (heard m.state_value (heeded cy c m))

abbrev pub moved_by : Cycle → Option TransitionCmd → StateMachine → StateMachine
moved_by cy none m = m
moved_by cy (some c) m = moved cy m.state_value (cmd_event c) (record m { prom = none; queue = [] })

requested-is_command : (z : ℤ) (c : TransitionCmd) → requested z ≡ some c → is_command c ≡ true
unfolding requested
requested-is_command z c e = ground arith

trans_answer-told :
    (z : ℤ) (b : Bool) (m : StateMachine) → trans_answer z (some (b, m)) ≡ some (told z (some b), m)
unfolding trans_answer
trans_answer-told z true m = refl
trans_answer-told z false m = refl

-- On a consistent running machine with nothing queued the transition service always answers: a
-- number that is no command is unrecognized and leaves the machine as it was; a command is a
-- success or an invalid transition as the diagram, with ABORTING's exception, hears it, and the
-- machine makes the diagram's move.
pub trans_request_lem :
    (qt : QtEngine) (cy : Cycle) (z : ℤ) (m : StateMachine)
    → IsConsistent cy m
    → m.running ≡ true
    → m.queue ≡ []
    → trans_request qt z m
      ≡ some (told z (replied_to cy (requested z) m), moved_by cy (requested z) m)
unfolding trans_request trans_answer
trans_request_lem qt cy z m i r q = by (requested z) refl
  where
    by :
        (c : Option TransitionCmd)
        → requested z ≡ c
        → trans_request qt z m ≡ some (told z (replied_to cy c m), moved_by cy c m)
    by none e = ground (arith, e)
    by (some c) e = ground (
      arith,
      e,
      request_quiet qt cy c m (requested-is_command z c e) i r q,
      trans_answer-told z (heard m.state_value (heeded cy c m))
          (moved cy m.state_value (cmd_event c) (record m { prom = none; queue = [] })),
    )

-- The machine has every state of the diagram.
abbrev pub PermitsAll : StateMachine → Type 0
PermitsAll m = (t : State) → is_leaf t ≡ true → available m (address t) ≡ some true

commanded-is_leaf : (c : TransitionCmd) (s t : State) → commanded c s ≡ some t → is_leaf t ≡ true
commanded-is_leaf c s t e = ground arith

heard-is_heeded :
    (c : TransitionCmd) (m : StateMachine) (cy : Cycle)
    → PermitsAll m
    → is_aborting m.state_value ≡ false
    → heard m.state_value (heeded cy c m) ≡ is_heeded (commanded c m.state_value)
heard-is_heeded c m cy p a = elim (Option-cases (commanded c m.state_value)) [
  | inl e ↦ ground (arith, e, a)
  | inr (t, e) ↦ ground (arith, e, a, p t (commanded-is_leaf c m.state_value t e))
]

-- A consistent running machine with nothing queued has a mode with every state and is not in
-- ABORTING. Then the node answers a press of any button with success exactly if the panel, having
-- shown the node's status of the machine's state, has that button enabled, and with an invalid
-- transition otherwise, and the machine makes the diagram's move.
pub press_lem :
    (qt : QtEngine) (cy : Cycle) (b : Button) (t : Times) (p : Panel) (m : StateMachine)
    → IsConsistent cy m
    → m.running ≡ true
    → m.queue ≡ []
    → PermitsAll m
    → is_aborting m.state_value ≡ false
    → trans_request qt (on_button b) m
      ≡ some (
        told
            (on_button b)
            (some (enabled b (update_button_state (status_of m.state_value t).flags p))),
        moved_by cy (some (command_of b)) m,
      )
press_lem qt cy b t p m i r q a s =
    trans_request_lem qt cy (on_button b) m i r q
    ∙ (ap (λ c. some (told (on_button b) (replied_to cy c m), moved_by cy c m))
          (requested-on_button b)
        ∙ ap (λ v. some (told (on_button b) (some v), moved_by cy (some (command_of b)) m))
            (heard-is_heeded (command_of b) m cy a s ∙ sym (enabled-commanded m.state_value b t p)))

new_node_lem :
    (garbage : State)
    → (n : StateMachine) × (new_node true garbage ≡ some n)
      × IsConsistent single n
      × (n.state_value ≡ State.aborted)
      × (n.running ≡ true)
      × (n.queue ≡ [])
      × (n.properties ≡ [])
unfolding new_node set_execute activate store_of
new_node_lem garbage =
    let m = (set_execute (pos 0) (fresh single garbage)).1 in
    let built : IsBuilt single m = record { built_store = refl; initial_object = refl } in
    let (i, a, r, q) = activate_lem single m built refl in
    (
      (activate true m).1,
      refl,
      i,
      a,
      r,
      q,
      subst (λ (k : Bool × StateMachine). k.1.properties ≡ [])
          (sym (activate-started single m built refl)) refl,
    )

command_of-is_command : (b : Button) → is_command (command_of b) ≡ true
command_of-is_command b = ground arith

refused_lem :
    (qt : QtEngine) (b : Button) (n : StateMachine)
    → IsConsistent single n
    → n.state_value ≡ State.aborted
    → n.running ≡ true
    → n.queue ≡ []
    → n.properties ≡ []
    → trans_request qt (on_button b) n
      ≡ some (told (on_button b) (some false), after_refusal false n)
unfolding trans_request
refused_lem qt b n i a r q e =
    let c = command_of b in
    ground (
      arith,
      requested-on_button b,
      request_unconfigured qt single n c (command_of-is_command b) i r q e (ap is_aborting a),
      trans_answer-told (on_button b) false (after_refusal false n),
    )

-- Where a Qt application is there, the node's constructor succeeds, whatever the memory held, and
-- the machine that it leaves, which has no mode, answers every button of the panel with an invalid
-- transition.
new_node-refuses :
    (qt : QtEngine) (garbage : State) (b : Button)
    → (n : StateMachine) × (new_node true garbage ≡ some n)
      × (trans_request qt (on_button b) n
          ≡ some (told (on_button b) (some false), after_refusal false n))
new_node-refuses qt garbage b =
    let (n, e, i, a, r, q, p) = new_node_lem garbage in (n, e, refused_lem qt b n i a r q p)
