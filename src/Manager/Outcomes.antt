-- ===== src/Manager/Outcomes.antt =====
-- How a request for a state ends.
use packml_ros.Base.{
  ◌≡◌, refl, ap, ◌∙◌, ◌<>◌, ℕ, ◌<◌, ℤ, Bool, true, false, String, none, some, List, [], ◌∷◌, ◌++◌,
  length, arith,
}
use packml_ros.Common.{State, TransitionCmd, cmd_to_string, cmd_val, state_to_string}
use packml_ros.Messages.{new_response, success_code, invalid_request}
use packml_ros.Qt.{QtEngine}
use packml_ros.StateMachine.{StateMachine, Callback}
use packml_ros.StateMachine.Requests.{value, unexpected, is_command, change_state, change_answer}
use packml_ros.Transitions.{cmd_eq}
use packml_ros.Diagram.{Cycle}
use packml_ros.Diagram.Answers.{is_aborting}
use packml_ros.Diagram.Moves.{arrive}
use packml_ros.Diagram.Invariant.{IsConsistent}
use packml_ros.Diagram.Commands.{heeded}
use packml_ros.Diagram.Runs.{arrive-calls}
use packml_ros.Diagram.Verdicts.{after_refusal, change_state_lem, request-aborting}
use packml_ros.Manager.{
  Service, Manager, kept_promise, to_transition_cmd, on_state_changed, publish_status,
}
use packml_ros.Manager.Waiting.{AllSpin, AllAvailable, AllAnswer, Agrees}
use packml_ros.Manager.Modes.{on_state_changed-agreed}
use packml_ros.Manager.States.{
  responds, throws, since, hear, retrieve, get_future, on_change_state, then_hear, wait_after,
  with_outcome, state_changed,
}

pub is_command-cmd_eq :
    (c : TransitionCmd) → is_command c ≡ true → cmd_eq c TransitionCmd.no_command ≡ false
unfolding cmd_val
is_command-cmd_eq c p = ground arith

since-nil : (cs : List Callback) → since (length cs) cs ≡ []
since-nil [] = refl
since-nil (c ∷ cs) = since-nil cs

pub since-append : (cs ds : List Callback) → since (length cs) (cs ++ ds) ≡ ds
since-append [] ds = refl
since-append (c ∷ cs) ds = since-append cs ds

-- A handler whose machine stays as it was finds no callback to hear.
still-retrieved :
    (fuel : ℕ) (service : Service) (first : Bool) (g : Manager)
    → g.changed_prom.is_retrieved ≡ true
    → state_changed fuel service first g (some (value true, after_refusal true g.machine))
      ≡ some
          (throws "future_already_retrieved", record g { machine = after_refusal true g.machine })
unfolding state_changed hear get_future wait_after with_outcome
still-retrieved fuel service true g h = rw (since-nil g.machine.calls, h)
still-retrieved fuel service false g h = rw (since-nil g.machine.calls, h)

-- The same for a machine that refuses.
still-refused :
    (fuel : ℕ) (service : Service) (first : Bool) (error : String) (g : Manager)
    → state_changed fuel service first g (some (unexpected error, after_refusal false g.machine))
      ≡ some (
        responds (record { success = false; error_code = invalid_request; message = error }),
        record g { machine = after_refusal false g.machine },
      )
unfolding state_changed hear with_outcome
still-refused fuel service first error g = rw (since-nil g.machine.calls)

-- One state is entered: the manager hears of it.
state_changed-agreed :
    (fuel : ℕ) (service : Service) (t : State) (name : String) (m : StateMachine) (g h : Manager)
    → m.calls ≡ g.machine.calls ++ Callback.on_state_changed t name ∷ []
    → on_state_changed fuel service t (record g { machine = m }) ≡ some h
    → state_changed fuel service true g (some (value true, m))
      ≡ some (get_future false h.changed_prom, retrieve h)
unfolding state_changed hear then_hear wait_after
state_changed-agreed fuel service t name m g h e o =
    ap (λ cs. wait_after (hear fuel service cs (record g { machine = m })))
      (ap (since (length g.machine.calls)) e
        ∙ since-append g.machine.calls (Callback.on_state_changed t name ∷ []))
    ∙ ap (λ r. wait_after (then_hear (hear fuel service []) r)) o

module _ (qt : QtEngine) (cy : Cycle) (fuel : ℕ) (service : Service) (val : ℤ) (g : Manager) where
  asked :
      (first : Bool)
      → is_command (to_transition_cmd val) ≡ true
      → on_change_state qt fuel service first val g
        ≡ state_changed fuel service first g (change_state qt (to_transition_cmd val) g.machine)
  unfolding on_change_state
  asked first p = rw (is_command-cmd_eq (to_transition_cmd val) p)

  change_state-aborting :
      is_command (to_transition_cmd val) ≡ true
      → IsConsistent cy g.machine
      → g.machine.running ≡ true
      → g.machine.queue ≡ []
      → g.machine.state_value ≡ State.aborting
      → change_state qt (to_transition_cmd val) g.machine
        ≡ some (value true, after_refusal true g.machine)
  unfolding change_state change_answer
  change_state-aborting p i r q s =
      rw (p, request-aborting qt cy g.machine (to_transition_cmd val) p i r q s)

  -- The manager's machine is consistent and runs in ABORTING with nothing queued, the requested
  -- number is a command, and the future of the manager's promise was taken before. Then the handler
  -- throws `future_already_retrieved`, whichever thread is first.
  pub on_change_state-aborting :
      (heard_first : Bool)
      → is_command (to_transition_cmd val) ≡ true
      → IsConsistent cy g.machine
      → g.machine.running ≡ true
      → g.machine.queue ≡ []
      → g.machine.state_value ≡ State.aborting
      → g.changed_prom.is_retrieved ≡ true
      → on_change_state qt fuel service heard_first val g
        ≡ some
            (throws "future_already_retrieved", record g { machine = after_refusal true g.machine })
  on_change_state-aborting first p i r q s h =
      asked first p
      ∙ (ap (state_changed fuel service first g) (change_state-aborting p i r q s)
          ∙ still-retrieved fuel service first g h)

  change_state-refused :
      is_command (to_transition_cmd val) ≡ true
      → IsConsistent cy g.machine
      → g.machine.running ≡ true
      → g.machine.queue ≡ []
      → is_aborting g.machine.state_value ≡ false
      → heeded cy (to_transition_cmd val) g.machine ≡ none
      → change_state qt (to_transition_cmd val) g.machine
        ≡ some (
          unexpected ("Transition command failed: " <> cmd_to_string (to_transition_cmd val)),
          after_refusal false g.machine,
        )
  change_state-refused p i r q s h =
      change_state_lem qt cy g.machine (to_transition_cmd val) i r q ∙ rw (p, h, s)

  -- The manager's machine is consistent and runs with nothing queued outside ABORTING, and the
  -- requested number is a command that the diagram does not heed there. Then the handler responds
  -- with an invalid transition and the machine's text, without a wait, and nothing but the
  -- machine's answered promise changes.
  on_change_state-refused :
      (heard_first : Bool)
      → is_command (to_transition_cmd val) ≡ true
      → IsConsistent cy g.machine
      → g.machine.running ≡ true
      → g.machine.queue ≡ []
      → is_aborting g.machine.state_value ≡ false
      → heeded cy (to_transition_cmd val) g.machine ≡ none
      → on_change_state qt fuel service heard_first val g
        ≡ some (
          responds (record {
            success = false;
            error_code = invalid_request;
            message = "Transition command failed: " <> cmd_to_string (to_transition_cmd val);
          }),
          record g { machine = after_refusal false g.machine },
        )
  on_change_state-refused first p i r q s h =
      asked first p
      ∙ (ap (state_changed fuel service first g) (change_state-refused p i r q s h)
          ∙ still-refused fuel service first
              ("Transition command failed: " <> cmd_to_string (to_transition_cmd val)) g)

  -- The manager's machine is consistent and runs with nothing queued, the requested number is a
  -- command that the diagram heeds and that leads to `t`, the event loop's thread calls back before
  -- the handler waits, and all clients are there, at least one, answer by round `k` below the fuel,
  -- no executor blocks up to it, and none refuses. Then the handler responds with success, the machine is in `t`, and `t` is
  -- kept and published.
  on_change_state-agreed :
      (t : State) (c : String) (cs : List String) (k : ℕ)
      → is_command (to_transition_cmd val) ≡ true
      → IsConsistent cy g.machine
      → g.machine.running ≡ true
      → g.machine.queue ≡ []
      → heeded cy (to_transition_cmd val) g.machine ≡ some t
      → g.clients ≡ c ∷ cs
      → k < fuel
      → AllSpin service k (c ∷ cs)
      → AllAvailable service (c ∷ cs)
      → AllAnswer (service.ready_in k) (c ∷ cs)
      → ((j : ℕ) → Agrees (service.ready_in j))
      → (m : StateMachine) × (m.state_value ≡ t)
        × (on_change_state qt fuel service true val g
            ≡ some (
              responds (record new_response { success = true; error_code = success_code }),
              retrieve (
                  publish_status
                    (record g { machine = m; changed_prom = kept_promise; current_state = t })),
            ))
  unfolding publish_status get_future
  on_change_state-agreed t c cs k p i r q h e b v a y z =
      let n = record g.machine { prom = some true; queue = [] } in
      let m = arrive g.machine.state_value (some t) n in
      let moves : change_state qt (to_transition_cmd val) g.machine ≡ some (value true, m) =
        change_state_lem qt cy g.machine (to_transition_cmd val) i r q ∙ rw (p, h) in
      (
        m,
        refl,
        asked true p
            ∙ (ap (state_changed fuel service true g) moves
                ∙ state_changed-agreed fuel service t (state_to_string t) m g
                    (publish_status
                      (record g { machine = m; changed_prom = kept_promise; current_state = t }))
                    (arrive-calls g.machine.state_value t n)
                    (on_state_changed-agreed service c cs k fuel t (record g { machine = m }) e b v
                      a y z)),
      )
