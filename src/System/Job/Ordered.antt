-- ===== src/System/Job/Ordered.antt =====
-- A whole job: the command of an operator, and the work of one state after another.
use packml_ros.Base.{
  ◌≡◌, ap, ◌∙◌, ℕ, ◌<◌, ℤ, Bool, true, false, String, Option, none, some, List, [], ◌∷◌, ◌++◌, sym,
  subst,
}
use packml_ros.Common.{State, TransitionCmd, state_to_string}
use packml_ros.Qt.{QtEngine}
use packml_ros.Events.{cmd_event}
use packml_ros.Messages.{new_response, success_code}
use packml_ros.StateMachine.{StateMachine, on_state_changed}
use packml_ros.StateMachine.Requests.{is_command, change_state, change_answer, value}
use packml_ros.Diagram.{Cycle, commanded}
use packml_ros.Diagram.Built.{works}
use packml_ros.Diagram.Answers.{heard}
use packml_ros.Diagram.Moves.{arrive, replied, moved}
use packml_ros.Diagram.Runs.{arrive-calls}
use packml_ros.Diagram.Behaviour.{IsQuiet, Permits, request_quiet, request_taken, heeded-some}
use packml_ros.Manager.{publish_status, to_transition_cmd}
use packml_ros.Manager.States.{responds, retrieve}
use packml_ros.System.{System, Setting}
use packml_ros.System.Steps.{state_requested}
use packml_ros.System.Reached.{AllReach}
use packml_ros.System.NewState.{state_told-agreed}
use packml_ros.System.Commanded.{state_requested-moved, heeded-is_enumerator}
use packml_ros.System.Whole.{with_machine}
use packml_ros.System.Job.{works_told, Completes, Holds, Follows, Follows-cons, works_told-Follows}

module _ (qt : QtEngine) (cy : Cycle) (ps : List (ℕ × Bool)) (fs : List (ℕ × ℤ)) where
  -- The machine's answer to a command that is heeded, with what it calls.
  command_taken :
      (c : TransitionCmd) (s t : State) (m : StateMachine)
      → is_command c ≡ true
      → IsQuiet cy s ps fs m
      → works s ≡ false
      → commanded c s ≡ some t
      → Permits ps t
      → (n : StateMachine) × (change_state qt c m ≡ some (value true, n))
        × IsQuiet cy t ps fs n
        × (n.calls ≡ m.calls ++ on_state_changed t (state_to_string t) ∷ [])
  unfolding change_state change_answer
  command_taken c s t m p q v e a =
      let (n, answer, quiet) = request_taken qt cy c s t m p q v e a in
      let k = record m { prom = none; queue = [] } in
      let known = sym answer ∙ request_quiet qt cy c m p q.consistent q.runs q.nothing_queued in
      let same : n ≡ moved cy m.state_value (cmd_event c) k =
        ap (λ (o : Option (Bool × StateMachine)). elim o [ none ↦ n | some r ↦ r.1 ]) known in
      let h = heeded-some qt cy c s t m q e a in
      (
        n,
        rw p (ap (change_answer c) answer),
        quiet,
        ap (λ (x : StateMachine). x.calls) same
            ∙ (ap
                  (λ o.
                    (arrive m.state_value o
                      (replied (cmd_event c) (heard m.state_value o) k)).calls)
                  h
                ∙ arrive-calls m.state_value t
                    (replied (cmd_event c) (heard m.state_value (some t)) k)),
      )

  module _ (fuel k : ℕ) (w : Setting) (c : String) (cs : List String) (soon : k < fuel)
      (reach : AllReach w k (c ∷ cs))
      (willing : (d : String) (t : State) → w.approve_state d t ≡ true) where
    requested-Follows :
        (val : ℤ) (s t : State) (sys : System)
        → Holds cy ps fs (c ∷ cs) s sys
        → is_command (to_transition_cmd val) ≡ true
        → works s ≡ false
        → commanded (to_transition_cmd val) s ≡ some t
        → Permits ps t
        → (u : System) × (state_requested qt fuel w val sys
            ≡ some
                (responds (record new_response { success = true; error_code = success_code }), u))
          × Follows cy ps fs (c ∷ cs) s (t ∷ []) sys u
    unfolding publish_status
    requested-Follows val s t sys h p v e a =
        let command = to_transition_cmd val in
        let (m, answer, quiet, calls) =
          command_taken command s t sys.manager.machine p h.quiet v e a in
        let (x, told, manager, nodes) =
          state_told-agreed fuel k w t (with_machine sys m) c cs
            (heeded-is_enumerator cy command sys.manager.machine t
              (heeded-some qt cy command s t sys.manager.machine h.quiet e a))
            h.asks soon reach (λ d. willing d t) in
        (
          record x { manager = retrieve x.manager },
          state_requested-moved qt fuel w val sys x t m p answer calls told
              (ap (λ g. g.changed_prom) manager),
          record {
            ends = record {
              quiet = subst (λ g. IsQuiet cy t ps fs g.machine) (sym manager) quiet;
              asks = ap (λ g. g.clients) manager ∙ h.asks;
              held = ap (λ g. g.current_state) manager;
              nodes = λ d b. (nodes d b).0;
            };
            keeps_mode = ap (λ g. g.current_mode) manager;
            publishes = ap (λ g. g.published) manager;
          },
        )

    -- The machine runs with nothing queued in a state without a thread, which the manager and its
    -- clients hold; the requested number is a command that leads from there to `t`, and from `t`
    -- each state's completion leads to the next; the mode permits all of them and their operations
    -- succeed; there is at least one client, all are there, all answer by round `k` below the fuel,
    -- no `spin_once` blocks up to it, and every node approves every state. Then the request is
    -- answered with success, and when the threads of these states have ended one after the other
    -- the machine is quiet in the last state, the manager and every client hold it, the mode is as
    -- it was, and each of the states was published once, in order.
    pub ordered-Follows :
        (val : ℤ) (s t : State) (ts : List State) (sys : System)
        → Holds cy ps fs (c ∷ cs) s sys
        → is_command (to_transition_cmd val) ≡ true
        → works s ≡ false
        → commanded (to_transition_cmd val) s ≡ some t
        → Permits ps t
        → Completes cy ps fs t ts
        → (v u : System) × (state_requested qt fuel w val sys
            ≡ some
                (responds (record new_response { success = true; error_code = success_code }), v))
          × (works_told qt fuel w t ts v ≡ some u)
          × Follows cy ps fs (c ∷ cs) s (t ∷ ts) sys u
    ordered-Follows val s t ts sys h p v e a q =
        let (x, requested, one) = requested-Follows val s t sys h p v e a in
        let (u, told, rest) =
          works_told-Follows qt cy ps fs fuel k w c cs soon reach willing t ts x one.ends q in
        (x, u, requested, told, Follows-cons cy ps fs (c ∷ cs) s t ts sys x u one rest)
