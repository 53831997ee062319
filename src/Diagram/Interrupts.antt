-- ===== src/Diagram/Interrupts.antt =====
-- A command that finds a thread at work.
use packml_ros.Base.{
  ◌≡◌, refl, sym, subst, ap, ◌∙◌, ℕ, ℤ, Bool, true, Option, none, some, List, [], ◌∷◌, arith,
  assoc_get,
}
use packml_ros.Common.{State, TransitionCmd}
use packml_ros.Events.{cmd_event, state_complete_event}
use packml_ros.Qt.{QtEngine}
use packml_ros.StateMachine.{StateMachine}
use packml_ros.StateMachine.Run.{on_exit, finish_operation, operation_event, next_event, available}
use packml_ros.StateMachine.Requests.{request, is_command}
use packml_ros.Diagram.{Cycle, address, next, commanded, completed, permitted, is_abortable}
use packml_ros.Diagram.Built.{works}
use packml_ros.Diagram.Answers.{heard}
use packml_ros.Diagram.Moves.{moved}
use packml_ros.Diagram.Invariant.{IsConsistent, moved-IsConsistent, next_event-cons}
use packml_ros.Diagram.Behaviour.{
  IsQuiet, Permits, Succeeds, request_quiet, heeded-some, emptied-IsConsistent, or-false,
}

-- A running machine in state `t`, where only the event of the thread of `s` is queued.
pub record IsInterrupted (cy : Cycle) (s t : State) (ps : List (ℕ × Bool)) (fs : List (ℕ × ℤ))
    (m : StateMachine) : Type 0 where
  pub consistent : IsConsistent cy m
  pub runs : m.running ≡ true
  pub queued : m.queue ≡ operation_event (assoc_get fs (address s)) ∷ []
  pub in_state : m.state_value ≡ t
  pub threads : m.working ≡ works t
  pub properties_are : m.properties ≡ ps
  pub functions_are : m.functions ≡ fs

unqueued-IsConsistent :
    (cy : Cycle) (m : StateMachine) → IsConsistent cy m → IsConsistent cy (record m { queue = [] })
unqueued-IsConsistent cy m i = record {
  leaf = i.leaf;
  built_store = i.built_store;
  active_object = i.active_object;
  initial_object = i.initial_object;
  shown_name = i.shown_name;
  worker = i.worker;
  posted = tt;
}

module _ (qt : QtEngine) (cy : Cycle) {ps : List (ℕ × Bool)} {fs : List (ℕ × ℤ)} where
  -- A running machine with nothing queued is in a state whose thread is at work, the diagram leads
  -- from there by the command to another one, and the mode permits that one. Then the request is
  -- accepted and the machine is in that other state, with its properties and operations unchanged,
  -- and the event of the interrupted thread, which ran to its end, is queued.
  request_interrupts :
      (c : TransitionCmd) (s t : State) (m : StateMachine)
      → is_command c ≡ true
      → IsQuiet cy s ps fs m
      → works s ≡ true
      → commanded c s ≡ some t
      → Permits ps t
      → (n : StateMachine) × (request qt c m ≡ some (true, n)) × IsInterrupted cy s t ps fs n
  unfolding on_exit finish_operation
  request_interrupts c s t m p q v e a =
      let w = q.threads ∙ v in
      let h = heeded-some qt cy c s t m q e a in
      let k = record m { prom = none; queue = [] } in
      (
        moved cy m.state_value (cmd_event c) k,
        request_quiet qt cy c m p q.consistent q.runs q.nothing_queued
            ∙ ap (λ b. some (heard m.state_value b, moved cy m.state_value (cmd_event c) k)) h,
        record {
          consistent =
              moved-IsConsistent cy (cmd_event c) k (emptied-IsConsistent cy m q.consistent);
          runs = ground (arith, h, q.runs, w);
          queued = ground (arith, h, w, q.functions_are, q.in_state);
          in_state = ground (arith, h, w);
          threads = ground (arith, h, w, or-false (works t));
          properties_are = ground (arith, h, w, q.properties_are);
          functions_are = ground (arith, h, w, q.functions_are);
        },
      )

  -- The event that is queued is a completion, and is met in the state of the machine.
  completion-moved :
      (s t : State) (m : StateMachine)
      → IsInterrupted cy s t ps fs m
      → Succeeds fs s
      → next_event qt m ≡ moved cy m.state_value state_complete_event (record m { queue = [] })
  completion-moved s t m q f =
      next_event-cons qt cy state_complete_event [] m (q.queued ∙ ap (λ x. x ∷ []) f) q.consistent

  completion-next :
      (s t : State) (o : Option State) (m : StateMachine)
      → IsInterrupted cy s t ps fs m
      → permitted (assoc_get ps) (completed cy t) ≡ o
      → next cy (available m) state_complete_event m.state_value ≡ o
  completion-next s t o m q e =
      subst (λ b. permitted (assoc_get b) (completed cy m.state_value) ≡ o) (sym q.properties_are)
        (subst (λ v. permitted (assoc_get ps) (completed cy v) ≡ o) (sym q.in_state) e)

  -- The completion of `s` ends `t`, whose own thread runs to its end first.
  passed_on :
      (s t u : State) (m : StateMachine)
      → IsInterrupted cy s t ps fs m
      → Succeeds fs s
      → works t ≡ true
      → completed cy t ≡ some u
      → Permits ps u
      → IsInterrupted cy t u ps fs (next_event qt m)
  unfolding on_exit finish_operation
  passed_on s t u m q f v e a =
      let w = q.threads ∙ v in
      let k = record m { queue = [] } in
      let h =
        completion-next s t (some u) m q (ap (permitted (assoc_get ps)) e ∙ ground (arith, a)) in
      subst (IsInterrupted cy t u ps fs) (sym (completion-moved s t m q f)) (record {
        consistent =
            moved-IsConsistent cy state_complete_event k (unqueued-IsConsistent cy m q.consistent);
        runs = ground (arith, h, q.runs, w);
        queued = ground (arith, h, w, q.functions_are, q.in_state);
        in_state = ground (arith, h, w);
        threads = ground (arith, h, w, or-false (works u));
        properties_are = ground (arith, h, w, q.properties_are);
        functions_are = ground (arith, h, w, q.functions_are);
      })

  -- A state that no completion leaves drops it.
  dropped :
      (s t : State) (m : StateMachine)
      → IsInterrupted cy s t ps fs m
      → Succeeds fs s
      → completed cy t ≡ none
      → IsQuiet cy t ps fs (next_event qt m)
  dropped s t m q f e =
      let k = record m { queue = [] } in
      let h = completion-next s t none m q (ap (permitted (assoc_get ps)) e) in
      subst (IsQuiet cy t ps fs) (sym (completion-moved s t m q f)) (record {
        consistent =
            moved-IsConsistent cy state_complete_event k (unqueued-IsConsistent cy m q.consistent);
        runs = ground (arith, h, q.runs);
        nothing_queued = ground (arith, h);
        in_state = ground (arith, h, q.in_state);
        threads = ground (arith, h, q.threads);
        properties_are = ground (arith, h, q.properties_are);
        functions_are = ground (arith, h, q.functions_are);
      })

  -- A running machine with nothing queued is in a state that may be aborted and whose thread is at
  -- work, the mode permits ABORTING and ABORTED, and the operations of the state and of ABORTING
  -- end without an error. Then `abort` is accepted and the machine is in ABORTING with the
  -- completion of the interrupted state queued; the handling of that completion brings it to
  -- ABORTED with the completion of ABORTING queued; and the handling of that one leaves it in
  -- ABORTED with nothing queued.
  pub abort-aborted :
      (s : State) (m : StateMachine)
      → IsQuiet cy s ps fs m
      → is_abortable s ≡ true
      → works s ≡ true
      → Permits ps State.aborting × Permits ps State.aborted
      → Succeeds fs s × Succeeds fs State.aborting
      → (n : StateMachine) × (request qt TransitionCmd.abort m ≡ some (true, n))
        × IsInterrupted cy s State.aborting ps fs n
        × IsInterrupted cy State.aborting State.aborted ps fs (next_event qt n)
        × IsQuiet cy State.aborted ps fs (next_event qt (next_event qt n))
  abort-aborted s m q b v (a1, a2) (f1, f2) =
      let (n, r, i) =
        request_interrupts TransitionCmd.abort s State.aborting m refl q v (rw b) a1 in
      let j = passed_on s State.aborting State.aborted n i f1 refl refl a2 in
      (n, r, i, j, dropped State.aborting State.aborted (next_event qt n) j f2 refl)
