-- ===== src/Diagram/Work.antt =====
-- Work that is done, or that ends with an error.
use packml_ros.Base.{
  ◌≡◌, refl, sym, subst, ap, ◌∙◌, ℕ, ℤ, Bool, true, false, some, List, [], ◌∷◌, ◌++◌, arith,
  assoc_get,
}
use packml_ros.Common.{State, TransitionCmd, state_to_string}
use packml_ros.Events.{Payload, cmd_event, state_complete_event, error_event}
use packml_ros.Qt.{QtEngine}
use packml_ros.StateMachine.{StateMachine, on_state_changed}
use packml_ros.StateMachine.Run.{on_exit, finish_operation, operation_event, available}
use packml_ros.StateMachine.Requests.{request}
use packml_ros.Diagram.{Cycle, single, address, next, completed, permitted, wanted, is_abortable}
use packml_ros.Diagram.Built.{works}
use packml_ros.Diagram.Moves.{moved, arrive}
use packml_ros.Diagram.Runs.{arrive-calls}
use packml_ros.Diagram.Invariant.{
  IsConsistent, moved-IsConsistent, next_event-cons, finish_operation-IsConsistent,
}
use packml_ros.Diagram.Behaviour.{IsQuiet, Permits, Succeeds, work, or-false, request_taken}

-- The operation of state `s` ends with an error.
abbrev Fails : List (ℕ × ℤ) → State → ℤ → Type 0
Fails fs s code = operation_event (assoc_get fs (address s)) ≡ error_event code

-- An event that a thread posts.
abbrev is_own : Payload → Bool
is_own (cmd_event c) = false
is_own e = true

-- The thread of the state ends, and its event is the only one: the diagram moves by it.
pub work-moved :
    (qt : QtEngine) (cy : Cycle) {ps : List (ℕ × Bool)} {fs : List (ℕ × ℤ)} (s : State)
    (e : Payload) (m : StateMachine)
    → IsQuiet cy s ps fs m
    → operation_event (assoc_get fs (address s)) ≡ e
    → work qt s m ≡ moved cy m.state_value e (record m { working = false; queue = [] })
unfolding finish_operation on_exit
work-moved qt cy {ps} {fs} s e m q f =
    next_event-cons qt cy e [] (finish_operation (address s) m) queued
      (finish_operation-IsConsistent cy (address s) m q.consistent)
  where
    queued : (finish_operation (address s) m).queue ≡ e ∷ []
    queued =
        ap (λ l. l ++ operation_event (assoc_get m.functions (address s)) ∷ []) q.nothing_queued
        ∙ ap (λ x. operation_event (assoc_get x (address s)) ∷ []) q.functions_are
        ∙ ap (λ x. x ∷ []) f

module _ (qt : QtEngine) (cy : Cycle) {ps : List (ℕ × Bool)} {fs : List (ℕ × ℤ)} where
  -- The machine's own state and properties lead where those of the diagram do.
  next-wanted :
      (s t : State) (e : Payload) (m : StateMachine)
      → IsQuiet cy s ps fs m
      → permitted (assoc_get ps) (wanted cy e s) ≡ some t
      → next cy (available m) e m.state_value ≡ some t
  next-wanted s t e m q a =
      subst (λ b. permitted (assoc_get b) (wanted cy e m.state_value) ≡ some t)
        (sym q.properties_are)
        (subst (λ v. permitted (assoc_get ps) (wanted cy e v) ≡ some t) (sym q.in_state) a)

  -- The thread of `s` ends, and its event leads to `t`.
  work-IsQuiet :
      (s t : State) (e : Payload) (m : StateMachine)
      → IsQuiet cy s ps fs m
      → operation_event (assoc_get fs (address s)) ≡ e
      → is_own e ≡ true
      → permitted (assoc_get ps) (wanted cy e s) ≡ some t
      → IsQuiet cy t ps fs (work qt s m)
  unfolding finish_operation on_exit
  work-IsQuiet s t e m q f o a =
      subst (IsQuiet cy t ps fs) (sym (work-moved qt cy s e m q f)) (record {
        consistent = moved-IsConsistent cy e k kept;
        runs = ground (arith, h, o, q.runs);
        nothing_queued = ground (arith, h, o);
        in_state = ground (arith, h, o);
        threads = ground (arith, h, o, or-false (works t));
        properties_are = ground (arith, h, o, q.properties_are);
        functions_are = ground (arith, h, o, q.functions_are);
      })
    where
      k : StateMachine
      k = record m { working = false; queue = [] }

      kept : IsConsistent cy k
      kept = record {
        leaf = q.consistent.leaf;
        built_store = q.consistent.built_store;
        active_object = q.consistent.active_object;
        initial_object = q.consistent.initial_object;
        shown_name = q.consistent.shown_name;
        worker = λ x. cc;
        posted = tt;
      }

      h : next cy (available m) e m.state_value ≡ some t
      h = next-wanted s t e m q a

  -- A running machine with nothing queued is in a state whose completion leads to another one, the
  -- mode permits that one, and the operation ends without an error. Then after the thread's end and
  -- the handling of its event the machine is in that other state, with nothing queued and its
  -- properties and operations unchanged.
  pub work_done :
      (s t : State) (m : StateMachine)
      → IsQuiet cy s ps fs m
      → completed cy s ≡ some t
      → Permits ps t
      → Succeeds fs s
      → IsQuiet cy t ps fs (work qt s m)
  work_done s t m q e a f =
      work-IsQuiet s t state_complete_event m q f refl (rw e (ground (arith, a)))

  -- The state that is entered is told.
  pub work_done-calls :
      (s t : State) (m : StateMachine)
      → IsQuiet cy s ps fs m
      → completed cy s ≡ some t
      → Permits ps t
      → Succeeds fs s
      → (work qt s m).calls ≡ m.calls ++ on_state_changed t (state_to_string t) ∷ []
  work_done-calls s t m q e a f =
      let k = record m { working = false; queue = [] } in
      ap (λ (n : StateMachine). n.calls) (work-moved qt cy s state_complete_event m q f)
      ∙ (ap (λ o. (arrive m.state_value o k).calls)
            (next-wanted s t state_complete_event m q (rw e (ground (arith, a))))
          ∙ arrive-calls m.state_value t k)

  -- A running machine with nothing queued is in a state that may be aborted, the mode permits
  -- ABORTING, and the operation of the state ends with an error. Then after the thread's end and
  -- the handling of its event the machine is in ABORTING, with nothing queued and its properties
  -- and operations unchanged.
  work_failed :
      (s : State) (code : ℤ) (m : StateMachine)
      → IsQuiet cy s ps fs m
      → is_abortable s ≡ true
      → Permits ps State.aborting
      → Fails fs s code
      → IsQuiet cy State.aborting ps fs (work qt s m)
  work_failed s code m q b a f =
      work-IsQuiet s State.aborting (error_event code) m q f refl (ground (arith, a, b))

-- A single-cycle machine runs in IDLE with nothing queued, the mode permits STARTING, EXECUTE,
-- COMPLETING and COMPLETE, and the operations of the first three end without an error. Then `start`
-- is accepted, and once the threads of STARTING, EXECUTE and COMPLETING have ended one after the
-- other the machine is in COMPLETE.
start-complete :
    (qt : QtEngine) (ps : List (ℕ × Bool)) (fs : List (ℕ × ℤ)) (m : StateMachine)
    → IsQuiet single State.idle ps fs m
    → Permits ps State.starting
      × Permits ps State.execute
      × Permits ps State.completing
      × Permits ps State.complete
    → Succeeds fs State.starting × Succeeds fs State.execute × Succeeds fs State.completing
    → (n : StateMachine) × (request qt TransitionCmd.start m ≡ some (true, n))
      × IsQuiet single State.complete ps fs
          (work qt State.completing (work qt State.execute (work qt State.starting n)))
start-complete qt ps fs m q p f =
    let (n, e, q1) =
      request_taken qt single TransitionCmd.start State.idle State.starting m refl q refl refl
        p.0 in
    let q2 = work_done qt single State.starting State.execute n q1 refl p.1 f.0 in
    let q3 = work_done qt single State.execute State.completing _ q2 refl p.2 f.1 in
    (n, e, work_done qt single State.completing State.complete _ q3 refl p.3 f.2)
