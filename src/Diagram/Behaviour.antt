-- ===== src/Diagram/Behaviour.antt =====
-- What a client sees of a machine whose queue is empty.
use packml_ros.Base.{
  ◌≡◌, sym, subst, ap, ◌∙◌, ℕ, ℤ, Bool, true, false, ◌||◌, none, some, List, [], ◌∷◌, ◌++◌, arith,
  length, assoc_get,
}
use packml_ros.Common.{State, TransitionCmd}
use packml_ros.Events.{Payload, cmd_event, state_complete_event}
use packml_ros.Qt.{QtEngine}
use packml_ros.StateMachine.{StateMachine}
use packml_ros.StateMachine.Run.{on_exit, finish_operation, operation_event, next_event, rounds}
use packml_ros.StateMachine.Requests.{request, is_command}
use packml_ros.Diagram.{Cycle, address, commanded, permitted}
use packml_ros.Diagram.Built.{works}
use packml_ros.Diagram.Answers.{heard}
use packml_ros.Diagram.Moves.{moved}
use packml_ros.Diagram.Invariant.{IsConsistent, moved-IsConsistent}
use packml_ros.Diagram.Commands.{NoCommands, request_lem, meets, heeded}

-- A running machine in state `s` with nothing queued, under given properties and operations.
pub record IsQuiet (cy : Cycle) (s : State) (ps : List (ℕ × Bool)) (fs : List (ℕ × ℤ))
    (m : StateMachine) : Type 0 where
  pub consistent : IsConsistent cy m
  pub runs : m.running ≡ true
  pub nothing_queued : m.queue ≡ []
  pub in_state : m.state_value ≡ s
  pub threads : m.working ≡ works s
  pub properties_are : m.properties ≡ ps
  pub functions_are : m.functions ≡ fs

-- A request is answered at once, by the diagram.
pub request_quiet :
    (qt : QtEngine) (cy : Cycle) (c : TransitionCmd) (m : StateMachine)
    → is_command c ≡ true
    → IsConsistent cy m
    → m.running ≡ true
    → m.queue ≡ []
    → request qt c m
      ≡ some (
        heard m.state_value (heeded cy c m),
        moved cy m.state_value (cmd_event c) (record m { prom = none; queue = [] }),
      )
unfolding rounds
request_quiet qt cy c m p i r q = answer (
    subst Answer at_once (
      let (rest, h, e, t) = request_lem qt cy c m p i r (subst NoCommands (sym q) tt) in
      (rest, h, e)))
  where
    Answer : StateMachine → Type 0
    Answer n =
        (rest : List Payload) × (n.queue ≡ cmd_event c ∷ rest)
        × (request qt c m
            ≡ some (
              heard n.state_value (heeded cy c n),
              moved cy n.state_value (cmd_event c) (record n { queue = rest }),
            ))

    at_once : meets qt c m ≡ record m { prom = none; queue = cmd_event c ∷ [] }
    at_once =
        ap (λ l. rounds qt (length l) (record m { prom = none; queue = l ++ cmd_event c ∷ [] })) q

    answer :
        Answer (record m { prom = none; queue = cmd_event c ∷ [] })
        → request qt c m
          ≡ some (
            heard m.state_value (heeded cy c m),
            moved cy m.state_value (cmd_event c) (record m { prom = none; queue = [] }),
          )
    answer (rest, h, e) =
        e
        ∙ ap
            (λ l. some (
              heard m.state_value (heeded cy c m),
              moved cy m.state_value (cmd_event c) (record m { prom = none; queue = l }),
            ))
            (cc h)

-- The properties let state `t` be entered.
abbrev pub Permits : List (ℕ × Bool) → State → Type 0
Permits ps t = assoc_get ps (address t) ≡ some true

-- The operation of state `s` ends without an error.
abbrev pub Succeeds : List (ℕ × ℤ) → State → Type 0
Succeeds fs s = operation_event (assoc_get fs (address s)) ≡ state_complete_event

pub emptied-IsConsistent :
    (cy : Cycle) (m : StateMachine)
    → IsConsistent cy m
    → IsConsistent cy (record m { prom = none; queue = [] })
emptied-IsConsistent cy m i = record {
  leaf = i.leaf;
  built_store = i.built_store;
  active_object = i.active_object;
  initial_object = i.initial_object;
  shown_name = i.shown_name;
  worker = i.worker;
  posted = tt;
}

-- The thread of the state ends, and its event is handled.
abbrev pub work : QtEngine → State → StateMachine → StateMachine
work qt s m = next_event qt (finish_operation (address s) m)

pub or-false : (b : Bool) → (b || false) ≡ b
or-false b = ground arith

module _ (qt : QtEngine) (cy : Cycle) {ps : List (ℕ × Bool)} {fs : List (ℕ × ℤ)} where
  pub heeded-some :
      (c : TransitionCmd) (s t : State) (m : StateMachine)
      → IsQuiet cy s ps fs m
      → commanded c s ≡ some t
      → Permits ps t
      → heeded cy c m ≡ some t
  heeded-some c s t m q e p =
      subst (λ a. permitted (assoc_get a) (commanded c m.state_value) ≡ some t)
        (sym q.properties_are)
        (subst (λ v. permitted (assoc_get ps) (commanded c v) ≡ some t) (sym q.in_state)
          (ap (permitted (assoc_get ps)) e ∙ ground (arith, p)))

  -- A running machine with nothing queued is in a state without a thread, the diagram leads from
  -- there by the command to a state, and the mode permits that state. Then the request is accepted
  -- and the machine is in that state, with nothing queued and its properties and operations
  -- unchanged.
  pub request_taken :
      (c : TransitionCmd) (s t : State) (m : StateMachine)
      → is_command c ≡ true
      → IsQuiet cy s ps fs m
      → works s ≡ false
      → commanded c s ≡ some t
      → Permits ps t
      → (n : StateMachine) × (request qt c m ≡ some (true, n)) × IsQuiet cy t ps fs n
  unfolding on_exit
  request_taken c s t m p q v e a =
      let w = q.threads ∙ v in
      let h = heeded-some c s t m q e a in
      let k = record m { prom = none; queue = [] } in
      (
        moved cy m.state_value (cmd_event c) k,
        request_quiet qt cy c m p q.consistent q.runs q.nothing_queued
            ∙ ap (λ b. some (heard m.state_value b, moved cy m.state_value (cmd_event c) k)) h,
        record {
          consistent =
              moved-IsConsistent cy (cmd_event c) k (emptied-IsConsistent cy m q.consistent);
          runs = ground (arith, h, q.runs, w);
          nothing_queued = ground (arith, h, w);
          in_state = ground (arith, h, w);
          threads = ground (arith, h, w, or-false (works t));
          properties_are = ground (arith, h, w, q.properties_are);
          functions_are = ground (arith, h, w, q.functions_are);
        },
      )
