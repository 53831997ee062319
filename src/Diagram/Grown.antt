-- ===== src/Diagram/Grown.antt =====
-- A machine's calls are only added to.
use mathlib.Core.List.{append-nil, append_assoc}
use packml_ros.Base.{
  ◌≡◌, refl, sym, subst, ap, ◌∙◌, ℕ, zero, suc, Bool, true, false, inl, inr, Option, none, some,
  List, [], ◌∷◌, ◌++◌, arith, length, Bool-cases, if◌then◌else◌,
}
use packml_ros.Common.{State, ModeType, TransitionCmd, state_to_string}
use packml_ros.Events.{Payload, cmd_event, state_complete_event, error_event}
use packml_ros.Qt.{QtEngine}
use packml_ros.StateMachine.{StateMachine, Callback, on_state_changed, on_mode_changed}
use packml_ros.StateMachine.Run.{available, finish_operation, take_event, next_event, rounds}
use packml_ros.StateMachine.Requests.{
  Expected, post_event, set_execute, set_resetting, deactivate, is_command, request, change_state,
  change_answer, await, event_loop, answered,
}
use packml_ros.Diagram.{Cycle, next}
use packml_ros.Diagram.Answers.{heard}
use packml_ros.Diagram.Moves.{arrive, replied, moved}
use packml_ros.Diagram.Invariant.{IsConsistent, next_event-cons}
use packml_ros.Diagram.Modes.{switched, switched-frame, change_mode-cases}
use packml_ros.Diagram.Runs.{
  Step, handle, thread_ends, command, choose_mode, give_execute, give_resetting, halt, arrive-calls,
  IsTracked,
}
use packml_ros.Diagram.Tracked.{next_event-IsTracked, post_event-IsTracked}

abbrev pub Grows : StateMachine → StateMachine → Type 0
Grows m n = (cs : List Callback) × (n.calls ≡ m.calls ++ cs)

same-Grows : (m n : StateMachine) → n.calls ≡ m.calls → Grows m n
same-Grows m n e = ([], e ∙ sym (append-nil m.calls))

Grows-trans : (m n k : StateMachine) → Grows m n → Grows n k → Grows m k
Grows-trans m n k (cs, e) (ds, f) =
    (cs ++ ds, f ∙ (ap (λ l. l ++ ds) e ∙ append_assoc m.calls cs ds))

replied-calls : (e : Payload) (b : Bool) (m : StateMachine) → (replied e b m).calls ≡ m.calls
replied-calls (cmd_event c) b m = refl
replied-calls state_complete_event b m = refl
replied-calls (error_event code) b m = refl

arrive-Grows : (s : State) (o : Option State) (m : StateMachine) → Grows m (arrive s o m)
arrive-Grows s none m = same-Grows m m refl
arrive-Grows s (some t) m = (on_state_changed t (state_to_string t) ∷ [], arrive-calls s t m)

moved-Grows : (cy : Cycle) (s : State) (e : Payload) (m : StateMachine) → Grows m (moved cy s e m)
moved-Grows cy s e m =
    let r = replied e (heard s (next cy (available m) e s)) m in
    Grows-trans m r (moved cy s e m) (same-Grows m r (replied-calls e _ m))
      (arrive-Grows s (next cy (available m) e s) r)

module _ (qt : QtEngine) (cy : Cycle) where
  take_event-Grows :
      (q : List Payload) (m : StateMachine)
      → m.queue ≡ q
      → IsConsistent cy m
      → Grows m (next_event qt m)
  unfolding next_event take_event
  take_event-Grows [] m h c = same-Grows m (next_event qt m) (ap (λ q. (take_event qt q m).calls) h)
  take_event-Grows (e ∷ es) m h c =
      subst (Grows m) (sym (next_event-cons qt cy e es m h c))
        (moved-Grows cy m.state_value e (record m { queue = es }))

  -- Handling queued events keeps the trace and adds to it.
  rounds-IsTracked :
      (n : ℕ) (m : StateMachine)
      → IsTracked cy m
      → IsTracked cy (rounds qt n m) × Grows m (rounds qt n m)
  unfolding rounds
  rounds-IsTracked zero m i = (i, same-Grows m m refl)
  rounds-IsTracked (suc n) m i =
      let next = next_event qt m in
      let (j, g) = rounds-IsTracked n next (next_event-IsTracked qt cy m i) in
      (j, Grows-trans m next (rounds qt n next) (take_event-Grows m.queue m refl i.consistent) g)

  -- the promise is made anew
  fresh_prom-IsTracked :
      (m : StateMachine) → IsTracked cy m → IsTracked cy (record m { prom = none })
  fresh_prom-IsTracked m i = record {
    consistent = record {
      leaf = i.consistent.leaf;
      built_store = i.consistent.built_store;
      active_object = i.consistent.active_object;
      initial_object = i.consistent.initial_object;
      shown_name = i.consistent.shown_name;
      worker = i.consistent.worker;
      posted = i.consistent.posted;
    };
    path = i.path;
    stands = i.stands;
  }

  abbrev pub AfterChange : StateMachine → Option (Expected × StateMachine) → Type 0
  AfterChange m none = Unit {0}
  AfterChange m (some (answer, n)) = IsTracked cy n × Grows m n

  answered-AfterChange :
      (c : TransitionCmd) (b : Option Bool) (m n : StateMachine)
      → IsTracked cy n × Grows m n
      → AfterChange m (change_answer c (answered b n))
  unfolding change_answer
  answered-AfterChange c none m n h = tt
  answered-AfterChange c (some true) m n h = h
  answered-AfterChange c (some false) m n h = h

  perhaps-IsTracked :
      (runs : Bool) (m : StateMachine)
      → IsTracked cy m
      → let n = if runs then rounds qt (length m.queue) m else m in IsTracked cy n × Grows m n
  perhaps-IsTracked true m i = rounds-IsTracked (length m.queue) m i
  perhaps-IsTracked false m i = (i, same-Grows m m refl)

  event_loop-IsTracked :
      (m : StateMachine)
      → IsTracked cy m
      → IsTracked cy (event_loop qt m) × Grows m (event_loop qt m)
  unfolding event_loop
  event_loop-IsTracked m i = perhaps-IsTracked m.running m i

  await-AfterChange :
      (c : TransitionCmd) (m n : StateMachine)
      → n.calls ≡ m.calls
      → IsTracked cy n
      → AfterChange m (change_answer c (await qt n))
  unfolding await
  await-AfterChange c m n e i =
      let done = event_loop qt n in
      let (j, g) = event_loop-IsTracked n i in
      answered-AfterChange c done.prom m done (j, Grows-trans m n done (same-Grows m n e) g)

  post_event-calls : (e : Payload) (m : StateMachine) → (post_event e m).calls ≡ m.calls
  unfolding post_event
  post_event-calls e m = ground arith

  pub change_state-AfterChange :
      (c : TransitionCmd) (m : StateMachine) → IsTracked cy m → AfterChange m (change_state qt c m)
  unfolding change_state request
  change_state-AfterChange c m i = elim (Bool-cases (is_command c)) [
    | inl h ↦
        let k = record m { prom = none } in
        rw h (
          await-AfterChange c m (post_event (cmd_event c) k) (post_event-calls (cmd_event c) k)
            (post_event-IsTracked qt cy c k h (fresh_prom-IsTracked m i)))
    | inr h ↦ rw h (i, same-Grows m m refl)
  ]

  pub switched-calls :
      (mode : ModeType) (m : StateMachine)
      → (switched mode m).calls ≡ m.calls ++ on_mode_changed mode ∷ []
  switched-calls mode m = ap (λ (n : StateMachine). n.calls) (switched-frame mode m)

  pub Step-Grows : {m n : StateMachine} → Step qt m n → IsConsistent cy m → Grows m n
  unfolding finish_operation set_execute set_resetting deactivate
  Step-Grows {m} (handle r) i = take_event-Grows m.queue m refl i
  Step-Grows {m} (thread_ends p a w) i = same-Grows m (finish_operation p m) refl
  Step-Grows {m} (command c h) i =
      same-Grows m (post_event (cmd_event c) m) (post_event-calls (cmd_event c) m)
  Step-Grows {m} (choose_mode mode r e) i = elim (change_mode-cases cy mode m i.built_store e) [
    | inl s ↦
        (on_mode_changed mode ∷ [], ap (λ (n : StateMachine). n.calls) s ∙ switched-calls mode m)
    | inr s ↦ same-Grows m r.1 (ap (λ (n : StateMachine). n.calls) s)
  ]
  Step-Grows {m} (give_execute code) i = same-Grows m (set_execute code m).1 refl
  Step-Grows {m} (give_resetting code) i = same-Grows m (set_resetting code m).1 refl
  Step-Grows {m} halt i = same-Grows m (deactivate m).1 refl
