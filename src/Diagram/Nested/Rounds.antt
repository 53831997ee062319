-- ===== src/Diagram/Nested/Rounds.antt =====
-- Events handled with the super states left and entered.
use packml_ros.Base.{
  ◌≡◌, refl, sym, ap, subst, ◌∙◌, ℕ, zero, suc, true, Option, none, some, List, [], ◌∷◌, arith,
}
use packml_ros.Common.{State}
use packml_ros.Store.{Transition}
use packml_ros.Qt.{QtEngine, flatten, select-first_enabled}
use packml_ros.Events.{Payload, QEvent, cmd_event, state_complete_event, error_event}
use packml_ros.Transitions.{candidates, event_test}
use packml_ros.StateMachine.{StateMachine}
use packml_ros.StateMachine.Run.{
  take_transition, end_select_transitions, available, respond, settle, dispatch, take_event,
  next_event, rounds,
}
use packml_ros.StateMachine.Nested.{
  QtOrder, IsAmong, take_nested, settle_nested, respond_nested, take_event_nested, rounds_nested,
}
use packml_ros.Diagram.{Cycle, is_leaf, address, next}
use packml_ros.Diagram.Built.{store_of, works}
use packml_ros.Diagram.Answers.{is_posted, taken, response-taken}
use packml_ros.Diagram.Moves.{IsTarget, next-IsTarget}
use packml_ros.Diagram.Invariant.{AllPosted, IsConsistent, next_event-IsConsistent}
use packml_ros.Diagram.Nested.{first_enabled-IsAmong, take_nested-take_transition}

end_select_transitions-kept :
    (e : QEvent) (m : StateMachine)
    → ((end_select_transitions e m).store ≡ m.store)
      × ((end_select_transitions e m).working ≡ m.working)
unfolding end_select_transitions
end_select_transitions-kept e m = ground arith

module _ (order : QtOrder) (cy : Cycle) (s : State) (leaf : is_leaf s ≡ true) where
  take_nested-taken :
      (e : Payload) (n : Option State) (o : Option Transition) (m : StateMachine)
      → m.store ≡ store_of cy
      → (m.working ≡ true → works s ≡ true)
      → ((a : Transition) → o ≡ some a → IsAmong a (flatten (candidates m.store (address s))))
      → o ≡ taken e n
      → IsTarget e n
      → take_nested order (address s) o m ≡ take_transition (address s) o m
  unfolding take_nested take_transition
  take_nested-taken e none o m h w among q to = rw q refl
  take_nested-taken (cmd_event c) (some t) o m h w among q to =
      rw q (take_nested-take_transition order cy s t _ m leaf to h w (among _ q) refl)
  take_nested-taken state_complete_event (some t) o m h w among q to =
      rw q (take_nested-take_transition order cy s t _ m leaf to h w (among _ q) refl)
  take_nested-taken (error_event code) (some t) o m h w among q to =
      rw q
        (take_nested-take_transition order cy s State.aborting _ m leaf refl h w (among _ q) refl)

  respond-nested :
      (qt : QtEngine) (e : Payload) (m : StateMachine)
      → m.store ≡ store_of cy
      → (m.working ≡ true → works s ≡ true)
      → is_posted e ≡ true
      → respond_nested order qt (some (address s)) e m ≡ respond qt (some (address s)) e m
  unfolding respond_nested respond settle_nested settle
  respond-nested qt e m h w p =
      let ls = candidates m.store (address s) in
      let test = event_test qt (available m) in
      let ev : QEvent = record { payload = e; accepted = qt.born_accepted } in
      let r = qt.select ls test ev in
      let n = end_select_transitions r.1 m in
      let (store, working) = end_select_transitions-kept r.1 m in
      let choice : r.0 ≡ taken e (next cy (available m) e s) =
        ap (λ st. (qt.select (candidates st (address s)) test ev).0) h
        ∙ (response-taken qt (available m) cy s leaf e p).0 in
      take_nested-taken e (next cy (available m) e s) r.0 n (store ∙ h) (λ b. w (sym working ∙ b))
        (λ a q.
          subst (λ st. IsAmong a (flatten (candidates st (address s)))) (sym store)
            (first_enabled-IsAmong test (flatten ls) ev a
              (sym (ap (λ x. x.0) (select-first_enabled qt ls test ev)) ∙ q)))
        choice (next-IsTarget cy (available m) e s)

module _ (order : QtOrder) (qt : QtEngine) (cy : Cycle) where
  take_event-nested :
      (q : List Payload) (m : StateMachine)
      → AllPosted q
      → IsConsistent cy m
      → take_event_nested order qt q m ≡ take_event qt q m
  unfolding take_event_nested take_event dispatch
  take_event-nested [] m p c = refl
  take_event-nested (e ∷ es) m p c =
      let n = record m { queue = es } in
      subst (λ o. respond_nested order qt o e n ≡ respond qt o e n) (sym c.active_object)
        (respond-nested order cy m.state_value c.leaf qt e n c.built_store c.worker p.0)

  -- Whatever order Qt leaves and enters states in, as long as it leaves the active state before
  -- super states around it and enters super states around the target before the target: a
  -- consistent machine that handles any number of queued events with all these states left and
  -- entered is the machine that leaves and enters the active state and the target alone.
  pub rounds-nested :
      (n : ℕ) (m : StateMachine) → IsConsistent cy m → rounds_nested order qt n m ≡ rounds qt n m
  unfolding rounds_nested rounds next_event
  rounds-nested zero m c = refl
  rounds-nested (suc n) m c =
      ap (rounds_nested order qt n) (take_event-nested m.queue m c.posted c)
      ∙ rounds-nested n (next_event qt m) (next_event-IsConsistent qt cy m c)
