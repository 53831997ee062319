-- ===== src/Diagram/Moves.antt =====
-- The machine on its diagram: entering a state, and handling one event.
use packml_ros.Base.{
  ◌≡◌, refl, sym, ◌∙◌, ap, Bool, true, ◌||◌, Option, none, some, [], ◌∷◌, ◌++◌, arith, subst,
  get_elem?,
}
use packml_ros.Common.{State, state_to_string}
use packml_ros.Events.{Payload, QEvent, cmd_event, state_complete_event, error_event}
use packml_ros.Qt.{QtEngine}
use packml_ros.Transitions.{Available, candidates, event_test}
use packml_ros.StateMachine.{StateMachine, on_state_changed}
use packml_ros.StateMachine.Run.{
  on_entry, on_exit, settle, respond, dispatch, available, end_select_transitions, is_connected,
  take_transition, set_value,
}
use packml_ros.Diagram.{Cycle, single, continuous, is_leaf, address, next}
use packml_ros.Diagram.Built.{store_of, works, look, glance_of, look-object, is_connected-address}
use packml_ros.Diagram.Answers.{
  is_posted, taken, heard, response, response-taken, response-accepted,
}

-- A state is entered: it is shown, and the callback hears of it.
abbrev pub enter_state : State → StateMachine → StateMachine
enter_state t m = record m {
  state_value = t;
  state_name = state_to_string t;
  calls = m.calls ++ on_state_changed t (state_to_string t) ∷ [];
  working = works t || m.working;
}

-- `onEntry` of a state's object enters the state.
pub on_entry-enter_state :
    (cy : Cycle) (t : State) (m : StateMachine)
    → is_leaf t ≡ true
    → m.store ≡ store_of cy
    → on_entry (address t) m ≡ enter_state t m
unfolding on_entry
on_entry-enter_state cy t m leaf h = ground (
  arith,
  subst (λ s. look (get_elem? s.objects (address t)) ≡ some (glance_of t)) (sym h)
      (look-object cy t leaf),
  subst (λ s. is_connected (address t) s.connections ≡ true) (sym h)
      (is_connected-address cy t leaf),
)

-- A command event answers the promise.
abbrev pub replied : Payload → Bool → StateMachine → StateMachine
replied (cmd_event c) b m = set_value b m
replied e b m = m

-- A transition that is taken leaves one state and enters another.
abbrev pub arrive : State → Option State → StateMachine → StateMachine
arrive s none m = m
arrive s (some t) m = enter_state t (record (on_exit (address s) m) { active = some (address t) })

end_select_transitions-replied :
    (ev : QEvent) (m : StateMachine)
    → end_select_transitions ev m ≡ replied ev.payload ev.accepted m
unfolding end_select_transitions
end_select_transitions-replied ev m = ground arith

on_exit-store : (s : State) (m : StateMachine) → (on_exit (address s) m).store ≡ m.store
unfolding on_exit
on_exit-store s m = ground arith

-- The diagram leads to its own states, and an error leads to ABORTING.
abbrev pub IsTarget : Payload → Option State → Type 0
IsTarget e none = Unit {0}
IsTarget (error_event code) (some t) = t ≡ State.aborting
IsTarget e (some t) = is_leaf t ≡ true

pub next-IsTarget :
    (cy : Cycle) (av : Available) (e : Payload) (s : State) → IsTarget e (next cy av e s)
next-IsTarget cy av (cmd_event c) s = ground arith
next-IsTarget single av state_complete_event s = ground arith
next-IsTarget continuous av state_complete_event s = ground arith
next-IsTarget cy av (error_event code) s = ground arith

take_transition-arrive :
    (cy : Cycle) (s : State) (e : Payload) (n : Option State) (m : StateMachine)
    → m.store ≡ store_of cy
    → IsTarget e n
    → take_transition (address s) (taken e n) m ≡ arrive s n m
unfolding take_transition
take_transition-arrive cy s e none m h q = refl
take_transition-arrive cy s (cmd_event c) (some t) m h q =
    on_entry-enter_state cy t _ q (on_exit-store s m ∙ h)
take_transition-arrive cy s state_complete_event (some t) m h q =
    on_entry-enter_state cy t _ q (on_exit-store s m ∙ h)
take_transition-arrive cy s (error_event code) (some t) m h q =
    rw q (on_entry-enter_state cy State.aborting _ refl (on_exit-store s m ∙ h))

-- A machine of the cycle that stands in state `s`.
pub record IsAt (cy : Cycle) (s : State) (m : StateMachine) : Type 0 where
  pub leaf : is_leaf s ≡ true
  pub built_store : m.store ≡ store_of cy
  pub active_object : m.active ≡ some (address s)

-- The machine after one event, by the diagram.
abbrev pub moved : Cycle → State → Payload → StateMachine → StateMachine
moved cy s e m =
    arrive s (next cy (available m) e s) (replied e (heard s (next cy (available m) e s)) m)

module _ (qt : QtEngine) where
  dispatch-response :
      (cy : Cycle) (s : State) (e : Payload) (m : StateMachine)
      → IsAt cy s m
      → dispatch qt e m ≡ settle (address s) (response qt (available m) cy s e) m
  unfolding dispatch
  dispatch-response cy s e m at =
      ap (λ a. respond qt a e m) at.active_object
      ∙ ap
          (λ st.
            settle (address s)
              (qt.select (candidates st (address s)) (event_test qt (available m))
                (record { payload = e; accepted = qt.born_accepted }))
              m)
          at.built_store

  replied-accepted :
      (cy : Cycle) (s : State) (e : Payload) (m : StateMachine)
      → is_leaf s ≡ true
      → is_posted e ≡ true
      → replied e (response qt (available m) cy s e).1.accepted m
        ≡ replied e (heard s (next cy (available m) e s)) m
  replied-accepted cy s (cmd_event c) m leaf p =
      rw (response-accepted qt (available m) cy s leaf c p)
  replied-accepted cy s state_complete_event m leaf p = refl
  replied-accepted cy s (error_event code) m leaf p = refl

  replied-store : (e : Payload) (b : Bool) (m : StateMachine) → (replied e b m).store ≡ m.store
  replied-store e b m = ground arith

  -- A machine whose active object is that of the diagram's state `s`, with the store that `init`
  -- built, handles a posted event exactly as the diagram does: it answers a command, leaves `s` if
  -- the diagram has a next state, ends the thread of `s` first, and enters and reports that next
  -- state.
  pub dispatch-moved :
      (cy : Cycle) (s : State) (e : Payload) (m : StateMachine)
      → IsAt cy s m
      → is_posted e ≡ true
      → dispatch qt e m ≡ moved cy s e m
  unfolding settle
  dispatch-moved cy s e m at p =
      let r = response qt (available m) cy s e in
      let n = next cy (available m) e s in
      let t = response-taken qt (available m) cy s at.leaf e p in
      dispatch-response cy s e m at
      ∙ (ap (λ x. take_transition (address s) x (end_select_transitions r.1 m)) t.0
          ∙ (ap (take_transition (address s) (taken e n)) (
                end_select_transitions-replied r.1 m
                ∙ (ap (λ q. replied q r.1.accepted m) t.1 ∙ replied-accepted cy s e m at.leaf p))
              ∙ take_transition-arrive cy s e n _ (replied-store e _ m ∙ at.built_store)
                  (next-IsTarget cy (available m) e s)))
