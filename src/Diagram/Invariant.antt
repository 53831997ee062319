-- ===== src/Diagram/Invariant.antt =====
-- The invariant of a running machine between two events.
use packml_ros.Base.{
  ◌≡◌, refl, sym, subst, ap, ◌∙◌, ℕ, zero, suc, ℤ, Bool, true, false, Option, none, some, List, [],
  ◌∷◌, ◌++◌, arith, assoc_get,
}
use packml_ros.Common.{State, state_to_string}
use packml_ros.Events.{Payload, cmd_event, state_complete_event, error_event}
use packml_ros.Qt.{QtEngine}
use packml_ros.StateMachine.{StateMachine}
use packml_ros.StateMachine.Run.{
  on_exit, finish_operation, operation_event, dispatch, take_event, next_event, rounds, available,
}
use packml_ros.Diagram.{Cycle, is_leaf, address, next}
use packml_ros.Diagram.Built.{store_of, works}
use packml_ros.Diagram.Answers.{is_posted}
use packml_ros.Diagram.Moves.{
  IsAt, IsTarget, enter_state, arrive, replied, moved, dispatch-moved, next-IsTarget,
}

abbrev pub AllPosted : List Payload → Type 0
AllPosted [] = Unit {0}
AllPosted (e ∷ es) = (is_posted e ≡ true) × AllPosted es

pub AllPosted-append : (xs ys : List Payload) → AllPosted xs → AllPosted ys → AllPosted (xs ++ ys)
AllPosted-append [] ys p q = q
AllPosted-append (x ∷ xs) ys p q = (p.0, AllPosted-append xs ys p.1 q)

pub record IsConsistent (cy : Cycle) (m : StateMachine) : Type 0 where
  pub leaf : is_leaf m.state_value ≡ true
  pub built_store : m.store ≡ store_of cy
  pub active_object : m.active ≡ some (address m.state_value)
  pub initial_object : m.initial ≡ some (address State.aborted)
  pub shown_name : m.state_name ≡ state_to_string m.state_value
  pub worker : m.working ≡ true → works m.state_value ≡ true
  pub posted : AllPosted m.queue

pub IsConsistent-IsAt :
    (cy : Cycle) (m : StateMachine) → IsConsistent cy m → IsAt cy m.state_value m
IsConsistent-IsAt cy m c = record {
  leaf = c.leaf;
  built_store = c.built_store;
  active_object = c.active_object;
}

operation_event-posted : (f : Option ℤ) → is_posted (operation_event f) ≡ true
unfolding operation_event
operation_event-posted f = ground arith

finish-AllPosted :
    (p : ℕ) (m : StateMachine) → AllPosted m.queue → AllPosted (finish_operation p m).queue
unfolding finish_operation
finish-AllPosted p m q =
    AllPosted-append m.queue _ q (operation_event-posted (assoc_get m.functions p), tt)

-- The thread's end keeps the invariant.
pub finish_operation-IsConsistent :
    (cy : Cycle) (p : ℕ) (m : StateMachine)
    → IsConsistent cy m
    → IsConsistent cy (finish_operation p m)
unfolding finish_operation
finish_operation-IsConsistent cy p m c = record {
  leaf = c.leaf;
  built_store = c.built_store;
  active_object = c.active_object;
  initial_object = c.initial_object;
  shown_name = c.shown_name;
  worker = λ h. cc;
  posted = finish-AllPosted p m c.posted;
}

on_exit-IsConsistent :
    (cy : Cycle) (p : ℕ) (m : StateMachine) → IsConsistent cy m → IsConsistent cy (on_exit p m)
unfolding on_exit
on_exit-IsConsistent cy p m c = ground (arith, finish_operation-IsConsistent cy p m c)

on_exit-idle : (p : ℕ) (m : StateMachine) → (on_exit p m).working ≡ false
unfolding on_exit
on_exit-idle p m = ground arith

replied-IsConsistent :
    (cy : Cycle) (e : Payload) (b : Bool) (m : StateMachine)
    → IsConsistent cy m
    → IsConsistent cy (replied e b m)
replied-IsConsistent cy e b m c = ground arith

enter_state-IsConsistent :
    (cy : Cycle) (t : State) (m : StateMachine)
    → is_leaf t ≡ true
    → m.working ≡ false
    → IsConsistent cy m
    → IsConsistent cy (enter_state t (record m { active = some (address t) }))
enter_state-IsConsistent cy t m leaf idle c = record {
  leaf = leaf;
  built_store = c.built_store;
  active_object = refl;
  initial_object = c.initial_object;
  shown_name = refl;
  worker = λ h. ground arith;
  posted = c.posted;
}

arrive-IsConsistent :
    (cy : Cycle) (s : State) (e : Payload) (n : Option State) (m : StateMachine)
    → IsTarget e n
    → IsConsistent cy m
    → IsConsistent cy (arrive s n m)
arrive-IsConsistent cy s e none m q c = c
arrive-IsConsistent cy s (cmd_event d) (some t) m q c =
    enter_state-IsConsistent cy t _ q (on_exit-idle (address s) m)
      (on_exit-IsConsistent cy (address s) m c)
arrive-IsConsistent cy s state_complete_event (some t) m q c =
    enter_state-IsConsistent cy t _ q (on_exit-idle (address s) m)
      (on_exit-IsConsistent cy (address s) m c)
arrive-IsConsistent cy s (error_event code) (some t) m q c =
    enter_state-IsConsistent cy t _ (ground arith) (on_exit-idle (address s) m)
      (on_exit-IsConsistent cy (address s) m c)

pub moved-IsConsistent :
    (cy : Cycle) (e : Payload) (m : StateMachine)
    → IsConsistent cy m
    → IsConsistent cy (moved cy m.state_value e m)
moved-IsConsistent cy e m c =
    arrive-IsConsistent cy m.state_value e (next cy (available m) e m.state_value) _
      (next-IsTarget cy (available m) e m.state_value) (replied-IsConsistent cy e _ m c)

pub queue-IsConsistent :
    (cy : Cycle) (es : List Payload) (m : StateMachine)
    → AllPosted es
    → IsConsistent cy m
    → IsConsistent cy (record m { queue = es })
queue-IsConsistent cy es m p c = record {
  leaf = c.leaf;
  built_store = c.built_store;
  active_object = c.active_object;
  initial_object = c.initial_object;
  shown_name = c.shown_name;
  worker = c.worker;
  posted = p;
}

module _ (qt : QtEngine) (cy : Cycle) where
  -- Handling an event is the diagram's move.
  dispatch-eq-moved :
      (e : Payload) (m : StateMachine)
      → IsConsistent cy m
      → is_posted e ≡ true
      → dispatch qt e m ≡ moved cy m.state_value e m
  dispatch-eq-moved e m c p = dispatch-moved qt cy m.state_value e m (IsConsistent-IsAt cy m c) p

  dispatch-IsConsistent :
      (e : Payload) (m : StateMachine)
      → IsConsistent cy m
      → is_posted e ≡ true
      → IsConsistent cy (dispatch qt e m)
  dispatch-IsConsistent e m c p =
      subst (IsConsistent cy) (sym (dispatch-eq-moved e m c p)) (moved-IsConsistent cy e m c)

  take_event-IsConsistent :
      (q : List Payload) (m : StateMachine)
      → AllPosted q
      → IsConsistent cy m
      → IsConsistent cy (take_event qt q m)
  unfolding take_event
  take_event-IsConsistent [] m p c = c
  take_event-IsConsistent (e ∷ es) m p c =
      dispatch-IsConsistent e (record m { queue = es }) (queue-IsConsistent cy es m p.1 c) p.0

  pub next_event-IsConsistent :
      (m : StateMachine) → IsConsistent cy m → IsConsistent cy (next_event qt m)
  unfolding next_event
  next_event-IsConsistent m c = take_event-IsConsistent m.queue m c.posted c

  -- Handling any number of queued events keeps the invariant of a machine: the store is as built,
  -- the active object is that of the shown state, the shown name is that state's, a thread runs
  -- only in an acting state, and only commands, completions and errors are queued.
  pub rounds-IsConsistent :
      (n : ℕ) (m : StateMachine) → IsConsistent cy m → IsConsistent cy (rounds qt n m)
  unfolding rounds
  rounds-IsConsistent zero m c = c
  rounds-IsConsistent (suc n) m c =
      rounds-IsConsistent n (next_event qt m) (next_event-IsConsistent m c)

  -- The head of the queue is handled as the diagram says.
  pub next_event-cons :
      (e : Payload) (es : List Payload) (m : StateMachine)
      → m.queue ≡ e ∷ es
      → IsConsistent cy m
      → next_event qt m ≡ moved cy m.state_value e (record m { queue = es })
  unfolding next_event take_event
  next_event-cons e es m h c =
      let p : AllPosted (e ∷ es) = subst AllPosted h c.posted in
      ap (λ q. take_event qt q m) h
      ∙ dispatch-eq-moved e (record m { queue = es }) (queue-IsConsistent cy es m p.1 c) p.0
