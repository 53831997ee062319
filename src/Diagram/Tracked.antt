-- ===== src/Diagram/Tracked.antt =====
-- The invariant of a run, step by step.
use packml_ros.Base.{
  ◌≡◌, refl, sym, subst, ap, ◌∙◌, true, inl, inr, Option, none, some, List, [], ◌∷◌, arith,
}
use packml_ros.Common.{State, ModeType, TransitionCmd, state_to_string}
use packml_ros.Events.{Payload, cmd_event}
use packml_ros.Qt.{QtEngine}
use packml_ros.StateMachine.{StateMachine}
use packml_ros.StateMachine.Run.{finish_operation, take_event, next_event}
use packml_ros.StateMachine.Requests.{
  post_event, set_execute, set_resetting, deactivate, is_command,
}
use packml_ros.Diagram.{Cycle}
use packml_ros.Diagram.Built.{works}
use packml_ros.Diagram.Answers.{is_posted}
use packml_ros.Diagram.Invariant.{
  IsConsistent, AllPosted, AllPosted-append, finish_operation-IsConsistent, next_event-IsConsistent,
  next_event-cons,
}
use packml_ros.Diagram.Commands.{IsBuilt, started, started-IsConsistent}
use packml_ros.Diagram.Modes.{switched, switched-frame, change_mode-cases}
use packml_ros.Diagram.Runs.{
  Step, handle, thread_ends, command, choose_mode, give_execute, give_resetting, halt, Reach, here,
  then, Follows, IsPath, last_state, IsPath-state, IsPath-mode, last_state-state, last_state-mode,
  IsTracked, IsTraced, moved-IsTraced,
}

module _ (qt : QtEngine) (cy : Cycle) where
  take_event-IsTraced :
      (q : List Payload) (m : StateMachine)
      → m.queue ≡ q
      → IsConsistent cy m
      → IsTraced cy m
      → IsTraced cy (next_event qt m)
  unfolding next_event take_event
  take_event-IsTraced [] m h c i = subst (IsTraced cy) (sym (ap (λ q. take_event qt q m) h)) i
  take_event-IsTraced (e ∷ es) m h c i =
      subst (IsTraced cy) (sym (next_event-cons qt cy e es m h c))
        (moved-IsTraced cy e (record m { queue = es }) i)

  switched-IsTracked :
      (mode : ModeType) (m : StateMachine) → IsTracked cy m → IsTracked cy (switched mode m)
  switched-IsTracked mode m i = subst (IsTracked cy) (sym (switched-frame mode m)) (record {
    consistent = record {
      leaf = i.consistent.leaf;
      built_store = i.consistent.built_store;
      active_object = i.consistent.active_object;
      initial_object = i.consistent.initial_object;
      shown_name = i.consistent.shown_name;
      worker = i.consistent.worker;
      posted = i.consistent.posted;
    };
    path = IsPath-mode cy none m.calls mode i.path;
    stands = last_state-mode none m.calls mode ∙ i.stands;
  })

  same-IsTracked :
      (m n : StateMachine)
      → IsTracked cy m
      → AllPosted n.queue
      → (n.working ≡ true → works m.state_value ≡ true)
      → (n ≡ record m {
        functions = n.functions;
        running = n.running;
        working = n.working;
        queue = n.queue;
      })
      → IsTracked cy n
  same-IsTracked m n i p w e = subst (IsTracked cy) (sym e) (record {
    consistent = record {
      leaf = i.consistent.leaf;
      built_store = i.consistent.built_store;
      active_object = i.consistent.active_object;
      initial_object = i.consistent.initial_object;
      shown_name = i.consistent.shown_name;
      worker = w;
      posted = p;
    };
    path = i.path;
    stands = i.stands;
  })

  post_event-AllPosted :
      (e : Payload) (m : StateMachine)
      → is_posted e ≡ true
      → AllPosted m.queue
      → AllPosted (post_event e m).queue
  unfolding post_event
  post_event-AllPosted e m h p = ground (arith, AllPosted-append m.queue (e ∷ []) p (h, tt))

  post_event-frame :
      (e : Payload) (m : StateMachine)
      → post_event e m ≡ record m { queue = (post_event e m).queue }
  unfolding post_event
  post_event-frame e m = ground arith

  pub next_event-IsTracked : (m : StateMachine) → IsTracked cy m → IsTracked cy (next_event qt m)
  next_event-IsTracked m i =
      let (p, l) = take_event-IsTraced m.queue m refl i.consistent (i.path, i.stands) in
      record { consistent = next_event-IsConsistent qt cy m i.consistent; path = p; stands = l }

  pub post_event-IsTracked :
      (c : TransitionCmd) (m : StateMachine)
      → is_command c ≡ true
      → IsTracked cy m
      → IsTracked cy (post_event (cmd_event c) m)
  post_event-IsTracked c m h i = subst (IsTracked cy) (sym (post_event-frame (cmd_event c) m)) (
      same-IsTracked m _ i (post_event-AllPosted (cmd_event c) m h i.consistent.posted)
        i.consistent.worker refl)

  pub Step-IsTracked : {m n : StateMachine} → Step qt m n → IsTracked cy m → IsTracked cy n
  unfolding finish_operation set_execute set_resetting deactivate
  Step-IsTracked {m} (handle r) i = next_event-IsTracked m i
  Step-IsTracked {m} (thread_ends p a w) i = record {
    consistent = finish_operation-IsConsistent cy p m i.consistent;
    path = i.path;
    stands = i.stands;
  }
  Step-IsTracked {m} (command c h) i = post_event-IsTracked c m h i
  Step-IsTracked {m} (choose_mode mode r e) i =
      elim (change_mode-cases cy mode m i.consistent.built_store e) [
        | inl s ↦ subst (IsTracked cy) (sym s) (switched-IsTracked mode m i)
        | inr s ↦ subst (IsTracked cy) (sym s) i
      ]
  Step-IsTracked {m} (give_execute code) i =
      same-IsTracked m _ i i.consistent.posted i.consistent.worker refl
  Step-IsTracked {m} (give_resetting code) i =
      same-IsTracked m _ i i.consistent.posted i.consistent.worker refl
  Step-IsTracked {m} halt i = same-IsTracked m _ i i.consistent.posted i.consistent.worker refl

  -- Take a machine as `init` built it, before any state was reported, and start it. On every run
  -- from there, whatever the order of handled events, ended threads, posted commands, chosen modes,
  -- set operations and halts, the states told to `on_state_changed` form a path through the PackML
  -- diagram that begins in ABORTED, each told with its own name, and that ends in the state that
  -- the machine shows and that Qt has active.
  pub Reach-IsTracked :
      (m n : StateMachine)
      → IsBuilt cy m
      → IsPath cy none m.calls
      → last_state none m.calls ≡ none
      → Reach qt (started m) n
      → IsTracked cy n
  Reach-IsTracked m n b p l here = record {
    consistent = started-IsConsistent cy m b;
    path = IsPath-state cy none m.calls State.aborted p (first (last_state none m.calls) l);
    stands = last_state-state none m.calls State.aborted (state_to_string State.aborted);
  }
    where
      first : (o : Option State) → o ≡ none → Follows cy o State.aborted
      first none h = refl
      first (some s) h = cc
  Reach-IsTracked m n b p l (then r st) = Step-IsTracked st (Reach-IsTracked m _ b p l r)
