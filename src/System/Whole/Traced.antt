-- ===== src/System/Whole/Traced.antt =====
-- Every step of the program keeps what its parts promise.
use packml_ros.Base.{
  ◌≡◌, refl, ap, ◌∙◌, subst, sym, inl, inr, List, ◌++◌, length, ℕ, ℤ, Bool, Bool-cases, true, false,
  Option, none, some,
}
use mathlib.Core.List.{append-nil}
use packml_ros.Qt.{QtEngine}
use packml_ros.Common.{State, ModeType, TransitionCmd, mode_of_val}
use packml_ros.Messages.{Response}
use packml_ros.Transitions.{cmd_eq}
use packml_ros.StateMachine.{StateMachine}
use packml_ros.StateMachine.Requests.{Expected, value, unexpected, change_mode, change_state}
use packml_ros.Diagram.{Cycle}
use packml_ros.Diagram.Modes.{change_mode-cases}
use packml_ros.Diagram.Runs as Machine
use packml_ros.Diagram.Runs.{IsTracked, choose_mode}
use packml_ros.Manager.Threads.{turns, both_start}
use packml_ros.System.Steps.{mode_published}
use packml_ros.System.Whole.Raced.Done.{turns-Reported}
use packml_ros.Diagram.Tracked.{Step-IsTracked}
use packml_ros.Diagram.Grown.{
  Grows, AfterChange, change_state-AfterChange, switched-calls, Step-Grows,
}
use packml_ros.Manager.{
  Service, Manager, to_transition_cmd, publish_status, on_mode_changed, on_change_mode,
  mode_changed, mode_response,
}
use packml_ros.Manager.States.{Outcome, since}
use packml_ros.Manager.Outcomes.{since-append}
use packml_ros.System.{System, Setting, mode_service, mode_requested, mode_told_to}
use packml_ros.System.Steps.{hear_all, state_requested, command_done, with_response, future_taken}
use packml_ros.System.Whole.{
  with_machine, Step, machine_steps, races, publishes_mode, requests_mode, requests_state, Reach,
  here, next,
}
use packml_ros.System.Whole.Reports.{states_of, states_of-append, Reported, publish_status-Reported}
use packml_ros.System.Whole.Told.{ToldSystem, hear_all-ToldSystem}

-- The machine's calls are a path through the diagram that ends where it stands, and the manager holds
-- and publishes some of the states that it was told.
pub record IsTraced (cy : Cycle) (g : Manager) : Type 0 where
  pub tracked : IsTracked cy g.machine
  pub reported : Reported (states_of g.machine.calls) g

module _ (qt : QtEngine) (cy : Cycle) where
  abbrev AfterSystem : Option System → Type 0
  AfterSystem none = Unit {0}
  AfterSystem (some t) = IsTraced cy t.manager

  told-AfterSystem :
      (m : StateMachine) (told : List State) (o : Option System)
      → IsTracked cy m
      → states_of m.calls ≡ told
      → ToldSystem m told o
      → AfterSystem o
  told-AfterSystem m told none i e h = tt
  told-AfterSystem m told (some t) i e h = record {
    tracked = subst (IsTracked cy) (sym h.0) i;
    reported = subst (λ l. Reported l t.manager) (sym (ap (λ n. states_of n.calls) h.0 ∙ e)) h.1;
  }

  -- The calls that a machine adds are heard.
  hear_all-AfterSystem :
      (fuel : ℕ) (w : Setting) (s : System) (m : StateMachine)
      → Reported (states_of s.manager.machine.calls) s.manager
      → IsTracked cy m
      → Grows s.manager.machine m
      → AfterSystem
          (hear_all fuel w (since (length s.manager.machine.calls) m.calls) (with_machine s m))
  hear_all-AfterSystem fuel w s m r i (cs, e) =
      let before = s.manager.machine.calls in
      let heard = ap (since (length before)) e ∙ since-append before cs in
      told-AfterSystem m (states_of before ++ states_of cs) _ i
        (ap states_of e ∙ states_of-append before cs)
        (subst
          (λ l.
            ToldSystem m (states_of before ++ states_of cs) (hear_all fuel w l (with_machine s m)))
          (sym heard)
          (hear_all-ToldSystem m (states_of before) fuel w cs (with_machine s m) refl r))

  abbrev AfterOutcome : Option (Outcome × System) → Type 0
  AfterOutcome none = Unit {0}
  AfterOutcome (some (o, t)) = IsTraced cy t.manager

  with_response-AfterOutcome :
      (r : Response) (o : Option System) → AfterSystem o → AfterOutcome (with_response r o)
  unfolding with_response
  with_response-AfterOutcome r none h = tt
  with_response-AfterOutcome r (some t) h = h

  future_taken-AfterOutcome : (o : Option System) → AfterSystem o → AfterOutcome (future_taken o)
  unfolding future_taken
  future_taken-AfterOutcome none h = tt
  future_taken-AfterOutcome (some t) h = record { tracked = h.tracked; reported = h.reported }

  command_done-AfterOutcome :
      (fuel : ℕ) (w : Setting) (s : System) (o : Option (Expected × StateMachine))
      → IsTraced cy s.manager
      → AfterChange qt cy s.manager.machine o
      → AfterOutcome (command_done fuel w s o)
  unfolding command_done
  command_done-AfterOutcome fuel w s none i h = tt
  command_done-AfterOutcome fuel w s (some (unexpected error, m)) i (k, g) =
      with_response-AfterOutcome _ _ (hear_all-AfterSystem fuel w s m i.reported k g)
  command_done-AfterOutcome fuel w s (some (value b, m)) i (k, g) =
      future_taken-AfterOutcome _ (hear_all-AfterSystem fuel w s m i.reported k g)

  state_requested-AfterOutcome :
      (fuel : ℕ) (w : Setting) (val : ℤ) (s : System)
      → IsTraced cy s.manager
      → AfterOutcome (state_requested qt fuel w val s)
  unfolding state_requested
  state_requested-AfterOutcome fuel w val s i =
      elim (Bool-cases (cmd_eq (to_transition_cmd val) TransitionCmd.no_command)) [
        | inl e ↦ rw e i
        | inr e ↦ rw e (
            command_done-AfterOutcome fuel w s
              (change_state qt (to_transition_cmd val) s.manager.machine) i
              (change_state-AfterChange qt cy (to_transition_cmd val) s.manager.machine i.tracked))
      ]

  -- `changeMode` tells no state.
  abbrev ModeKept : StateMachine → Option (Expected × StateMachine) → Type 0
  ModeKept m none = Unit {0}
  ModeKept m (some r) = IsTracked cy r.1 × (states_of r.1.calls ≡ states_of m.calls)

  change_mode-ModeKept :
      (mode : ModeType) (m : StateMachine) (o : Option (Expected × StateMachine))
      → IsTracked cy m
      → change_mode mode m ≡ o
      → ModeKept m o
  change_mode-ModeKept mode m none i e = tt
  change_mode-ModeKept mode m (some r) i e = (
    Step-IsTracked qt cy (choose_mode mode r e) i,
    elim (change_mode-cases cy mode m i.consistent.built_store e) [
      | inl s ↦
          ap (λ (n : StateMachine). states_of n.calls) s
          ∙ (ap states_of (switched-calls qt cy mode m)
              ∙ (states_of-append m.calls _ ∙ append-nil (states_of m.calls)))
      | inr s ↦ ap (λ (n : StateMachine). states_of n.calls) s
    ],
  )

  abbrev AfterMode : Option (Response × Manager) → Type 0
  AfterMode none = Unit {0}
  AfterMode (some (r, g)) = IsTraced cy g

  published-IsTraced : (g : Manager) → IsTraced cy g → IsTraced cy (publish_status g)
  unfolding publish_status
  published-IsTraced g i = record {
    tracked = i.tracked;
    reported = publish_status-Reported (states_of g.machine.calls) g i.reported;
  }

  mode_response-AfterMode :
      (g : Manager) (o : Option Bool) → IsTraced cy g → AfterMode (mode_response g o)
  unfolding mode_response
  mode_response-AfterMode g none i = tt
  mode_response-AfterMode g (some false) i = i
  mode_response-AfterMode g (some true) i =
      published-IsTraced (record g { current_mode = g.switching_mode })
        (record { tracked = i.tracked; reported = i.reported })

  mode_changed-AfterMode :
      (fuel : ℕ) (service : Service) (g : Manager) (o : Option (Expected × StateMachine))
      → Reported (states_of g.machine.calls) g
      → ModeKept g.machine o
      → AfterMode (mode_changed fuel service g o)
  unfolding mode_changed on_mode_changed
  mode_changed-AfterMode fuel service g none r k = tt
  mode_changed-AfterMode fuel service g (some (unexpected error, m)) r (i, e) = record {
    tracked = i;
    reported = subst (λ l. Reported l g) (sym e) r;
  }
  mode_changed-AfterMode fuel service g (some (value b, m)) r (i, e) =
      let k = record g { machine = m; current_mode = g.switching_mode } in
      mode_response-AfterMode (publish_status k) _ (
        published-IsTraced k
          (record { tracked = i; reported = subst (λ l. Reported l g) (sym e) r }))

  on_change_mode-AfterMode :
      (fuel : ℕ) (service : Service) (val : ℤ) (g : Manager)
      → IsTraced cy g
      → AfterMode (on_change_mode fuel service val g)
  unfolding on_change_mode
  on_change_mode-AfterMode fuel service val g i =
      mode_changed-AfterMode fuel service (record g { switching_mode = mode_of_val val })
        (change_mode (mode_of_val val) g.machine) i.reported
        (change_mode-ModeKept (mode_of_val val) g.machine _ i.tracked refl)

  abbrev AfterRequest : Option (Response × System) → Type 0
  AfterRequest none = Unit {0}
  AfterRequest (some (r, t)) = IsTraced cy t.manager

  mode_requested-AfterRequest :
      (fuel : ℕ) (w : Setting) (val : ℤ) (s : System)
      → IsTraced cy s.manager
      → AfterRequest (mode_requested fuel w val s)
  unfolding mode_requested mode_told_to
  mode_requested-AfterRequest fuel w val s i =
      after (on_change_mode fuel (mode_service w val s.node) val s.manager)
        (on_change_mode-AfterMode fuel (mode_service w val s.node) val s.manager i)
    where
      after :
          (o : Option (Response × Manager))
          → AfterMode o
          → AfterRequest (elim o [ none ↦ none | some (r, h) ↦ some (r, mode_told_to w val s h) ])
      after none h = tt
      after (some (r, g)) h = h

  Machine-IsTracked : {m n : StateMachine} → Machine.Reach qt m n → IsTracked cy m → IsTracked cy n
  Machine-IsTracked Machine.here i = i
  Machine-IsTracked (Machine.then r st) i = Step-IsTracked qt cy st (Machine-IsTracked r i)

  Step-IsTraced : (s t : System) → Step qt s t → IsTraced cy s.manager → IsTraced cy t.manager
  unfolding mode_published on_mode_changed
  Step-IsTraced _ _ (machine_steps fuel w s t m st e) i = subst AfterSystem e (
      hear_all-AfterSystem fuel w s m i.reported (Step-IsTracked qt cy st i.tracked)
        (Step-Grows qt cy st i.tracked.consistent))
  Step-IsTraced _ _ (races s m state mode blank order r e a b) i =
      let g = (with_machine s m).manager in
      let u = turns state mode order (both_start blank g) in
      let told = states_of s.manager.machine.calls in
      let (machine, reported) = turns-Reported state mode blank order g told a b i.reported in
      record {
        tracked = subst (IsTracked cy) (sym machine) (Machine-IsTracked r i.tracked);
        reported =
            subst (λ l. Reported l u.manager)
              (sym (ap (λ (n : StateMachine). states_of n.calls) machine ∙ e)) reported;
      }
  Step-IsTraced _ _ (publishes_mode s mode) i =
      published-IsTraced (record s.manager { current_mode = mode })
        (record { tracked = i.tracked; reported = i.reported })
  Step-IsTraced _ _ (requests_mode fuel w val s t r e) i =
      subst AfterRequest e (mode_requested-AfterRequest fuel w val s i)
  Step-IsTraced _ _ (requests_state fuel w val s t o e) i =
      subst AfterOutcome e (state_requested-AfterOutcome fuel w val s i)

  -- later
  pub Reach-IsTraced : (s t : System) → Reach qt s t → IsTraced cy s.manager → IsTraced cy t.manager
  Reach-IsTraced _ _ (here s) i = i
  Reach-IsTraced _ _ (next s t u r st) i = Step-IsTraced t u st (Reach-IsTraced s t r i)
