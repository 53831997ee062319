-- ===== src/System/Always.antt =====
-- What holds of the system on every run: a predicate that the telling of news, a move of the machine
-- and the taking of a promise's future keep.
use packml_ros.Qt.{QtEngine}
use packml_ros.Common.{State, ModeType, TransitionCmd}
use packml_ros.Transitions.{cmd_eq}
use packml_ros.StateMachine.{StateMachine, Callback}
use packml_ros.StateMachine.Requests.{Expected, value, unexpected, change_state}
use packml_ros.Base.{
  refl, subst, ℕ, ℤ, Option, none, some, List, [], ◌∷◌, length, Bool-cases, inl, inr,
}
use packml_ros.Messages.{Response}
use packml_ros.Manager.{
  Service, Manager, to_transition_cmd, publish_status, on_mode_changed, on_state_changed,
  on_change_mode,
}
use packml_ros.Manager.States.{Outcome, since, retrieve}
use packml_ros.System.{
  System, Setting, state_told, mode_requested, state_told_to, mode_told_to, state_service,
  mode_service,
}
use packml_ros.System.Steps.{
  Step, machine_moves, hears, requests_mode, requests_state, Reach, here, next, hear_all,
  command_done, state_requested, mode_published, then_hear_all, with_response, future_taken,
}
use packml_ros.System.Told.{
  manager_view, Tells, Told, Answered, status_of, on_state_changed-Told, on_change_mode-Answered,
}

-- From one manager to the next, the news tell of it.
abbrev pub Follows : Manager → Manager → Type 0
Follows g h = Tells g.published (manager_view g) h

-- `P` is kept when a state is handed over, when a mode is asked for, when a status is published, when
-- the machine moves and when the future of a promise is taken.
pub record IsKept (P : System → Type 0) : Type 0 where
  pub after_state :
      (w : Setting) (state : State) (s : System) (h : Manager)
      → P s
      → Follows s.manager h
      → P (state_told_to w state s h)
  pub after_mode :
      (w : Setting) (val : ℤ) (s : System) (h : Manager)
      → P s
      → Follows s.manager h
      → P (mode_told_to w val s h)
  pub after_status : (s : System) (h : Manager) → P s → Follows s.manager h → P (mode_published s h)
  pub after_machine :
      (s : System) (m : StateMachine)
      → P s
      → P (record s { manager = record s.manager { machine = m } })
  pub after_promise : (s : System) → P s → P (record s { manager = retrieve s.manager })

on_mode_changed-Tells : (mode : ModeType) (g : Manager) → Follows g (on_mode_changed mode g)
unfolding on_mode_changed publish_status
on_mode_changed-Tells mode g = record {
  statuses = status_of (record g { current_mode = mode }) ∷ [];
  adds = refl;
  leads = refl;
}

module _ (P : System → Type 0) (k : IsKept P) where
  abbrev AfterState : Option System → Type 0
  AfterState none = Unit {0}
  AfterState (some t) = P t

  abbrev AfterMode : Option (Response × System) → Type 0
  AfterMode none = Unit {0}
  AfterMode (some (r, t)) = P t

  state_told-AfterState :
      (fuel : ℕ) (w : Setting) (state : State) (s : System)
      → P s
      → AfterState (state_told fuel w state s)
  unfolding state_told
  state_told-AfterState fuel w state s i =
      after (on_state_changed fuel service state s.manager)
        (on_state_changed-Told fuel service state s.manager)
    where
      service : Service
      service = state_service w state s.node

      after :
          (o : Option Manager)
          → Told s.manager.published (manager_view s.manager) o
          → AfterState (elim o [ none ↦ none | some h ↦ some (state_told_to w state s h) ])
      after none t = tt
      after (some h) t = k.after_state w state s h i t

  mode_requested-AfterMode :
      (fuel : ℕ) (w : Setting) (val : ℤ) (s : System)
      → P s
      → AfterMode (mode_requested fuel w val s)
  unfolding mode_requested
  mode_requested-AfterMode fuel w val s i =
      after (on_change_mode fuel service val s.manager)
        (on_change_mode-Answered fuel service val s.manager)
    where
      service : Service
      service = mode_service w val s.node

      after :
          (o : Option (Response × Manager))
          → Answered s.manager.published (manager_view s.manager) o
          → AfterMode (elim o [ none ↦ none | some (r, h) ↦ some (r, mode_told_to w val s h) ])
      after none t = tt
      after (some (r, h)) t = k.after_mode w val s h i t

  then-AfterState :
      (f : System → Option System) (o : Option System)
      → ((t : System) → P t → AfterState (f t))
      → AfterState o
      → AfterState (then_hear_all f o)
  unfolding then_hear_all
  then-AfterState f none h i = tt
  then-AfterState f (some t) h i = h t i

  hear_all-AfterState :
      (fuel : ℕ) (w : Setting) (cs : List Callback) (s : System)
      → P s
      → AfterState (hear_all fuel w cs s)
  unfolding hear_all
  hear_all-AfterState fuel w [] s i = i
  hear_all-AfterState fuel w (Callback.on_state_changed state name ∷ cs) s i =
      then-AfterState (hear_all fuel w cs) (state_told fuel w state s)
        (hear_all-AfterState fuel w cs) (state_told-AfterState fuel w state s i)
  hear_all-AfterState fuel w (Callback.on_mode_changed mode ∷ cs) s i =
      hear_all-AfterState fuel w cs (mode_published s (on_mode_changed mode s.manager))
        (k.after_status s (on_mode_changed mode s.manager) i (on_mode_changed-Tells mode s.manager))

  abbrev AfterOutcome : Option (Outcome × System) → Type 0
  AfterOutcome none = Unit {0}
  AfterOutcome (some (o, t)) = P t

  with_response-AfterOutcome :
      (r : Response) (o : Option System) → AfterState o → AfterOutcome (with_response r o)
  unfolding with_response
  with_response-AfterOutcome r none i = tt
  with_response-AfterOutcome r (some t) i = i

  future_taken-AfterOutcome : (o : Option System) → AfterState o → AfterOutcome (future_taken o)
  unfolding future_taken
  future_taken-AfterOutcome none i = tt
  future_taken-AfterOutcome (some t) i = k.after_promise t i

  command_done-AfterOutcome :
      (fuel : ℕ) (w : Setting) (s : System) (o : Option (Expected × StateMachine))
      → P s
      → AfterOutcome (command_done fuel w s o)
  unfolding command_done
  command_done-AfterOutcome fuel w s none i = tt
  command_done-AfterOutcome fuel w s (some (unexpected error, m)) i =
      with_response-AfterOutcome _ _ (
        hear_all-AfterState fuel w (since (length s.manager.machine.calls) m.calls)
          (record s { manager = record s.manager { machine = m } }) (k.after_machine s m i))
  command_done-AfterOutcome fuel w s (some (value b, m)) i = future_taken-AfterOutcome _ (
      hear_all-AfterState fuel w (since (length s.manager.machine.calls) m.calls)
        (record s { manager = record s.manager { machine = m } }) (k.after_machine s m i))

  state_requested-AfterOutcome :
      (qt : QtEngine) (fuel : ℕ) (w : Setting) (val : ℤ) (s : System)
      → P s
      → AfterOutcome (state_requested qt fuel w val s)
  unfolding state_requested
  state_requested-AfterOutcome qt fuel w val s i =
      elim (Bool-cases (cmd_eq (to_transition_cmd val) TransitionCmd.no_command)) [
        | inl e ↦ rw e i
        | inr e ↦ rw e (
            command_done-AfterOutcome fuel w s
              (change_state qt (to_transition_cmd val) s.manager.machine) i)
      ]

  pub Step-kept : (s t : System) → Step s t → P s → P t
  Step-kept _ _ (machine_moves s m) i = k.after_machine s m i
  Step-kept _ _ (hears fuel w state s t e) i =
      subst AfterState e (state_told-AfterState fuel w state s i)
  Step-kept _ _ (requests_mode fuel w val s t r e) i =
      subst AfterMode e (mode_requested-AfterMode fuel w val s i)
  Step-kept _ _ (requests_state qt fuel w val s t o e) i =
      subst AfterOutcome e (state_requested-AfterOutcome qt fuel w val s i)

  pub Reach-kept : (s t : System) → Reach s t → P s → P t
  Reach-kept _ _ (here s) i = i
  Reach-kept _ _ (next s t u r step) i = Step-kept t u step (Reach-kept s t r i)
