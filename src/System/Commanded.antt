-- ===== src/System/Commanded.antt =====
-- A request for a state, from the panel of an operator to every node.
pub mod Refused
use packml_ros.Base.{
  ◌≡◌, refl, ap, ◌∙◌, ℕ, ℤ, true, false, String, some, [], ◌∷◌, ◌++◌, length, arith,
}
use packml_ros.Common.{State, TransitionCmd, state_to_string}
use packml_ros.Common.Names.{is_enumerator}
use packml_ros.Messages.{new_response, success_code}
use packml_ros.Qt.{QtEngine}
use packml_ros.StateMachine.{StateMachine, Callback}
use packml_ros.StateMachine.Requests.{value, is_command, change_state}
use packml_ros.Diagram.{Cycle}
use packml_ros.Diagram.Moves.{arrive}
use packml_ros.Diagram.Invariant.{IsConsistent}
use packml_ros.Diagram.Commands.{heeded}
use packml_ros.Diagram.Runs.{arrive-calls}
use packml_ros.Diagram.Verdicts.{change_state_lem}
use packml_ros.Manager.{kept_promise, to_transition_cmd}
use packml_ros.Manager.States.{responds, since, get_future, retrieve}
use packml_ros.Manager.Outcomes.{is_command-cmd_eq, since-append}
use packml_ros.System.{System, Setting, state_told}
use packml_ros.System.Whole.{with_machine}
use packml_ros.System.Steps.{hear_all, then_hear_all, future_taken, command_done, state_requested}

pub heeded-is_enumerator :
    (cy : Cycle) (c : TransitionCmd) (m : StateMachine) (t : State)
    → heeded cy c m ≡ some t
    → is_enumerator t ≡ true
heeded-is_enumerator cy c m t h = ground (arith, h)

-- The machine enters one state, and the system hears of it.
pub hear_all-one :
    (fuel : ℕ) (w : Setting) (t : State) (name : String) (m : StateMachine) (s u : System)
    → m.calls ≡ s.manager.machine.calls ++ Callback.on_state_changed t name ∷ []
    → state_told fuel w t (with_machine s m) ≡ some u
    → hear_all fuel w (since (length s.manager.machine.calls) m.calls) (with_machine s m) ≡ some u
unfolding hear_all then_hear_all
hear_all-one fuel w t name m s u e h =
    ap (λ cs. hear_all fuel w cs (with_machine s m))
      (ap (since (length s.manager.machine.calls)) e
        ∙ since-append s.manager.machine.calls (Callback.on_state_changed t name ∷ []))
    ∙ ap (then_hear_all (hear_all fuel w [])) h

command_done-one :
    (fuel : ℕ) (w : Setting) (t : State) (name : String) (m : StateMachine) (s u : System)
    → m.calls ≡ s.manager.machine.calls ++ Callback.on_state_changed t name ∷ []
    → state_told fuel w t (with_machine s m) ≡ some u
    → command_done fuel w s (some (value true, m)) ≡ future_taken (some u)
unfolding command_done
command_done-one fuel w t name m s u e h = ap future_taken (hear_all-one fuel w t name m s u e h)

state_requested-asked :
    (qt : QtEngine) (fuel : ℕ) (w : Setting) (val : ℤ) (s : System)
    → is_command (to_transition_cmd val) ≡ true
    → state_requested qt fuel w val s
      ≡ command_done fuel w s (change_state qt (to_transition_cmd val) s.manager.machine)
unfolding state_requested
state_requested-asked qt fuel w val s p = rw (is_command-cmd_eq (to_transition_cmd val) p) refl

future_taken-kept :
    (x : System)
    → x.manager.changed_prom ≡ kept_promise
    → future_taken (some x)
      ≡ some (
        responds (record new_response { success = true; error_code = success_code }),
        record x { manager = retrieve x.manager },
      )
unfolding future_taken get_future
future_taken-kept x e =
    ap (λ p. some (get_future false p, record x { manager = retrieve x.manager })) e

-- The machine answers a command and tells one state; what the system makes of it is what the answer
-- leaves, but for the promise.
pub state_requested-moved :
    (qt : QtEngine) (fuel : ℕ) (w : Setting) (val : ℤ) (s x : System) (t : State) (m : StateMachine)
    → is_command (to_transition_cmd val) ≡ true
    → change_state qt (to_transition_cmd val) s.manager.machine ≡ some (value true, m)
    → m.calls ≡ s.manager.machine.calls ++ Callback.on_state_changed t (state_to_string t) ∷ []
    → state_told fuel w t (with_machine s m) ≡ some x
    → x.manager.changed_prom ≡ kept_promise
    → state_requested qt fuel w val s
      ≡ some (
        responds (record new_response { success = true; error_code = success_code }),
        record x { manager = retrieve x.manager },
      )
state_requested-moved qt fuel w val s x t m p moves calls told kept =
    state_requested-asked qt fuel w val s p
    ∙ (ap (command_done fuel w s) moves
        ∙ (command_done-one fuel w t (state_to_string t) m s x calls told
            ∙ future_taken-kept x kept))

-- The system once its machine has answered a command and moved to `t`.
abbrev pub obeyed : State → System → System
obeyed t s =
    let sm = s.manager.machine in
    with_machine s (arrive sm.state_value (some t) (record sm { prom = some true; queue = [] }))

-- What the system makes of the new state is the answer's system, but for the promise.
pub state_requested-told :
    (qt : QtEngine) (cy : Cycle) (fuel : ℕ) (w : Setting) (val : ℤ) (s x : System) (t : State)
    → is_command (to_transition_cmd val) ≡ true
    → IsConsistent cy s.manager.machine
    → s.manager.machine.running ≡ true
    → s.manager.machine.queue ≡ []
    → heeded cy (to_transition_cmd val) s.manager.machine ≡ some t
    → state_told fuel w t (obeyed t s) ≡ some x
    → x.manager.changed_prom ≡ kept_promise
    → state_requested qt fuel w val s
      ≡ some (
        responds (record new_response { success = true; error_code = success_code }),
        record x { manager = retrieve x.manager },
      )
state_requested-told qt cy fuel w val s x t p i r q h told kept =
    let command = to_transition_cmd val in
    let sm = s.manager.machine in
    let n = record sm { prom = some true; queue = [] } in
    let m = arrive sm.state_value (some t) n in
    state_requested-moved qt fuel w val s x t m p
      (change_state_lem qt cy sm command i r q ∙ rw (p, h)) (arrive-calls sm.state_value t n) told
      kept
