-- ===== src/System/Steps.antt =====
-- What happens to the system: `on_change_state` of packml_ros/include/packml_ros/interface/
-- packml_interface.hpp with the callbacks that it waits for, and every other step.
use packml_ros.Base.{
  ◌≡◌, ◌<>◌, ℕ, ℤ, false, Option, none, some, List, [], ◌∷◌, length, if◌then◌else◌,
}
use packml_ros.Common.{State, TransitionCmd, cmd_to_string}
use packml_ros.Messages.{Response, invalid_request, unrecognized_request}
use packml_ros.Qt.{QtEngine}
use packml_ros.Transitions.{cmd_eq}
use packml_ros.StateMachine.{StateMachine, Callback}
use packml_ros.StateMachine.Requests.{Expected, value, unexpected, change_state}
use packml_ros.Manager.{Manager, to_transition_cmd, on_mode_changed}
use packml_ros.Manager.States.{Outcome, responds, since, get_future, retrieve}
use packml_ros.System.{System, Setting, deliver, news, state_told, mode_requested}

-- `on_mode_changed`, whose status reaches the nodes
unfoldable pub mode_published : System → Manager → System
unfolding deliver
mode_published s h = record { manager = h; node = λ c. deliver (news s.manager h) (s.node c) }

unfoldable pub then_hear_all : (System → Option System) → Option System → Option System
then_hear_all f none = none
then_hear_all f (some t) = f t

-- The machine's calls, one after the other, each with what the nodes do.
unfoldable pub hear_all : ℕ → Setting → List Callback → System → Option System
unfolding state_told on_mode_changed mode_published then_hear_all
hear_all fuel w [] s = some s
hear_all fuel w (Callback.on_state_changed state name ∷ cs) s =
    then_hear_all (hear_all fuel w cs) (state_told fuel w state s)
hear_all fuel w (Callback.on_mode_changed mode ∷ cs) s =
    hear_all fuel w cs (mode_published s (on_mode_changed mode s.manager))

unfoldable pub with_response : Response → Option System → Option (Outcome × System)
with_response r none = none
with_response r (some t) = some (responds r, t)

-- `changed_prom_.get_future().get()`
unfoldable pub future_taken : Option System → Option (Outcome × System)
unfolding get_future
future_taken none = none
future_taken (some t) =
    some (get_future false t.manager.changed_prom, record t { manager = retrieve t.manager })

-- what `changeState` leads to
unfoldable pub command_done :
    ℕ → Setting → System → Option (Expected × StateMachine) → Option (Outcome × System)
unfolding hear_all with_response future_taken
command_done fuel w s none = none
command_done fuel w s (some (unexpected error, m)) =
    with_response (record { success = false; error_code = invalid_request; message = error })
      (hear_all fuel w (since (length s.manager.machine.calls) m.calls)
        (record s { manager = record s.manager { machine = m } }))
command_done fuel w s (some (value b, m)) = future_taken (
    hear_all fuel w (since (length s.manager.machine.calls) m.calls)
      (record s { manager = record s.manager { machine = m } }))

-- `on_change_state`, the event loop's thread first, and what the nodes do meanwhile
unfoldable pub state_requested : QtEngine → ℕ → Setting → ℤ → System → Option (Outcome × System)
unfolding to_transition_cmd change_state command_done cmd_to_string
state_requested qt fuel w val s =
    let command = to_transition_cmd val in
    if cmd_eq command TransitionCmd.no_command
    then some (
      responds (record {
        success = false;
        error_code = unrecognized_request;
        message = "Unrecognized transition request command: " <> cmd_to_string command;
      }),
      s,
    )
    else command_done fuel w s (change_state qt command s.manager.machine)

-- What happens to the system: its machine moves; the manager hears of a new state; a state or a mode is
-- requested. Every step may have a setting of its own.
pub data Step : System → System → Type 0 where
  machine_moves :
      (s : System) (m : StateMachine)
      → Step s (record s { manager = record s.manager { machine = m } })
  hears :
      (fuel : ℕ) (w : Setting) (state : State) (s t : System)
      → state_told fuel w state s ≡ some t
      → Step s t
  requests_mode :
      (fuel : ℕ) (w : Setting) (val : ℤ) (s t : System) (r : Response)
      → mode_requested fuel w val s ≡ some (r, t)
      → Step s t
  requests_state :
      (qt : QtEngine) (fuel : ℕ) (w : Setting) (val : ℤ) (s t : System) (o : Outcome)
      → state_requested qt fuel w val s ≡ some (o, t)
      → Step s t

pub data Reach : System → System → Type 0 where
  here : (s : System) → Reach s s
  next : (s t u : System) → Reach s t → Step t u → Reach s u
