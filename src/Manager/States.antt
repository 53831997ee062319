-- ===== src/Manager/States.antt =====
-- `on_change_state` of packml_ros/include/packml_ros/interface/packml_interface.hpp: the manager asks
-- its machine for a state and waits for the promise that the callback `on_state_changed` renews.
use packml_ros.Base.{
  ◌<>◌, ℕ, zero, suc, ℤ, Bool, true, false, String, Option, none, some, List, [], ◌∷◌, length,
  if◌then◌else◌,
}
use packml_ros.Common.{TransitionCmd, cmd_to_string}
use packml_ros.Messages.{
  Response, new_response, success_code, invalid_request, unrecognized_request,
}
use packml_ros.Qt.{QtEngine}
use packml_ros.StateMachine.{StateMachine, Callback}
use packml_ros.StateMachine.Requests.{Expected, value, unexpected, change_state}
use packml_ros.Transitions.{cmd_eq}
use packml_ros.Manager.{
  Service, Manager, Promise, to_transition_cmd, on_mode_changed, on_state_changed,
}

-- How the handler ends: with a response, with an exception, or never.
pub data Outcome : Type 0 where
  responds : Response → Outcome
  throws : String → Outcome
  waits : Outcome

-- the callbacks after the first `n`
abbrev pub since : ℕ → List Callback → List Callback
since zero cs = cs
since (suc n) [] = []
since (suc n) (c ∷ cs) = since n cs

unfoldable pub then_hear : (Manager → Option Manager) → Option Manager → Option Manager
then_hear f none = none
then_hear f (some g) = f g

-- The machine's calls reach the manager one after the other.
unfoldable pub hear : ℕ → Service → List Callback → Manager → Option Manager
unfolding then_hear on_state_changed on_mode_changed
hear fuel service [] g = some g
hear fuel service (Callback.on_state_changed state name ∷ cs) g =
    then_hear (hear fuel service cs) (on_state_changed fuel service state g)
hear fuel service (Callback.on_mode_changed mode ∷ cs) g =
    hear fuel service cs (on_mode_changed mode g)

-- `changed_prom_.get_future().get()` and the response after it. A promise that is replaced before
-- it was set is broken.
unfoldable pub get_future : Bool → Promise → Outcome
get_future replaced p =
    if p.is_retrieved
    then throws "future_already_retrieved"
    else if p.is_set
    then responds (record new_response { success = true; error_code = success_code })
    else if replaced
    then throws "broken_promise"
    else waits

abbrev pub retrieve : Manager → Manager
retrieve g = record g { changed_prom = record g.changed_prom { is_retrieved = true } }

-- The wait after the callbacks.
unfoldable pub wait_after : Option Manager → Option (Outcome × Manager)
unfolding get_future
wait_after none = none
wait_after (some g) = some (get_future false g.changed_prom, retrieve g)

-- The wait before the callbacks: they renew the promise while it is waited for, if there are any.
abbrev any_state : List Callback → Bool
any_state [] = false
any_state (Callback.on_state_changed state name ∷ cs) = true
any_state (Callback.on_mode_changed mode ∷ cs) = any_state cs

unfoldable pub with_outcome : Outcome → Option Manager → Option (Outcome × Manager)
with_outcome o none = none
with_outcome o (some g) = some (o, g)

-- `heard_first` is whether the event loop's thread has called back before this one waits.
unfoldable pub state_changed :
    ℕ → Service → Bool → Manager → Option (Expected × StateMachine) → Option (Outcome × Manager)
unfolding hear get_future wait_after with_outcome
state_changed fuel service heard_first g none = none
state_changed fuel service heard_first g (some (unexpected error, m)) =
    with_outcome
      (responds (record { success = false; error_code = invalid_request; message = error }))
      (hear fuel service (since (length g.machine.calls) m.calls) (record g { machine = m }))
state_changed fuel service heard_first g (some (value b, m)) =
    let cs = since (length g.machine.calls) m.calls in
    let h = record g { machine = m } in
    if heard_first
    then wait_after (hear fuel service cs h)
    else with_outcome (get_future (any_state cs) g.changed_prom) (hear fuel service cs (retrieve h))

-- `on_change_state`
unfoldable pub on_change_state :
    QtEngine → ℕ → Service → Bool → ℤ → Manager → Option (Outcome × Manager)
unfolding to_transition_cmd change_state state_changed cmd_to_string
on_change_state qt fuel service heard_first val g =
    let command = to_transition_cmd val in
    if cmd_eq command TransitionCmd.no_command
    then some (
      responds (record {
        success = false;
        error_code = unrecognized_request;
        message = "Unrecognized transition request command: " <> cmd_to_string command;
      }),
      g,
    )
    else state_changed fuel service heard_first g (change_state qt command g.machine)
