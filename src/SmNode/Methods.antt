-- ===== src/SmNode/Methods.antt =====
-- The three ways to give the machine a command.
use packml_ros.Base.{◌≡◌, refl, ◌<>◌, ℤ, false, Option, none, some, arith, int_to_string}
use packml_ros.Common.{TransitionCmd, cmd_to_string}
use packml_ros.Messages.{Response, unrecognized_request}
use packml_ros.Qt.{QtEngine}
use packml_ros.StateMachine.{StateMachine}
use packml_ros.StateMachine.Requests.{Expected, unexpected, change_state, change_answer}
use packml_ros.StateMachine.Methods.{Method, method_of}
use packml_ros.SmNode.{requested, trans_request, trans_answer}

abbrev by_method :
    TransitionCmd → Option Method → QtEngine → StateMachine → Option (Expected × StateMachine)
by_method c none qt m =
    some (unexpected ("Invalid transition request command: " <> cmd_to_string c), m)
by_method c (some f) qt m = change_answer c (f qt m)

abbrev method_for : Option TransitionCmd → Option Method
method_for none = none
method_for (some c) = method_of c

abbrev answer_by : ℤ → Option Method → QtEngine → StateMachine → Option (Response × StateMachine)
answer_by z none qt m = some (
  record {
    success = false;
    error_code = unrecognized_request;
    message = "Unrecognized transition request command: " <> int_to_string z;
  },
  m,
)
answer_by z (some f) qt m = trans_answer z (f qt m)

change_state-method_of :
    (qt : QtEngine) (c : TransitionCmd) (m : StateMachine)
    → change_state qt c m ≡ by_method c (method_of c) qt m
unfolding change_state method_of
change_state-method_of qt TransitionCmd.no_command m = refl
change_state-method_of qt _ m = refl

trans_request-method_of :
    (qt : QtEngine) (z : ℤ) (m : StateMachine)
    → trans_request qt z m ≡ answer_by z (method_for (requested z)) qt m
unfolding trans_request requested method_of
trans_request-method_of qt z m = ground arith

-- later
methods-agree :
    (qt : QtEngine) (m : StateMachine)
    → ((c : TransitionCmd) → change_state qt c m ≡ by_method c (method_of c) qt m)
      × ((z : ℤ) → trans_request qt z m ≡ answer_by z (method_for (requested z)) qt m)
methods-agree qt m = (λ c. change_state-method_of qt c m, λ z. trans_request-method_of qt z m)
