-- ===== src/Tests/Outcomes.antt =====
-- The theorems on requests for a state, each at one manager.
use packml_ros.Base.{
  ◌≡◌, refl, pos, true, false, none, some, [], ◌∷◌, inl, inr, arith, if◌then◌else◌,
}
use packml_ros.Common.{State, production}
use packml_ros.Qt.{documented_engine}
use packml_ros.Diagram.{single}
use packml_ros.Diagram.Modes.{switched}
use packml_ros.Diagram.Verdicts.{after_refusal}
use packml_ros.Manager.{Service, Manager, to_transition_cmd, on_state_changed, on_change_mode}
use packml_ros.Manager.Unanswered.{never_answers}
use packml_ros.Diagram.Built.{store_of}
use text.Mathlib.Text.{◌==◌ as str_eq}
use packml_ros.Manager.States.{throws, retrieve, on_change_state}
use packml_ros.Manager.Outcomes.{on_change_state-aborting}
use packml_ros.Tests.{running_in-IsConsistent}
use packml_ros.Tests.Clients.{manager_of, slow_service, yes_response}

-- A manager in ABORTING that has answered a request before.
abbrev aborting_manager : Manager
aborting_manager = retrieve (manager_of State.aborting [])

on_change_state-aborting_example :
    on_change_state documented_engine 2 slow_service false (pos 2) aborting_manager
    ≡ some (
      throws "future_already_retrieved",
      retrieve (record aborting_manager { machine = after_refusal true aborting_manager.machine }),
    )
unfolding switched to_transition_cmd
on_change_state-aborting_example =
    on_change_state-aborting documented_engine single 2 slow_service (pos 2) aborting_manager false
      refl (running_in-IsConsistent single production State.aborting refl) refl refl refl refl

-- "a" agrees at once, and "b" never answers.
abbrev deaf_service : Service
deaf_service = record {
  is_available = λ c. true;
  spins = λ i c. true;
  ready_in = λ j c. if str_eq c "b" then none else some yes_response;
}

never_answers_example :
    let g = manager_of State.idle ("a" ∷ "b" ∷ []) in
    (on_state_changed 5 deaf_service State.starting g ≡ none)
    × (on_change_mode 5 deaf_service (pos 2) g ≡ none)
unfolding store_of switched
never_answers_example =
    never_answers single deaf_service (manager_of State.idle ("a" ∷ "b" ∷ [])) "b" 5 State.starting
      (pos 2) (refl, (refl, tt)) (inr (inl refl)) (λ j. refl) (λ j c r e. ground arith) refl
      (inl refl)
