-- ===== src/Tests/Clients.antt =====
-- The theorems on the manager, each with two clients or none.
use packml_ros.Base.{
  ◌≡◌, refl, true, false, some, none, List, [], ◌∷◌, ◌++◌, ℕ, pos, inl, arith, String, eq_int,
  if◌then◌else◌,
}
use packml_ros.Common.{State, production, manual, state_val, mode_val, mode_of_val}
use packml_ros.Messages.{Response, new_response, success_code, Status}
use packml_ros.Base.{◌↔◌}
use packml_ros.Common.Fits.{fits}
use packml_ros.Manager.Published.{publish_status-fits}
use packml_ros.NodeInterface.{Node, on_status_changed}
use packml_ros.Manager.{
  Service, Manager, call_all_clients, wait_all_futures, publish_status, on_change_mode,
}
use packml_ros.Manager.Waiting.Rounds.{serves, wait_all_futures_lem}
use packml_ros.Manager.Modes.{mode_told, on_change_mode-missing}
use packml_ros.Diagram.{single}
use packml_ros.Diagram.Modes.{switched}
use packml_ros.Diagram.Built.{store_of}
use packml_ros.Tests.{running_in}
use text.Mathlib.Text.{◌==◌ as str_eq}

-- A node in IDLE and MANUAL that has agreed to START.
abbrev waiting_node : Node
waiting_node = record {
  current_mode = manual;
  switching_mode = manual;
  current_state = State.idle;
  switching_state = State.starting;
  waiting_for_new_mode = false;
  waiting_for_new_state = true;
  notified = 5;
}

-- Two clients that are there. The first answers in the second round, the second at once.
abbrev pub yes_response : Response
yes_response = record new_response { success = true }

abbrev pub slow_service : Service
slow_service = record {
  is_available = λ c. true;
  spins = λ i c. true;
  ready_in = λ i c. if eq_int (pos i) (pos 0) then none else some yes_response;
}

-- "a" refuses in the second round, the others agree in the first.
abbrev rounds_of : String → ℕ
rounds_of c = if str_eq c "a" then 1 else 0

abbrev answer_of : String → Response
answer_of c = if str_eq c "a" then new_response else yes_response

wait_all_futures_lem_example :
    let service = serves rounds_of answer_of (λ c. true) (λ i c. true) in
    wait_all_futures 2 service
      ("a" ∷ "b" ∷ "c" ∷ [])
      (call_all_clients service ("a" ∷ "b" ∷ "c" ∷ []))
    ≡ some false
wait_all_futures_lem_example =
    wait_all_futures_lem rounds_of answer_of (λ c. true) (λ i c. true) "a" ("b" ∷ "c" ∷ []) 1 2
      (refl, (refl, (refl, tt))) (λ j h. refl) (omega arith, (omega arith, (omega arith, tt)))
      (omega arith)

-- A manager of a machine in IDLE and PRODUCTION.
abbrev pub manager_of : State → List String → Manager
manager_of s clients = record {
  machine = running_in single production s;
  clients = clients;
  current_mode = production;
  switching_mode = production;
  current_state = s;
  published = [];
  changed_prom = record { is_set = false; is_retrieved = false };
}

on_change_mode-missing_example :
    on_change_mode 2 slow_service (pos 2) (manager_of State.idle [])
    ≡ some (
      record {
        success = false;
        error_code = success_code;
        message = "Error in one of the packml clients";
      },
      mode_told (mode_of_val (pos 2)) (manager_of State.idle []),
    )
unfolding switched store_of
on_change_mode-missing_example =
    on_change_mode-missing single slow_service 2 (pos 2) (manager_of State.idle []) refl (inl refl)
      (inl refl)

publish_status-fits_example :
    let g = manager_of State.idle [] in
    (status : Status) × ((publish_status g).published ≡ [] ++ status ∷ [])
    × (fits status.state_val ≡ true)
    × (fits status.mode_val ≡ true)
    × ((state_val (on_status_changed status waiting_node).current_state ≡ state_val State.idle)
        ↔ (fits (state_val State.idle) ≡ true))
    × ((mode_val (on_status_changed status waiting_node).current_mode ≡ mode_val production)
        ↔ (fits (mode_val production) ≡ true))
publish_status-fits_example = publish_status-fits (manager_of State.idle []) waiting_node
