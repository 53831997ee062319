-- ===== src/Manager/Modes.antt =====
-- The manager and its clients: a change of mode, the callback on a new state, and what the nodes learn.
use packml_ros.Base.{
  ◌≡◌, ◌≢◌, ◌⊎◌, refl, ℕ, ◌<◌, ℤ, pos, true, false, String, ◌<>◌, some, List, [], ◌∷◌, length,
  arith,
}
use packml_ros.Common.{State, ModeType, state_val, mode_of_val, state_to_string}
use packml_ros.Common.Casts.{int8}
use packml_ros.Common.Names.{is_enumerator}
use packml_ros.Messages.{new_response, success_code}
use packml_ros.Diagram.{Cycle, is_leaf}
use packml_ros.Diagram.Built.{store_of}
use packml_ros.Diagram.Modes.{switched, change_mode-switched, change_mode-refused}
use packml_ros.Manager.{
  Service, Manager, call_all_clients, publish_status, on_mode_changed, on_state_changed,
  on_change_mode, kept_promise,
}
use packml_ros.Manager.Waiting.{
  AllSpin, AllAvailable, AllAnswer, Agrees, wait_all_futures-agreed, wait_all_futures-missing,
}

-- The manager has at least one client, all are there, all answers are ready in round `k`, no executor blocks up to it, fuel is
-- above `k`, and every answer that is ready in any round is a success. Then `on_state_changed`
-- renews the promise, keeps the machine's new state and publishes it.
pub on_state_changed-agreed :
    (service : Service) (c : String) (cs : List String) (k fuel : ℕ) (state : State) (g : Manager)
    → g.clients ≡ c ∷ cs
    → k < fuel
    → AllSpin service k (c ∷ cs)
    → AllAvailable service (c ∷ cs)
    → AllAnswer (service.ready_in k) (c ∷ cs)
    → ((j : ℕ) → Agrees (service.ready_in j))
    → on_state_changed fuel service state g
      ≡ some (publish_status (record g { changed_prom = kept_promise; current_state = state }))
unfolding on_state_changed
on_state_changed-agreed service c cs k fuel state g e h p a b y =
    rw (e, wait_all_futures-agreed service c cs k fuel h p a b y)

-- If the manager has no client, or one of its clients is not there, `on_state_changed` does nothing
-- but renew the promise: it neither keeps nor publishes the machine's new state.
on_state_changed-missing :
    (service : Service) (fuel : ℕ) (state : State) (g : Manager)
    → (g.clients ≡ []) ⊎ (length (call_all_clients service g.clients) ≢ length g.clients)
    → on_state_changed fuel service state g ≡ some (record g { changed_prom = kept_promise })
unfolding on_state_changed
on_state_changed-missing service fuel state g h =
    rw (wait_all_futures-missing service g.clients fuel h)

-- The manager's machine has a mode and shows a state of the diagram other than IDLE. Then a mode
-- request fails with the machine's text, and the manager changes only in the mode that it last
-- tried.
on_change_mode-refused :
    (service : Service) (fuel : ℕ) (val : ℤ) (g : Manager)
    → is_leaf g.machine.state_value ≡ true
    → g.machine.state_value ≢ State.idle
    → g.machine.current_mode.name ≢ ""
    → on_change_mode fuel service val g
      ≡ some (
        record {
          success = false;
          error_code = pos 1;
          message = "Cannot switch mode in state: " <> state_to_string g.machine.state_value;
        },
        record g { switching_mode = mode_of_val val },
      )
unfolding on_change_mode
on_change_mode-refused service fuel val g leaf busy chosen =
    rw (change_mode-refused (mode_of_val val) g.machine leaf busy chosen)

-- The manager once its machine has switched: the mode is kept and published.
abbrev pub mode_told : ModeType → Manager → Manager
mode_told mode g =
    on_mode_changed mode (record g { machine = switched mode g.machine; switching_mode = mode })

-- The manager's machine has the store that `init` built and shows IDLE or has no mode yet. The
-- manager has at least one client, all are there, all answers are ready in round `k`, no executor blocks up to it, fuel is above
-- `k`, and every answer that is ready in any round is a success. Then a mode request succeeds: the
-- machine is switched, and the mode is kept and published, twice.
pub on_change_mode-agreed :
    (cy : Cycle) (service : Service) (c : String) (cs : List String) (k fuel : ℕ) (val : ℤ)
    → (g : Manager) → g.machine.store ≡ store_of cy
    → (g.machine.state_value ≡ State.idle) ⊎ (g.machine.current_mode.name ≡ "")
    → g.clients ≡ c ∷ cs
    → k < fuel
    → AllSpin service k (c ∷ cs)
    → AllAvailable service (c ∷ cs)
    → AllAnswer (service.ready_in k) (c ∷ cs)
    → ((j : ℕ) → Agrees (service.ready_in j))
    → on_change_mode fuel service val g
      ≡ some (
        record new_response { success = true; error_code = success_code },
        publish_status (mode_told (mode_of_val val) g),
      )
unfolding on_change_mode on_mode_changed publish_status
on_change_mode-agreed cy service c cs k fuel val g st w e h p a b y = rw (
  change_mode-switched cy (mode_of_val val) g.machine st w,
  e,
  wait_all_futures-agreed service c cs k fuel h p a b y,
)

-- The manager's machine has the store that `init` built and shows IDLE or has no mode yet, and
-- there is no client or one is not there. Then a mode request fails, with the code that stands for
-- success, although the machine is switched and the mode kept and published.
pub on_change_mode-missing :
    (cy : Cycle) (service : Service) (fuel : ℕ) (val : ℤ) (g : Manager)
    → g.machine.store ≡ store_of cy
    → (g.machine.state_value ≡ State.idle) ⊎ (g.machine.current_mode.name ≡ "")
    → (g.clients ≡ []) ⊎ (length (call_all_clients service g.clients) ≢ length g.clients)
    → on_change_mode fuel service val g
      ≡ some (
        record {
          success = false;
          error_code = success_code;
          message = "Error in one of the packml clients";
        },
        mode_told (mode_of_val val) g,
      )
unfolding on_change_mode on_mode_changed publish_status
on_change_mode-missing cy service fuel val g st w h = rw (
  change_mode-switched cy (mode_of_val val) g.machine st w,
  wait_all_futures-missing service g.clients fuel h,
)

pub int8-state_val : (s : State) → is_enumerator s ≡ true → int8 (state_val s) ≡ state_val s
unfolding int8 state_val
int8-state_val (State.unnamed z) h = ground arith
int8-state_val _ h = refl
