-- ===== src/Manager/Start/Boot.antt =====
-- The constructor of `SMNode_new` to its end.
use packml_ros.Base.{
  ◌≡◌, refl, ap, ◌∙◌, ℕ, Bool, true, false, String, Option, none, some, List, [], ◌∷◌, inr,
  if◌then◌else◌,
}
use packml_ros.Common.{State, ModeType, state_val, mode_val}
use packml_ros.Messages.{Status}
use packml_ros.StateMachine.{StateMachine}
use packml_ros.StateMachine.Requests.{change_mode}
use packml_ros.Diagram.{single}
use packml_ros.Diagram.Built.{fresh, built-fresh}
use packml_ros.Diagram.Modes.{switched, change_mode-switched}
use packml_ros.Diagram.Commands.{started, started-IsConsistent, activate-started}
use packml_ros.Diagram.Invariant.{IsConsistent}
use packml_ros.Manager.{
  Service, Manager, on_mode_changed, on_state_changed, publish_status, state_answer,
  call_all_clients, wait_all_futures, kept_promise,
}
use packml_ros.Manager.ClientMap.{insert_clients}
use packml_ros.Manager.States.{hear, then_hear}
use packml_ros.Manager.Start.{init, called, activated, mode_chosen, started_with, new_sm_node}

-- The manager when the machine has its mode and does not run yet.
abbrev pub configured : State → List String → Manager
configured garbage names =
    on_mode_changed ModeType.manual (record (init names (fresh single garbage)) {
      machine = switched ModeType.manual (fresh single garbage);
    })

mode_chosen-configured :
    (fuel : ℕ) (service : Service) (garbage : State) (names : List String)
    → mode_chosen fuel service
        (init names (fresh single garbage))
        (change_mode ModeType.manual (fresh single garbage))
      ≡ some (configured garbage names)
unfolding mode_chosen called hear switched init
mode_chosen-configured fuel service garbage names =
    ap (mode_chosen fuel service (init names (fresh single garbage)))
      (change_mode-switched single ModeType.manual (fresh single garbage) refl (inr refl))

then_hear-some : (o : Option Manager) → then_hear (λ g. some g) o ≡ o
unfolding then_hear
then_hear-some none = refl
then_hear-some (some g) = refl

activated-configured :
    (fuel : ℕ) (service : Service) (garbage : State) (names : List String)
    → let g = configured garbage names in
      activated fuel service true (some g)
      ≡ on_state_changed fuel service State.aborted (record g { machine = started g.machine })
unfolding activated called hear switched init on_mode_changed
activated-configured fuel service garbage names =
    let g = configured garbage names in
    ap (λ (r : Bool × StateMachine). called fuel service r.1 g)
      (activate-started single g.machine (record { built_store = refl; initial_object = refl })
        refl)
    ∙ then_hear-some
        (on_state_changed fuel service State.aborted (record g { machine = started g.machine }))

-- The manager after the first state, with what the clients made of it.
abbrev pub booted : State → List String → Bool → Manager
booted garbage names b =
    let g = configured garbage names in
    let h = record g { machine = started g.machine; changed_prom = kept_promise } in
    if b then publish_status (record h { current_state = State.aborted }) else h

state_answer-booted :
    (garbage : State) (names : List String) (b : Bool)
    → let g = configured garbage names in
      state_answer State.aborted
        (record g { machine = started g.machine; changed_prom = kept_promise })
        (some b)
      ≡ some (booted garbage names b)
unfolding state_answer
state_answer-booted garbage names true = refl
state_answer-booted garbage names false = refl

pub new_sm_node-booted :
    (fuel : ℕ) (service : Service) (garbage : State) (names : List String) (b : Bool)
    → let cs = insert_clients names [] in
      wait_all_futures fuel service cs (call_all_clients service cs) ≡ some b
      → new_sm_node fuel service true garbage names ≡ some (booted garbage names b)
unfolding new_sm_node started_with on_state_changed init on_mode_changed
new_sm_node-booted fuel service garbage names b h =
    let g = configured garbage names in
    ap
      (λ (o : Option StateMachine). elim o [
        | none ↦ none
        | some m ↦ started_with fuel service true (init names m)
      ])
      (built-fresh single garbage)
    ∙ (ap (activated fuel service true) (mode_chosen-configured fuel service garbage names)
        ∙ (activated-configured fuel service garbage names
            ∙ (ap
                  (state_answer State.aborted
                    (record g { machine = started g.machine; changed_prom = kept_promise }))
                  h
                ∙ state_answer-booted garbage names b)))

-- the status of a manager with this state that is in MANUAL
abbrev pub manual_status : State → Status
manual_status s = record { state_val = state_val s; mode_val = mode_val ModeType.manual }

booted-shape :
    (garbage : State) (names : List String) (b : Bool)
    → let g = booted garbage names b in
      IsConsistent single g.machine
      × (g.machine.state_value ≡ State.aborted)
      × (g.current_mode ≡ ModeType.manual)
      × (g.current_state ≡ (if b then State.aborted else State.undefined))
      × (g.published
          ≡ manual_status State.undefined ∷ (if b then manual_status State.aborted ∷ [] else []))
unfolding publish_status on_mode_changed init switched
booted-shape garbage names true = (consistent, refl, refl, refl, refl)
  where
    consistent : IsConsistent single (booted garbage names true).machine
    consistent =
        started-IsConsistent single (configured garbage names).machine
          (record { built_store = refl; initial_object = refl })
booted-shape garbage names false = (consistent, refl, refl, refl, refl)
  where
    consistent : IsConsistent single (booted garbage names false).machine
    consistent =
        started-IsConsistent single (configured garbage names).machine
          (record { built_store = refl; initial_object = refl })

-- Where a Qt application is there and the wait for the clients of the first state ends with answer
-- `b`, the constructor of the manager succeeds, whatever the memory held: the machine is consistent
-- and in ABORTED, the mode is MANUAL, and UNDEFINED was published with it; ABORTED is kept and
-- published only if `b` is success.
pub new_sm_node_lem :
    (fuel : ℕ) (service : Service) (garbage : State) (names : List String) (b : Bool)
    → let cs = insert_clients names [] in
      wait_all_futures fuel service cs (call_all_clients service cs) ≡ some b
      → (g : Manager) × (new_sm_node fuel service true garbage names ≡ some g)
        × IsConsistent single g.machine
        × (g.machine.state_value ≡ State.aborted)
        × (g.current_mode ≡ ModeType.manual)
        × (g.current_state ≡ (if b then State.aborted else State.undefined))
        × (g.published
            ≡ manual_status State.undefined ∷ (if b then manual_status State.aborted ∷ [] else []))
new_sm_node_lem fuel service garbage names b h =
    let (consistent, state, mode, known, told) = booted-shape garbage names b in
    (
      booted garbage names b,
      new_sm_node-booted fuel service garbage names b h,
      consistent,
      state,
      mode,
      known,
      told,
    )
