-- ===== src/System/Whole/Told.antt =====
-- What each step makes of the states that are told, held and published.
use packml_ros.Base.{
  ◌≡◌, refl, subst, sym, List, [], ◌∷◌, ◌++◌, ℕ, Bool, true, false, Option, none, some,
}
use mathlib.Core.List.{append_assoc, append-nil}
use packml_ros.Common.{State}
use packml_ros.StateMachine.{StateMachine, Callback}
use packml_ros.Manager.{
  Service, Manager, publish_status, kept_promise, on_state_changed, on_mode_changed, state_answer,
  call_all_clients, wait_all_futures,
}
use packml_ros.System.{System, Setting, state_told, state_told_to, state_service}
use packml_ros.System.Steps.{hear_all, then_hear_all, mode_published}
use packml_ros.System.Whole.Reports.{
  states_of, Reported, kept, passed_over, publish_status-Reported,
}

-- A manager that did not end, or that has this machine and reports what was told.
abbrev pub Told : StateMachine → List State → Option Manager → Type 0
Told m told none = Unit {0}
Told m told (some g) = (g.machine ≡ m) × Reported told g

abbrev pub ToldSystem : StateMachine → List State → Option System → Type 0
ToldSystem m told none = Unit {0}
ToldSystem m told (some s) = (s.manager.machine ≡ m) × Reported told s.manager

state_answer-Told :
    (told : List State) (state : State) (g : Manager) (o : Option Bool)
    → Reported told g
    → Told g.machine (told ++ state ∷ []) (state_answer state g o)
unfolding state_answer publish_status
state_answer-Told told state g none r = tt
state_answer-Told told state g (some true) r = (
  refl,
  publish_status-Reported (told ++ state ∷ []) (record g { current_state = state })
      (kept told g.current_state g.published state r),
)
state_answer-Told told state g (some false) r =
    (refl, passed_over told g.current_state g.published state r)

on_state_changed-Told :
    (told : List State) (fuel : ℕ) (service : Service) (state : State) (g : Manager)
    → Reported told g
    → Told g.machine (told ++ state ∷ []) (on_state_changed fuel service state g)
unfolding on_state_changed
on_state_changed-Told told fuel service state g r =
    state_answer-Told told state (record g { changed_prom = kept_promise })
      (wait_all_futures fuel service g.clients (call_all_clients service g.clients)) r

Told-ToldSystem :
    (m : StateMachine) (told : List State) (f : Manager → System) (o : Option Manager)
    → ((g : Manager) → (f g).manager ≡ g)
    → Told m told o
    → ToldSystem m told (elim o [ none ↦ none | some g ↦ some (f g) ])
Told-ToldSystem m told f none e h = tt
Told-ToldSystem m told f (some g) e h = subst (λ k. (k.machine ≡ m) × Reported told k) (sym (e g)) h

state_told-ToldSystem :
    (told : List State) (fuel : ℕ) (w : Setting) (state : State) (s : System)
    → Reported told s.manager
    → ToldSystem s.manager.machine (told ++ state ∷ []) (state_told fuel w state s)
unfolding state_told state_told_to
state_told-ToldSystem told fuel w state s r =
    Told-ToldSystem s.manager.machine (told ++ state ∷ []) (state_told_to w state s)
      (on_state_changed fuel (state_service w state s.node) state s.manager) (λ g. refl)
      (on_state_changed-Told told fuel (state_service w state s.node) state s.manager r)

then_hear_all-ToldSystem :
    (m : StateMachine) (told after : List State) (f : System → Option System) (o : Option System)
    → ((t : System) → t.manager.machine ≡ m → Reported told t.manager → ToldSystem m after (f t))
    → ToldSystem m told o
    → ToldSystem m after (then_hear_all f o)
unfolding then_hear_all
then_hear_all-ToldSystem m told after f none k h = tt
then_hear_all-ToldSystem m told after f (some t) k h = k t h.0 h.1

-- All calls of the machine are heard, one after the other.
pub hear_all-ToldSystem :
    (m : StateMachine) (told : List State) (fuel : ℕ) (w : Setting) (cs : List Callback)
    (s : System)
    → s.manager.machine ≡ m
    → Reported told s.manager
    → ToldSystem m (told ++ states_of cs) (hear_all fuel w cs s)
unfolding hear_all mode_published on_mode_changed publish_status
hear_all-ToldSystem m told fuel w [] s e r =
    (e, subst (λ l. Reported l s.manager) (sym (append-nil told)) r)
hear_all-ToldSystem m told fuel w (Callback.on_state_changed state name ∷ cs) s e r =
    then_hear_all-ToldSystem m (told ++ state ∷ []) (told ++ (state ∷ states_of cs))
      (hear_all fuel w cs) (state_told fuel w state s)
      (λ t f q.
        subst (λ l. ToldSystem m l (hear_all fuel w cs t))
          (append_assoc told (state ∷ []) (states_of cs))
          (hear_all-ToldSystem m (told ++ state ∷ []) fuel w cs t f q))
      (subst (λ k. ToldSystem k (told ++ state ∷ []) (state_told fuel w state s)) e
        (state_told-ToldSystem told fuel w state s r))
hear_all-ToldSystem m told fuel w (Callback.on_mode_changed mode ∷ cs) s e r =
    hear_all-ToldSystem m told fuel w cs (mode_published s (on_mode_changed mode s.manager)) e
      (publish_status-Reported told (record s.manager { current_mode = mode }) r)
