-- ===== src/System/Whole/Reports.antt =====
-- What the manager may have published of the states that the machine told it.
use packml_ros.Base.{◌≡◌, refl, ap, List, [], ◌∷◌, ◌++◌}
use packml_ros.Common.{State, ModeType}
use packml_ros.Messages.{Status}
use packml_ros.StateMachine.{Callback, on_state_changed, on_mode_changed}
use packml_ros.Manager.{Manager, publish_status}
use packml_ros.System.Race.{status_with}

-- the states that were told
abbrev pub states_of : List Callback → List State
states_of [] = []
states_of (on_state_changed state name ∷ cs) = state ∷ states_of cs
states_of (on_mode_changed mode ∷ cs) = states_of cs

pub states_of-append : (cs ds : List Callback) → states_of (cs ++ ds) ≡ states_of cs ++ states_of ds
states_of-append [] ds = refl
states_of-append (on_state_changed state name ∷ cs) ds =
    ap (λ ss. state ∷ ss) (states_of-append cs ds)
states_of-append (on_mode_changed mode ∷ cs) ds = states_of-append cs ds

-- The states that the machine told, the state that the manager holds, and its statuses. It starts
-- with UNDEFINED; a state that is told is passed over or becomes the one that is held; and a status
-- has the state that is held when it is published, or comes right after the first status of that
-- state and has the one that was held before.
pub data Reports : List State → State → List Status → Type 0 where
  untold : Reports [] State.undefined []
  passed_over :
      (told : List State) (held : State) (published : List Status) (state : State)
      → Reports told held published
      → Reports (told ++ state ∷ []) held published
  kept :
      (told : List State) (held : State) (published : List Status) (state : State)
      → Reports told held published
      → Reports (told ++ state ∷ []) state published
  publishes :
      (told : List State) (held : State) (published : List Status) (mode : ModeType)
      → Reports told held published
      → Reports told held (published ++ status_with held mode ∷ [])
  overtaken :
      (told : List State) (held : State) (published : List Status) (state : State)
      (mode late : ModeType)
      → Reports told held published
      → Reports
          (told ++ state ∷ [])
          state
          ((published ++ status_with state mode ∷ []) ++ status_with held late ∷ [])

-- the same of a manager
abbrev pub Reported : List State → Manager → Type 0
Reported told g = Reports told g.current_state g.published

pub publish_status-Reported :
    (told : List State) (g : Manager) → Reported told g → Reported told (publish_status g)
unfolding publish_status
publish_status-Reported told g r = publishes told g.current_state g.published g.current_mode r
