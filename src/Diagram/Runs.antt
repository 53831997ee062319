-- ===== src/Diagram/Runs.antt =====
-- Every run of a machine that was started: events are handled one by one, threads end, and clients
-- post commands, choose modes and set operations, in any order.
use packml_ros.Base.{
  ◌≡◌, refl, sym, subst, ap, ◌∙◌, ℕ, ℤ, Bool, true, String, Option, none, some, List, [], ◌∷◌, ◌++◌,
  arith,
}
use packml_ros.Common.{State, ModeType, TransitionCmd, state_to_string}
use packml_ros.Events.{Payload, cmd_event, state_complete_event, error_event}
use packml_ros.Qt.{QtEngine}
use packml_ros.StateMachine.{StateMachine, Callback, on_state_changed, on_mode_changed}
use packml_ros.StateMachine.Run.{on_exit, finish_operation, next_event, available}
use packml_ros.StateMachine.Requests.{
  Expected, post_event, change_mode, set_execute, set_resetting, deactivate, is_command,
}
use packml_ros.Transitions.{Available}
use packml_ros.Diagram.{Cycle, next, wanted, permitted}
use packml_ros.Diagram.Moves.{arrive, replied, moved}
use packml_ros.Diagram.Invariant.{IsConsistent}

module _ (qt : QtEngine) where
  -- What may happen to a machine once it runs.
  pub data Step (m : StateMachine) : StateMachine → Type 0 where
    handle : m.running ≡ true → Step m (next_event qt m)
    thread_ends : (p : ℕ) → m.active ≡ some p → m.working ≡ true → Step m (finish_operation p m)
    command : (c : TransitionCmd) → is_command c ≡ true → Step m (post_event (cmd_event c) m)
    choose_mode :
        (mode : ModeType) (r : Expected × StateMachine) → change_mode mode m ≡ some r → Step m r.1
    give_execute : (code : ℤ) → Step m (set_execute code m).1
    give_resetting : (code : ℤ) → Step m (set_resetting code m).1
    halt : Step m (deactivate m).1

  pub data Reach (m : StateMachine) : StateMachine → Type 0 where
    here : Reach m m
    then : {n k : StateMachine} → Reach m n → Step n k → Reach m k

-- An arrow of the diagram, for some event.
abbrev Arrow : Cycle → State → State → Type 0
Arrow cy s t = (e : Payload) × (wanted cy e s ≡ some t)

-- The states that the callbacks reported, one after the other: each is told with its own name,
-- the first is ABORTED, and every two in a row are joined by an arrow of the diagram.
abbrev pub Follows : Cycle → Option State → State → Type 0
Follows cy none t = t ≡ State.aborted
Follows cy (some s) t = Arrow cy s t

abbrev pub IsPath : Cycle → Option State → List Callback → Type 0
IsPath cy before [] = Unit {0}
IsPath cy before (on_state_changed t name ∷ cs) =
    Follows cy before t × (name ≡ state_to_string t) × IsPath cy (some t) cs
IsPath cy before (on_mode_changed mode ∷ cs) = IsPath cy before cs

abbrev pub last_state : Option State → List Callback → Option State
last_state before [] = before
last_state before (on_state_changed t name ∷ cs) = last_state (some t) cs
last_state before (on_mode_changed mode ∷ cs) = last_state before cs

pub IsPath-state :
    (cy : Cycle) (before : Option State) (cs : List Callback) (t : State)
    → IsPath cy before cs
    → Follows cy (last_state before cs) t
    → IsPath cy before (cs ++ on_state_changed t (state_to_string t) ∷ [])
IsPath-state cy before [] t p f = (f, refl, tt)
IsPath-state cy before (on_state_changed s name ∷ cs) t p f =
    (p.0, p.1, IsPath-state cy (some s) cs t p.2 f)
IsPath-state cy before (on_mode_changed mode ∷ cs) t p f = IsPath-state cy before cs t p f

pub IsPath-mode :
    (cy : Cycle) (before : Option State) (cs : List Callback) (mode : ModeType)
    → IsPath cy before cs
    → IsPath cy before (cs ++ on_mode_changed mode ∷ [])
IsPath-mode cy before [] mode p = tt
IsPath-mode cy before (on_state_changed s name ∷ cs) mode p =
    (p.0, p.1, IsPath-mode cy (some s) cs mode p.2)
IsPath-mode cy before (on_mode_changed k ∷ cs) mode p = IsPath-mode cy before cs mode p

pub last_state-state :
    (before : Option State) (cs : List Callback) (t : State) (name : String)
    → last_state before (cs ++ on_state_changed t name ∷ []) ≡ some t
last_state-state before [] t name = refl
last_state-state before (on_state_changed s k ∷ cs) t name = last_state-state (some s) cs t name
last_state-state before (on_mode_changed k ∷ cs) t name = last_state-state before cs t name

pub last_state-mode :
    (before : Option State) (cs : List Callback) (mode : ModeType)
    → last_state before (cs ++ on_mode_changed mode ∷ []) ≡ last_state before cs
last_state-mode before [] mode = refl
last_state-mode before (on_state_changed s k ∷ cs) mode = last_state-mode (some s) cs mode
last_state-mode before (on_mode_changed k ∷ cs) mode = last_state-mode before cs mode

-- The machine is consistent, and what it reported is a path that ends where it stands.
pub record IsTracked (cy : Cycle) (m : StateMachine) : Type 0 where
  pub consistent : IsConsistent cy m
  pub path : IsPath cy none m.calls
  pub stands : last_state none m.calls ≡ some m.state_value

-- The trace and the state that a machine shows.
abbrev pub IsTraced : Cycle → StateMachine → Type 0
IsTraced cy m = IsPath cy none m.calls × (last_state none m.calls ≡ some m.state_value)

permitted-wanted :
    (av : Available) (w : Option State) (t : State) → permitted av w ≡ some t → w ≡ some t
permitted-wanted av w t h = ground arith

pub arrive-calls :
    (s t : State) (m : StateMachine)
    → (arrive s (some t) m).calls ≡ m.calls ++ on_state_changed t (state_to_string t) ∷ []
unfolding on_exit finish_operation
arrive-calls s t m = ground arith

replied-IsTraced :
    (cy : Cycle) (e : Payload) (b : Bool) (m : StateMachine)
    → IsTraced cy m
    → IsTraced cy (replied e b m)
replied-IsTraced cy (cmd_event c) b m i = i
replied-IsTraced cy state_complete_event b m i = i
replied-IsTraced cy (error_event code) b m i = i

arrive-IsTraced :
    (cy : Cycle) (s : State) (n : Option State) (m : StateMachine)
    → ((t : State) → n ≡ some t → Arrow cy s t)
    → s ≡ m.state_value
    → IsTraced cy m
    → IsTraced cy (arrive s n m)
arrive-IsTraced cy s none m f h i = i
arrive-IsTraced cy s (some t) m f h i =
    let arrow : Follows cy (last_state none m.calls) t =
      subst (λ o. Follows cy o t) (sym (i.1 ∙ ap some (sym h))) (f t refl) in
    (
      subst (IsPath cy none) (sym (arrive-calls s t m)) (IsPath-state cy none m.calls t i.0 arrow),
      ap (last_state none) (arrive-calls s t m)
          ∙ last_state-state none m.calls t (state_to_string t),
    )

pub moved-IsTraced :
    (cy : Cycle) (e : Payload) (m : StateMachine)
    → IsTraced cy m
    → IsTraced cy (moved cy m.state_value e m)
moved-IsTraced cy e m i =
    arrive-IsTraced cy m.state_value (next cy (available m) e m.state_value) _
      (λ t h. (e, permitted-wanted (available m) (wanted cy e m.state_value) t h))
      (replied-state e _ m) (replied-IsTraced cy e _ m i)
  where
    replied-state :
        (x : Payload) (b : Bool) (k : StateMachine) → k.state_value ≡ (replied x b k).state_value
    replied-state (cmd_event c) b k = refl
    replied-state state_complete_event b k = refl
    replied-state (error_event code) b k = refl
