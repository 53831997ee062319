-- ===== src/System/Told.antt =====
-- What whoever hears the manager's statuses knows of its state and mode.
use packml_ros.Base.{
  ◌≡◌, refl, sym, ap, ◌∙◌, ℕ, zero, suc, ℤ, Bool, true, false, Option, none, some, List, [], ◌∷◌,
  ◌++◌, drop, drop-append, length,
}
use mathlib.Core.List.{append-nil, append_assoc}
use packml_ros.Common.{State, state_val, mode_val, mode_of_val}
use packml_ros.Common.Casts.{int8}
use packml_ros.Messages.{Response, Status}
use packml_ros.StateMachine.{StateMachine}
use packml_ros.StateMachine.Requests.{Expected, value, unexpected, change_mode}
use packml_ros.NodeInterface.{Node, on_status_changed}
use packml_ros.NodeInterface.Handshake.{on_status_changed-follows}
use packml_ros.Manager.{
  Service, Manager, on_state_changed, on_change_mode, state_answer, mode_changed, mode_response,
  publish_status, on_mode_changed, call_all_clients, wait_all_futures, kept_promise,
}
use packml_ros.System.{deliver, deliver_around, news}

-- the numbers of a state and a mode
abbrev pub View : Type 0
View = ℤ × ℤ

abbrev pub node_view : Node → View
node_view n = (state_val n.current_state, mode_val n.current_mode)

-- the numbers that the manager publishes
abbrev pub manager_view : Manager → View
manager_view g = (int8 (state_val g.current_state), int8 (mode_val g.current_mode))

abbrev pub view_after : View → List Status → View
view_after v [] = v
view_after v (status ∷ rest) = view_after (status.state_val, status.mode_val) rest

on_status_changed-view :
    (status : Status) (n : Node)
    → node_view (on_status_changed status n) ≡ (status.state_val, status.mode_val)
on_status_changed-view status n =
    rw ((on_status_changed-follows status n).0, (on_status_changed-follows status n).1)

pub deliver-view :
    (ss : List Status) (n : Node) → node_view (deliver ss n) ≡ view_after (node_view n) ss
unfolding deliver
deliver-view [] n = refl
deliver-view (status ∷ rest) n =
    deliver-view rest (on_status_changed status n)
    ∙ ap (λ v. view_after v rest) (on_status_changed-view status n)

pub deliver_around-view :
    (i : ℕ) (request : Node → Node) (ss : List Status) (n : Node)
    → ((k : Node) → node_view (request k) ≡ node_view k)
    → node_view (deliver_around i request ss n) ≡ view_after (node_view n) ss
unfolding deliver_around
deliver_around-view zero request ss n h =
    deliver-view ss (request n) ∙ ap (λ v. view_after v ss) (h n)
deliver_around-view (suc i) request [] n h = h n
deliver_around-view (suc i) request (status ∷ rest) n h =
    deliver_around-view i request rest (on_status_changed status n) h
    ∙ ap (λ v. view_after v rest) (on_status_changed-view status n)

-- Whoever is at `v` and hears all that the manager has published after `before` has its numbers.
pub record Tells (before : List Status) (v : View) (h : Manager) : Type 0 where
  pub statuses : List Status
  pub adds : h.published ≡ before ++ statuses
  pub leads : view_after v statuses ≡ manager_view h

abbrev pub Told : List Status → View → Option Manager → Type 0
Told before v none = Unit {0}
Told before v (some h) = Tells before v h

abbrev pub Answered : List Status → View → Option (Response × Manager) → Type 0
Answered before v none = Unit {0}
Answered before v (some (r, h)) = Tells before v h

abbrev pub status_of : Manager → Status
status_of g = record {
  state_val = int8 (state_val g.current_state);
  mode_val = int8 (mode_val g.current_mode);
}

-- a manager that publishes nothing, and keeps its state and mode
silent :
    (g h : Manager)
    → h.published ≡ g.published
    → manager_view g ≡ manager_view h
    → Tells g.published (manager_view g) h
silent g h e v = record { statuses = []; adds = e ∙ sym (append-nil g.published); leads = v }

state_answer-Told :
    (state : State) (g : Manager) (o : Option Bool)
    → Told g.published (manager_view g) (state_answer state g o)
unfolding state_answer publish_status
state_answer-Told state g none = tt
state_answer-Told state g (some true) = record {
  statuses = status_of (record g { current_state = state }) ∷ [];
  adds = refl;
  leads = refl;
}
state_answer-Told state g (some false) = silent g g refl refl

pub on_state_changed-Told :
    (fuel : ℕ) (service : Service) (state : State) (g : Manager)
    → Told g.published (manager_view g) (on_state_changed fuel service state g)
unfolding on_state_changed
on_state_changed-Told fuel service state g =
    state_answer-Told state (record g { changed_prom = kept_promise })
      (wait_all_futures fuel service g.clients (call_all_clients service g.clients))

mode_response-Answered :
    (g : Manager) (m : StateMachine) (o : Option Bool)
    → Answered g.published
        (manager_view g)
        (mode_response (on_mode_changed g.switching_mode (record g { machine = m })) o)
unfolding mode_response on_mode_changed publish_status
mode_response-Answered g m none = tt
mode_response-Answered g m (some false) = record {
  statuses = status_of (record g { current_mode = g.switching_mode }) ∷ [];
  adds = refl;
  leads = refl;
}
mode_response-Answered g m (some true) =
    let s = status_of (record g { current_mode = g.switching_mode }) in
    record {
      statuses = s ∷ s ∷ [];
      adds = append_assoc g.published (s ∷ []) (s ∷ []);
      leads = refl;
    }

mode_changed-Answered :
    (fuel : ℕ) (service : Service) (g : Manager) (o : Option (Expected × StateMachine))
    → Answered g.published (manager_view g) (mode_changed fuel service g o)
unfolding mode_changed mode_response on_mode_changed publish_status
mode_changed-Answered fuel service g none = tt
mode_changed-Answered fuel service g (some (unexpected error, m)) =
    silent g (record g { machine = m }) refl refl
mode_changed-Answered fuel service g (some (value b, m)) =
    mode_response-Answered g m
      (wait_all_futures fuel service g.clients (call_all_clients service g.clients))

pub on_change_mode-Answered :
    (fuel : ℕ) (service : Service) (val : ℤ) (g : Manager)
    → Answered g.published (manager_view g) (on_change_mode fuel service val g)
unfolding on_change_mode
on_change_mode-Answered fuel service val g =
    mode_changed-Answered fuel service (record g { switching_mode = mode_of_val val })
      (change_mode (mode_of_val val) g.machine)

news-Tells : (g h : Manager) (t : Tells g.published (manager_view g) h) → news g h ≡ t.statuses
news-Tells g h t = ap (drop (length g.published)) t.adds ∙ drop-append g.published t.statuses

-- A node in sync that hears the news is in sync with the new manager.
told-view :
    (g h : Manager) (v : View)
    → Tells g.published (manager_view g) h
    → v ≡ manager_view g
    → view_after v (news g h) ≡ manager_view h
told-view g h v t e =
    ap (view_after v) (news-Tells g h t) ∙ (ap (λ v. view_after v t.statuses) e ∙ t.leads)
