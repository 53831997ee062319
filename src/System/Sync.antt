-- ===== src/System/Sync.antt =====
-- What the nodes know of the manager, whatever the clients answer, with the two threads of
-- Manager/Threads also at work at once.
pub mod Racing
use packml_ros.Base.{
  ◌≡◌, refl, sym, ap, ◌∙◌, ℤ, Bool, ◌&&◌, String, List, [], ◌∷◌, ◌++◌, drop, drop-append, length,
  arith, if◌then◌else◌,
}
use packml_ros.Common.{State, ModeType, state_val, mode_of_val}
use packml_ros.Common.Casts.{int8}
use packml_ros.Messages.{Status}
use packml_ros.StateMachine.Requests.{change_mode}
use packml_ros.NodeInterface.{Node, on_state_trans_req, on_mode_trans_req}
use packml_ros.Manager.{Manager}
use packml_ros.System.{System, Setting, state_told_to, mode_told_to, news, asked, has_value}
use packml_ros.System.Told.{
  View, node_view, manager_view, view_after, deliver-view, deliver_around-view,
}
use packml_ros.System.Steps.{mode_published}

-- Every node has the numbers that the manager publishes of its state and mode.
abbrev pub IsInSync : System → Type 0
IsInSync s = (c : String) → node_view (s.node c) ≡ manager_view s.manager

-- Every node has the numbers to which all statuses lead, from `v` on.
abbrev pub IsHeard : View → System → Type 0
IsHeard v s = (c : String) → node_view (s.node c) ≡ view_after v s.manager.published

state_request-view :
    (approve : State → Bool) (val : ℤ) (b : Bool) (n : Node)
    → node_view (if b then (on_state_trans_req approve val n).1 else n) ≡ node_view n
unfolding on_state_trans_req
state_request-view approve val b n = ground arith

pub mode_request-view :
    (approve : ModeType → Bool) (val : ℤ) (b : Bool) (n : Node)
    → node_view (if b then (on_mode_trans_req approve val n).1 else n) ≡ node_view n
unfolding on_mode_trans_req
mode_request-view approve val b n = ground arith

pub view_after-append :
    (v : View) (xs ys : List Status) → view_after v (xs ++ ys) ≡ view_after (view_after v xs) ys
view_after-append v [] ys = refl
view_after-append v (x ∷ xs) ys = view_after-append (x.state_val, x.mode_val) xs ys

news-view :
    (v : View) (g h : Manager) (ss : List Status)
    → h.published ≡ g.published ++ ss
    → view_after (view_after v g.published) (news g h) ≡ view_after v h.published
news-view v g h ss e =
    ap (view_after (view_after v g.published))
      (ap (drop (length g.published)) e ∙ drop-append g.published ss)
    ∙ (sym (view_after-append v g.published ss) ∙ ap (view_after v) (sym e))

-- A state, a mode and a status each leave the nodes with what is published.
pub state_told_to-IsHeard :
    (v : View) (w : Setting) (state : State) (s : System) (h : Manager) (ss : List Status)
    → IsHeard v s
    → h.published ≡ s.manager.published ++ ss
    → IsHeard v (state_told_to w state s h)
unfolding state_told_to
state_told_to-IsHeard v w state s h ss i e c =
    let b = asked w s.manager c in
    deliver-view (news s.manager h) (
      if b
      then (on_state_trans_req (w.approve_state c) (int8 (state_val state)) (s.node c)).1
      else s.node c)
    ∙ (ap (λ u. view_after u (news s.manager h))
          (state_request-view (w.approve_state c) (int8 (state_val state)) b (s.node c) ∙ i c)
        ∙ news-view v s.manager h ss e)

pub mode_told_to-IsHeard :
    (v : View) (w : Setting) (val : ℤ) (s : System) (h : Manager) (ss : List Status)
    → IsHeard v s
    → h.published ≡ s.manager.published ++ ss
    → IsHeard v (mode_told_to w val s h)
unfolding mode_told_to
mode_told_to-IsHeard v w val s h ss i e c =
    let b = has_value (change_mode (mode_of_val val) s.manager.machine) && asked w s.manager c in
    deliver_around-view (w.handled_before c)
      (λ n. if b then (on_mode_trans_req (w.approve_mode c) val n).1 else n) (news s.manager h)
      (s.node c) (mode_request-view (w.approve_mode c) val b)
    ∙ (ap (λ u. view_after u (news s.manager h)) (i c) ∙ news-view v s.manager h ss e)

pub mode_published-IsHeard :
    (v : View) (s : System) (h : Manager) (ss : List Status)
    → IsHeard v s
    → h.published ≡ s.manager.published ++ ss
    → IsHeard v (mode_published s h)
unfolding mode_published
mode_published-IsHeard v s h ss i e c =
    deliver-view (news s.manager h) (s.node c)
    ∙ (ap (λ u. view_after u (news s.manager h)) (i c) ∙ news-view v s.manager h ss e)
