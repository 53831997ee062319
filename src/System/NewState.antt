-- ===== src/System/NewState.antt =====
-- What a new state of the machine makes of the nodes.
use packml_ros.Base.{
  ◌≡◌, refl, ap, ◌∙◌, ℕ, ◌<◌, ℤ, Bool, true, not, String, Option, none, some, List, [], ◌∷◌, ◌++◌,
  drop, drop-append, length, arith,
}
use packml_ros.Common.{State, state_val, state_of_val, mode_val}
use packml_ros.Common.Casts.{int8}
use packml_ros.Messages.{Response, Status}
use packml_ros.NodeInterface.{Node, on_state_trans_req, on_status_changed}
use packml_ros.NodeInterface.Handshake.{
  differs, on_status_changed-follows, on_status_changed-told, on_state_trans_req_lem,
}
use packml_ros.Manager.ClientMap.{contains}
use packml_ros.Manager.{Manager, publish_status, kept_promise, on_state_changed}
use packml_ros.Common.Names.{is_enumerator, state_of_val-state_val}
use packml_ros.Manager.Modes.{int8-state_val, on_state_changed-agreed}
use packml_ros.System.{System, Setting, deliver, state_told, state_told_to, state_service, asked}
use packml_ros.System.Reached.{
  AllReach, AllReach-AllAvailable, AllReach-AllAnswer, service_of-Agrees, AllReach-asked,
}

approved_state :
    (approve : State → Bool) (val : ℤ) (n : Node)
    → approve (state_of_val val) ≡ true
    → (on_state_trans_req approve val n).0.success ≡ true
approved_state approve val n y = ground (arith, on_state_trans_req_lem approve val n, y)

-- A node that has agreed to a state and then hears of it.
agreed_then_told :
    (approve : State → Bool) (status : Status) (n : Node)
    → approve (state_of_val status.state_val) ≡ true
    → ((on_status_changed status
          (on_state_trans_req approve status.state_val n).1).waiting_for_new_state
        ≡ not (differs (state_val n.current_state) status.state_val))
agreed_then_told approve status n y = ground (
  arith,
  y,
  on_state_trans_req_lem approve status.state_val n,
  on_status_changed-told status (on_state_trans_req approve status.state_val n).1,
)

pub state_told-some :
    (fuel : ℕ) (w : Setting) (state : State) (s : System) (h : Manager)
    → on_state_changed fuel (state_service w state s.node) state s.manager ≡ some h
    → state_told fuel w state s ≡ some (state_told_to w state s h)
unfolding state_told
state_told-some fuel w state s h e =
    ap (λ (o : Option Manager). elim o [ none ↦ none | some h ↦ some (state_told_to w state s h) ])
      e

pub state_told_to-node :
    (w : Setting) (state : State) (s : System) (h : Manager) (status : Status) (d : String)
    → h.published ≡ s.manager.published ++ status ∷ []
    → asked w s.manager d ≡ true
    → (state_told_to w state s h).node d
      ≡ on_status_changed status
          (on_state_trans_req (w.approve_state d) (int8 (state_val state)) (s.node d)).1
unfolding state_told_to deliver
state_told_to-node w state s h status d p a =
    rw (a, ap (drop (length s.manager.published)) p ∙ drop-append s.manager.published (status ∷ []))
      refl

-- The machine tells the manager of an enumerator, there is at least one client, all are there, all
-- answer by round `k` below the fuel, no `spin_once` blocks up to it, and every node approves. Then
-- the manager renews its promise and keeps and publishes that state, and every client node has it;
-- a client node waits for a new state afterwards only if it already was in that one.
pub state_told-agreed :
    (fuel k : ℕ) (w : Setting) (state : State) (s : System) (c : String) (cs : List String)
    → is_enumerator state ≡ true
    → s.manager.clients ≡ c ∷ cs
    → k < fuel
    → AllReach w k (c ∷ cs)
    → ((d : String) → w.approve_state d state ≡ true)
    → (t : System) × (state_told fuel w state s ≡ some t)
      × (t.manager
          ≡ publish_status
              (record s.manager { changed_prom = kept_promise; current_state = state }))
      × ((d : String)
          → contains d (c ∷ cs) ≡ true
          → (state_val (t.node d).current_state ≡ state_val state)
            × ((t.node d).waiting_for_new_state
                ≡ not (differs (state_val (s.node d).current_state) (state_val state))))
unfolding publish_status state_told_to
state_told-agreed fuel k w state s c cs q e f a y =
    let g = s.manager in
    let h = publish_status (record g { changed_prom = kept_promise; current_state = state }) in
    let status : Status = record {
      state_val = int8 (state_val state);
      mode_val = int8 (mode_val g.current_mode);
    } in
    let fits = int8-state_val state q in
    let named = ap state_of_val fits ∙ state_of_val-state_val state q in
    let approves : (d : String) → w.approve_state d (state_of_val (int8 (state_val state))) ≡ true =
      λ d. ap (w.approve_state d) named ∙ y d in
    let service = state_service w state s.node in
    let answer : String → Response =
      λ c. (on_state_trans_req (w.approve_state c) (int8 (state_val state)) (s.node c)).0 in
    (
      state_told_to w state s h,
      state_told-some fuel w state s h (
          on_state_changed-agreed service c cs k fuel state g e f a.1
            (AllReach-AllAvailable w k answer (c ∷ cs) a) (AllReach-AllAnswer w k answer (c ∷ cs) a)
            (λ j. service_of-Agrees w answer j (λ d.
              approved_state (w.approve_state d) (int8 (state_val state)) (s.node d)
                (approves d)))),
      refl,
      λ d m.
          let n = s.node d in
          let node =
            state_told_to-node w state s h status d refl (AllReach-asked w k g (c ∷ cs) d e a m) in
          (
            ap (λ n. state_val n.current_state) node
                ∙ ((on_status_changed-follows status
                      (on_state_trans_req (w.approve_state d) (int8 (state_val state)) n).1).0
                    ∙ fits),
            ap (λ n. n.waiting_for_new_state) node
                ∙ (agreed_then_told (w.approve_state d) status n (approves d)
                    ∙ ap (λ z. not (differs (state_val n.current_state) z)) fits),
          ),
    )
