-- ===== src/System/NewMode.antt =====
-- What a mode request makes of the nodes.
use packml_ros.Base.{
  ◌≡◌, refl, ap, ◌∙◌, subst, ℕ, zero, suc, ◌<◌, ℤ, Bool, true, not, ◌&&◌, String, Option, none,
  some, List, [], ◌∷◌, ◌++◌, drop, drop-append, length, arith, ◌==◌, ◌⊎◌,
}
use packml_ros.Common.{State, ModeType, state_val, mode_val, mode_of_val}
use packml_ros.Common.Casts.{int8, mode_val-mode_of_val}
use packml_ros.Messages.{Response, Status, new_response, success_code}
use packml_ros.Diagram.{Cycle}
use packml_ros.Diagram.Built.{store_of}
use packml_ros.Diagram.Modes.{change_mode-switched}
use packml_ros.StateMachine.Requests.{change_mode}
use packml_ros.System.{has_value}
use packml_ros.System.Told.{deliver_around-view}
use packml_ros.System.Sync.{mode_request-view}
use packml_ros.NodeInterface.{Node, on_mode_trans_req, on_status_changed}
use packml_ros.NodeInterface.Handshake.{
  differs, on_status_changed-follows, on_status_changed-told, on_mode_trans_req_lem,
}
use packml_ros.Manager.ClientMap.{contains}
use packml_ros.Manager.{Manager, publish_status, on_mode_changed, on_change_mode}
use mathlib.Core.List.{append_assoc}
use packml_ros.Manager.Modes.{on_change_mode-agreed, mode_told}
use packml_ros.System.{
  System, Setting, deliver, deliver_around, mode_requested, mode_told_to, mode_service, asked,
}
use packml_ros.System.Reached.{
  AllReach, AllReach-AllAvailable, AllReach-AllAnswer, service_of-Agrees, AllReach-asked,
}

approved_mode :
    (approve : ModeType → Bool) (val : ℤ) (n : Node)
    → approve (mode_of_val val) ≡ true
    → (on_mode_trans_req approve val n).0.success ≡ true
approved_mode approve val n y = ground (arith, on_mode_trans_req_lem approve val n, y)

-- A node that agrees to a mode around two statuses with that mode: where it handles one before the
-- request, neither frees it.
agreed_around :
    (i : ℕ) (approve : ModeType → Bool) (status : Status) (n : Node)
    → approve (mode_of_val status.mode_val) ≡ true
    → (deliver_around i
        (λ n. (on_mode_trans_req approve status.mode_val n).1)
        (status ∷ status ∷ [])
        n).waiting_for_new_mode
      ≡ not (i == 0 && differs (mode_val n.current_mode) status.mode_val)
unfolding deliver_around deliver
agreed_around zero approve status n y =
    let k = (on_mode_trans_req approve status.mode_val n).1 in
    let h = on_status_changed status k in
    ground (
      arith,
      y,
      on_mode_trans_req_lem approve status.mode_val n,
      on_status_changed-told status k,
      on_status_changed-follows status k,
      on_status_changed-told status h,
    )
agreed_around (suc zero) approve status n y =
    let h = on_status_changed status n in
    let k = (on_mode_trans_req approve status.mode_val h).1 in
    ground (
      arith,
      y,
      on_mode_trans_req_lem approve status.mode_val h,
      on_status_changed-told status k,
      on_status_changed-follows status n,
    )
agreed_around (suc (suc zero)) approve status n y =
    let h = on_status_changed status (on_status_changed status n) in
    ground (arith, y, on_mode_trans_req_lem approve status.mode_val h)
agreed_around (suc (suc (suc i))) approve status n y =
    let h = on_status_changed status (on_status_changed status n) in
    ground (arith, y, on_mode_trans_req_lem approve status.mode_val h)

around_view :
    (i : ℕ) (approve : ModeType → Bool) (val : ℤ) (status : Status) (n : Node)
    → mode_val
        (deliver_around i
          (λ n. (on_mode_trans_req approve val n).1)
          (status ∷ status ∷ [])
          n).current_mode
      ≡ status.mode_val
around_view i approve val status n =
    ap (λ v. v.1)
      (deliver_around-view i (λ n. (on_mode_trans_req approve val n).1) (status ∷ status ∷ []) n
        (mode_request-view approve val true))

agreed_to :
    (i : ℕ) (approve : ModeType → Bool) (val : ℤ) (status : Status) (n : Node)
    → status.mode_val ≡ val
    → approve (mode_of_val val) ≡ true
    → (deliver_around i
        (λ n. (on_mode_trans_req approve val n).1)
        (status ∷ status ∷ [])
        n).waiting_for_new_mode
      ≡ not (i == 0 && differs (mode_val n.current_mode) val)
agreed_to i approve val status n e =
    subst
      (λ val.
        approve (mode_of_val val) ≡ true
        → (deliver_around i (λ n. (on_mode_trans_req approve val n).1) (status ∷ status ∷ [])
            n).waiting_for_new_mode
          ≡ not (i == 0 && differs (mode_val n.current_mode) val))
      e (agreed_around i approve status n)

mode_requested-some :
    (fuel : ℕ) (w : Setting) (val : ℤ) (s : System) (r : Response) (h : Manager)
    → on_change_mode fuel (mode_service w val s.node) val s.manager ≡ some (r, h)
    → mode_requested fuel w val s ≡ some (r, mode_told_to w val s h)
unfolding mode_requested
mode_requested-some fuel w val s r h e =
    ap
      (λ (o : Option (Response × Manager)). elim o [
        | none ↦ none
        | some (r, h) ↦ some (r, mode_told_to w val s h)
      ])
      e

mode_told_to-node :
    (w : Setting) (val : ℤ) (s : System) (h : Manager) (ss : List Status) (d : String)
    → h.published ≡ s.manager.published ++ ss
    → has_value (change_mode (mode_of_val val) s.manager.machine) ≡ true
    → asked w s.manager d ≡ true
    → (mode_told_to w val s h).node d
      ≡ deliver_around
          (w.handled_before d)
          (λ n. (on_mode_trans_req (w.approve_mode d) val n).1)
          ss
          (s.node d)
unfolding mode_told_to
mode_told_to-node w val s h ss d p v a =
    rw (v, a, ap (drop (length s.manager.published)) p ∙ drop-append s.manager.published ss) refl

-- The manager's machine has the store that `init` built and shows IDLE or has no mode yet, the
-- requested number fits in an `int8`, there is at least one client, all are there, all answer by
-- round `k` below the fuel, no `spin_once` blocks up to it, and every node approves the mode. Then
-- the request succeeds and the manager and every client node have the mode; but a client node stops
-- waiting for it only if it was in another mode and handles the request before the statuses that
-- are published around it, and otherwise it waits on.
pub mode_requested-agreed :
    (cy : Cycle) (fuel k : ℕ) (w : Setting) (val : ℤ) (s : System) (c : String) (cs : List String)
    → s.manager.machine.store ≡ store_of cy
    → (s.manager.machine.state_value ≡ State.idle) ⊎ (s.manager.machine.current_mode.name ≡ "")
    → int8 val ≡ val
    → s.manager.clients ≡ c ∷ cs
    → k < fuel
    → AllReach w k (c ∷ cs)
    → ((d : String) → w.approve_mode d (mode_of_val val) ≡ true)
    → (t : System) × (mode_requested fuel w val s
        ≡ some (record new_response { success = true; error_code = success_code }, t))
      × (t.manager.current_mode ≡ mode_of_val val)
      × ((d : String)
          → contains d (c ∷ cs) ≡ true
          → (mode_val (t.node d).current_mode ≡ val)
            × ((t.node d).waiting_for_new_mode
                ≡ not (w.handled_before d == 0 && differs (mode_val (s.node d).current_mode) val)))
unfolding publish_status on_mode_changed mode_told_to
mode_requested-agreed cy fuel k w val s c cs st idle q e f a y =
    let g = s.manager in
    let mode = mode_of_val val in
    let h = publish_status (mode_told mode g) in
    let status : Status = record {
      state_val = int8 (state_val g.current_state);
      mode_val = int8 (mode_val mode);
    } in
    let fits : int8 (mode_val mode) ≡ val = ap int8 (mode_val-mode_of_val val) ∙ q in
    let service = mode_service w val s.node in
    let answer : String → Response = λ c. (on_mode_trans_req (w.approve_mode c) val (s.node c)).0 in
    let r = record new_response { success = true; error_code = success_code } in
    let node : (d : String)
        → contains d (c ∷ cs) ≡ true
        → (mode_told_to w val s h).node d
          ≡ deliver_around (w.handled_before d)
              (λ n. (on_mode_trans_req (w.approve_mode d) val n).1) (status ∷ status ∷ [])
              (s.node d) =
      λ d m.
        mode_told_to-node w val s h (status ∷ status ∷ []) d
          (append_assoc g.published (status ∷ []) (status ∷ []))
          (ap has_value (change_mode-switched cy mode g.machine st idle))
          (AllReach-asked w k g (c ∷ cs) d e a m) in
    (
      mode_told_to w val s h,
      mode_requested-some fuel w val s r h (
          on_change_mode-agreed cy service c cs k fuel val g st idle e f a.1
            (AllReach-AllAvailable w k answer (c ∷ cs) a) (AllReach-AllAnswer w k answer (c ∷ cs) a)
            (λ j.
              service_of-Agrees w answer j
                (λ d. approved_mode (w.approve_mode d) val (s.node d) (y d)))),
      refl,
      λ d m. (
        ap (λ n. mode_val n.current_mode) (node d m)
            ∙ (around_view (w.handled_before d) (w.approve_mode d) val status (s.node d) ∙ fits),
        ap (λ n. n.waiting_for_new_mode) (node d m)
            ∙ agreed_to (w.handled_before d) (w.approve_mode d) val status (s.node d) fits (y d),
      ),
    )
