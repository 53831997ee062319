-- ===== src/System/Refused.antt =====
-- What a client's refusal of a new state makes of the nodes.
use packml_ros.Base.{
  ◌≡◌, refl, ap, ◌∙◌, ℕ, ◌<◌, not, ℤ, Bool, true, false, String, some, List, [], ◌∷◌, drop,
  drop-length, length, arith,
}
use mathlib.Core.Path.{fun_ext}
use packml_ros.Common.{State, state_val, state_of_val, mode_val}
use packml_ros.Common.Casts.{int8}
use packml_ros.Messages.{Response, Status}
use packml_ros.NodeInterface.{Node, on_state_trans_req}
use packml_ros.NodeInterface.Handshake.{on_state_trans_req_lem, on_status_changed-follows}
use packml_ros.Manager.ClientMap.{contains}
use packml_ros.Manager.{
  wait_all_futures, call_all_clients, state_answer, publish_status, Manager, kept_promise,
  on_state_changed,
}
use packml_ros.Manager.Waiting.Rounds.{refused_from, AllWithin, wait_all_futures_lem}
use packml_ros.Common.Names.{is_enumerator, state_of_val-state_val}
use packml_ros.Manager.Modes.{int8-state_val}
use packml_ros.System.{System, Setting, deliver, state_told, state_told_to, state_service, asked}
use packml_ros.System.Reached.{AllPrompt, AllReach, AllReach-AllAvailable, AllReach-asked}
use packml_ros.System.NewState.{state_told-some, state_told_to-node}

-- Some client refuses the state, and nobody behind it in the map answers in the same round.
abbrev pub is_refused : Setting → State → List String → Bool
is_refused w state cs = refused_from w.delay (λ c. w.approve_state c state) 0 cs

answer_success :
    (approve : State → Bool) (val : ℤ) (n : Node)
    → (on_state_trans_req approve val n).0.success ≡ approve (state_of_val val)
answer_success approve val n = ground (arith, on_state_trans_req_lem approve val n)

AllPrompt-AllWithin :
    (w : Setting) (answer : String → Response) (k : ℕ) (cs : List String)
    → AllPrompt w k cs
    → AllWithin w.delay answer k cs
AllPrompt-AllWithin w answer k [] a = tt
AllPrompt-AllWithin w answer k (c ∷ cs) (t, d, a) = (d, AllPrompt-AllWithin w answer k cs a)

-- What the manager reads off the answers on a state.
wait-is_refused :
    (fuel k : ℕ) (w : Setting) (state : State) (s : System) (c : String) (cs : List String)
    → is_enumerator state ≡ true
    → k < fuel
    → AllReach w k (c ∷ cs)
    → wait_all_futures fuel
        (state_service w state s.node)
        (c ∷ cs)
        (call_all_clients (state_service w state s.node) (c ∷ cs))
      ≡ some (not (is_refused w state (c ∷ cs)))
wait-is_refused fuel k w state s c cs q h a =
    let val = int8 (state_val state) in
    let named = ap state_of_val (int8-state_val state q) ∙ state_of_val-state_val state q in
    let answer : String → Response =
      λ c. (on_state_trans_req (w.approve_state c) val (s.node c)).0 in
    let same : (λ c. (answer c).success) ≡ (λ c. w.approve_state c state) =
      fun_ext
        λ c. answer_success (w.approve_state c) val (s.node c) ∙ ap (w.approve_state c) named in
    wait_all_futures_lem w.delay answer w.there w.spins c cs k fuel
      (AllReach-AllAvailable w k answer (c ∷ cs) a) a.1
      (AllPrompt-AllWithin w answer k (c ∷ cs) a.0) h
    ∙ ap (λ agrees. some (not (refused_from w.delay agrees 0 (c ∷ cs)))) same

approved_node :
    (approve : State → Bool) (state : State) (val : ℤ) (n : Node)
    → state_of_val val ≡ state
    → approve state ≡ true
    → (on_state_trans_req approve val n).1
      ≡ record n { waiting_for_new_state = true; switching_state = state }
approved_node approve state val n e y =
    ap (λ p. p.1) (on_state_trans_req_lem approve val n) ∙ rw (e, y) refl

-- A node that agrees to a state of which it then hears nothing.
state_told_to-asked :
    (w : Setting) (state : State) (s : System) (h : Manager) (d : String)
    → is_enumerator state ≡ true
    → drop (length s.manager.published) h.published ≡ []
    → asked w s.manager d ≡ true
    → w.approve_state d state ≡ true
    → (state_told_to w state s h).node d
      ≡ record (s.node d) { waiting_for_new_state = true; switching_state = state }
unfolding state_told_to deliver
state_told_to-asked w state s h d q p a y =
    let named = ap state_of_val (int8-state_val state q) ∙ state_of_val-state_val state q in
    rw (p, a) (approved_node (w.approve_state d) state (int8 (state_val state)) (s.node d) named y)

-- The machine tells the manager of an enumerator, there is at least one client, all are there, all
-- answer by round `k` below the fuel, and some client refuses and no client behind it in the map
-- answers in the same round. Then the manager neither keeps nor publishes the state, although its
-- machine is in it, and every client node that approved waits for that state, otherwise unchanged.
pub state_told-refused :
    (fuel k : ℕ) (w : Setting) (state : State) (s : System) (c : String) (cs : List String)
    → is_enumerator state ≡ true
    → s.manager.clients ≡ c ∷ cs
    → k < fuel
    → AllReach w k (c ∷ cs)
    → is_refused w state (c ∷ cs) ≡ true
    → (t : System) × (state_told fuel w state s ≡ some t)
      × (t.manager ≡ record s.manager { changed_prom = kept_promise })
      × ((d : String)
          → contains d (c ∷ cs) ≡ true
          → w.approve_state d state ≡ true
          → t.node d ≡ record (s.node d) { waiting_for_new_state = true; switching_state = state })
unfolding state_told_to on_state_changed state_answer deliver
state_told-refused fuel k w state s c cs q e f a refuses =
    let g = s.manager in
    let h = record g { changed_prom = kept_promise } in
    (
      state_told_to w state s h,
      state_told-some fuel w state s h
          (rw (e, wait-is_refused fuel k w state s c cs q f a, refuses) refl),
      refl,
      λ d m y.
          state_told_to-asked w state s h d q (drop-length g.published)
            (AllReach-asked w k g (c ∷ cs) d e a m) y,
    )

-- The machine tells the manager of an enumerator, there is at least one client, all are there, all
-- answer by round `k` below the fuel, no `spin_once` blocks up to it, and behind every client that
-- refuses another one answers in the same round. Then the manager keeps and publishes the state,
-- whoever refused, and every client node is in it, the refusing ones too.
pub state_told-overruled :
    (fuel k : ℕ) (w : Setting) (state : State) (s : System) (c : String) (cs : List String)
    → is_enumerator state ≡ true
    → s.manager.clients ≡ c ∷ cs
    → k < fuel
    → AllReach w k (c ∷ cs)
    → is_refused w state (c ∷ cs) ≡ false
    → (t : System) × (state_told fuel w state s ≡ some t)
      × (t.manager
          ≡ publish_status
              (record s.manager { changed_prom = kept_promise; current_state = state }))
      × ((d : String)
          → contains d (c ∷ cs) ≡ true
          → state_val (t.node d).current_state ≡ state_val state)
unfolding state_told_to on_state_changed state_answer publish_status
state_told-overruled fuel k w state s c cs q e f a passes =
    let g = s.manager in
    let h = publish_status (record g { changed_prom = kept_promise; current_state = state }) in
    let status : Status = record {
      state_val = int8 (state_val state);
      mode_val = int8 (mode_val g.current_mode);
    } in
    (
      state_told_to w state s h,
      state_told-some fuel w state s h
          (rw (e, wait-is_refused fuel k w state s c cs q f a, passes) refl),
      refl,
      λ d m.
          ap (λ n. state_val n.current_state)
            (state_told_to-node w state s h status d refl (AllReach-asked w k g (c ∷ cs) d e a m))
          ∙ ((on_status_changed-follows status
                (on_state_trans_req (w.approve_state d) (int8 (state_val state)) (s.node d)).1).0
              ∙ int8-state_val state q),
    )
