-- ===== src/Diagram/Commands.antt =====
-- Activation and commands.
use packml_ros.Base.{
  ◌≡◌, refl, sym, subst, ap, ◌∙◌, ℕ, zero, suc, Bool, true, false, Option, none, some, List, [],
  ◌∷◌, ◌++◌, arith, length, if◌then◌else◌, Bool-cases, inl, inr, assoc_get,
}
use mathlib.Core.List.{append-nil, append_assoc}
use packml_ros.Common.{State, TransitionCmd}
use packml_ros.Events.{Payload, cmd_event, state_complete_event, error_event}
use packml_ros.Qt.{QtEngine}
use packml_ros.StateMachine.{StateMachine}
use packml_ros.StateMachine.Run.{
  on_exit, finish_operation, operation_event, next_event, rounds, available, first_value, set_twice,
}
use packml_ros.StateMachine.Requests.{
  enter_initial, activate, await, event_loop, answered, request, post_event, is_command,
}
use packml_ros.Diagram.{Cycle, address, next}
use packml_ros.Diagram.Built.{store_of}
use packml_ros.Diagram.Answers.{heard}
use packml_ros.Diagram.Moves.{enter_state, on_entry-enter_state, arrive, replied, moved}
use packml_ros.Diagram.Invariant.{
  IsConsistent, AllPosted-append, next_event-IsConsistent, rounds-IsConsistent, next_event-cons,
}

-- What `init` leaves, and nothing changes.
pub record IsBuilt (cy : Cycle) (m : StateMachine) : Type 0 where
  pub built_store : m.store ≡ store_of cy
  pub initial_object : m.initial ≡ some (address State.aborted)

abbrev pub started : StateMachine → StateMachine
started m = enter_state State.aborted (record m {
  running = true;
  active = some (address State.aborted);
  working = false;
  queue = [];
})

pub started-IsConsistent :
    (cy : Cycle) (m : StateMachine) → IsBuilt cy m → IsConsistent cy (started m)
started-IsConsistent cy m b = record {
  leaf = refl;
  built_store = b.built_store;
  active_object = refl;
  initial_object = b.initial_object;
  shown_name = refl;
  worker = λ h. h;
  posted = tt;
}

pub activate-started :
    (cy : Cycle) (m : StateMachine)
    → IsBuilt cy m
    → m.running ≡ false
    → activate true m ≡ (true, started m)
unfolding activate
activate-started cy m b h =
    ap (λ r. (true, if r then m else enter_initial m.initial m)) h
    ∙ (ap (λ i. (true, enter_initial i m)) b.initial_object
        ∙ ap (λ n. (true, n)) (on_entry-enter_state cy State.aborted _ refl b.built_store))

-- Activating a machine as `init` built it, where a Qt application is there and the machine does not
-- run yet, leaves it consistent and running in ABORTED with nothing queued.
pub activate_lem :
    (cy : Cycle) (m : StateMachine)
    → IsBuilt cy m
    → m.running ≡ false
    → let n = (activate true m).1 in
      IsConsistent cy n × (n.state_value ≡ State.aborted) × (n.running ≡ true) × (n.queue ≡ [])
activate_lem cy m b h =
    subst
      (λ (r : Bool × StateMachine).
        IsConsistent cy r.1
        × (r.1.state_value ≡ State.aborted)
        × (r.1.running ≡ true)
        × (r.1.queue ≡ []))
      (sym (activate-started cy m b h)) (started-IsConsistent cy m b, refl, refl, refl)

-- An event leaves its successors in the queue, and may add to them.
on_exit-queue :
    (p : ℕ) (m : StateMachine) → (more : List Payload) × ((on_exit p m).queue ≡ m.queue ++ more)
unfolding on_exit finish_operation
on_exit-queue p m = elim (Bool-cases m.working) [
  | inl busy ↦ (operation_event (assoc_get m.functions p) ∷ [], ground arith)
  | inr idle ↦ ([], ground (arith, append-nil m.queue))
]

arrive-queue :
    (s : State) (n : Option State) (m : StateMachine)
    → (more : List Payload) × ((arrive s n m).queue ≡ m.queue ++ more)
arrive-queue s none m = ([], sym (append-nil m.queue))
arrive-queue s (some t) m = on_exit-queue (address s) m

replied-queue : (e : Payload) (b : Bool) (m : StateMachine) → (replied e b m).queue ≡ m.queue
replied-queue e b m = ground arith

moved-queue :
    (cy : Cycle) (s : State) (e : Payload) (m : StateMachine)
    → (more : List Payload) × ((moved cy s e m).queue ≡ m.queue ++ more)
moved-queue cy s e m =
    let (more, h) =
      arrive-queue s (next cy (available m) e s)
        (replied e (heard s (next cy (available m) e s)) m) in
    (more, h ∙ ap (λ q. q ++ more) (replied-queue e _ m))

append-length : (q : List Payload) (e : Payload) → length (q ++ e ∷ []) ≡ suc (length q)
append-length [] e = refl
append-length (x ∷ q) e = ap suc (append-length q e)

-- The command's event is queued and its promise is fresh.
abbrev posts : TransitionCmd → StateMachine → StateMachine
posts c m = record m { prom = none; queue = m.queue ++ cmd_event c ∷ [] }

posts-IsConsistent :
    (cy : Cycle) (c : TransitionCmd) (m : StateMachine)
    → is_command c ≡ true
    → IsConsistent cy m
    → IsConsistent cy (posts c m)
posts-IsConsistent cy c m p i = record {
  leaf = i.leaf;
  built_store = i.built_store;
  active_object = i.active_object;
  initial_object = i.initial_object;
  shown_name = i.shown_name;
  worker = i.worker;
  posted = AllPosted-append m.queue _ i.posted (p, tt);
}

arrive-prom : (s : State) (n : Option State) (m : StateMachine) → (arrive s n m).prom ≡ m.prom
unfolding on_exit finish_operation
arrive-prom s none m = refl
arrive-prom s (some t) m = ground arith

arrive-thrown : (s : State) (n : Option State) (m : StateMachine) → (arrive s n m).thrown ≡ m.thrown
unfolding on_exit finish_operation
arrive-thrown s none m = refl
arrive-thrown s (some t) m = ground arith

-- No command is among the events.
abbrev pub NoCommands : List Payload → Type 0
NoCommands [] = Unit {0}
NoCommands (cmd_event c ∷ es) = ⊥
NoCommands (e ∷ es) = NoCommands es

abbrev IsSilent : Payload → Type 0
IsSilent (cmd_event c) = ⊥
IsSilent e = Unit {0}

NoCommands-head :
    (e : Payload) (es : List Payload) → NoCommands (e ∷ es) → IsSilent e × NoCommands es
NoCommands-head (cmd_event c) es h = elim h [ ]
NoCommands-head state_complete_event es h = (tt, h)
NoCommands-head (error_event code) es h = (tt, h)

-- Only a command touches the promise.
moved-prom :
    (cy : Cycle) (s : State) (e : Payload) (m : StateMachine)
    → IsSilent e
    → ((moved cy s e m).prom ≡ m.prom) × ((moved cy s e m).thrown ≡ m.thrown)
moved-prom cy s (cmd_event c) m h = elim h [ ]
moved-prom cy s state_complete_event m h = (arrive-prom s _ m, arrive-thrown s _ m)
moved-prom cy s (error_event code) m h = (arrive-prom s _ m, arrive-thrown s _ m)

post_event-posts :
    (c : TransitionCmd) (m : StateMachine)
    → m.running ≡ true
    → post_event (cmd_event c) (record m { prom = none }) ≡ posts c m
unfolding post_event
post_event-posts c m h = ap (λ r. if r then posts c m else record m { prom = none }) h

-- The machine as it meets a command: all that was queued before is handled.
abbrev pub meets : QtEngine → TransitionCmd → StateMachine → StateMachine
meets qt c m = rounds qt (length m.queue) (posts c m)

abbrev pub heeded : Cycle → TransitionCmd → StateMachine → Option State
heeded cy c n = next cy (available n) (cmd_event c) n.state_value

module _ (qt : QtEngine) (cy : Cycle) where
  rounds-suc : (n : ℕ) (m : StateMachine) → rounds qt (suc n) m ≡ next_event qt (rounds qt n m)
  unfolding rounds
  rounds-suc zero m = refl
  rounds-suc (suc n) m = rounds-suc n (next_event qt m)

  -- After as many rounds as there were events before it, the tail is at the head.
  rounds-queue :
      (q : List Payload) (tail : List Payload) (m : StateMachine)
      → IsConsistent cy m
      → m.queue ≡ q ++ tail
      → (more : List Payload) × ((rounds qt (length q) m).queue ≡ tail ++ more)
  unfolding rounds
  rounds-queue [] tail m c h = ([], h ∙ sym (append-nil tail))
  rounds-queue (e ∷ es) tail m c h =
      let (more, g) = moved-queue cy m.state_value e (record m { queue = es ++ tail }) in
      let (rest, r) =
        rounds-queue es (tail ++ more) (next_event qt m) (next_event-IsConsistent qt cy m c) (
          ap (λ n. n.queue) (next_event-cons qt cy e (es ++ tail) m h c)
          ∙ (g ∙ append_assoc es tail more)) in
      (more ++ rest, r ∙ append_assoc tail more rest)

  rounds-prom :
      (q : List Payload) (tail : List Payload) (m : StateMachine)
      → IsConsistent cy m
      → m.queue ≡ q ++ tail
      → NoCommands q
      → ((rounds qt (length q) m).prom ≡ m.prom) × ((rounds qt (length q) m).thrown ≡ m.thrown)
  unfolding rounds
  rounds-prom [] tail m c h s = (refl, refl)
  rounds-prom (e ∷ es) tail m c h s =
      let (silent, others) = NoCommands-head e es s in
      let k = record m { queue = es ++ tail } in
      let (more, g) = moved-queue cy m.state_value e k in
      let step = next_event-cons qt cy e (es ++ tail) m h c in
      let (p, t) = moved-prom cy m.state_value e k silent in
      let (a, b) =
        rounds-prom es (tail ++ more) (next_event qt m) (next_event-IsConsistent qt cy m c)
          (ap (λ n. n.queue) step ∙ (g ∙ append_assoc es tail more)) others in
      (a ∙ (ap (λ n. n.prom) step ∙ p), b ∙ (ap (λ n. n.thrown) step ∙ t))

  -- A request with one of the nine commands to a running machine in a consistent state, with no
  -- other command queued, is always answered. The machine first handles the completions and errors
  -- that were queued; then it answers, in the state in which the command meets it, as the diagram
  -- says, except that ABORTING accepts every command, and it makes the diagram's move; the promise
  -- is set once, so nothing is thrown.
  pub request_lem :
      (c : TransitionCmd) (m : StateMachine)
      → is_command c ≡ true
      → IsConsistent cy m
      → m.running ≡ true
      → NoCommands m.queue
      → let n = meets qt c m in
        (rest : List Payload) × (n.queue ≡ cmd_event c ∷ rest)
        × (request qt c m
            ≡ some (
              heard n.state_value (heeded cy c n),
              moved cy n.state_value (cmd_event c) (record n { queue = rest }),
            ))
        × ((moved cy n.state_value (cmd_event c) (record n { queue = rest })).thrown ≡ m.thrown)
  unfolding request await event_loop
  request_lem c m p i h silent =
      let n = meets qt c m in
      let ready = posts-IsConsistent cy c m p i in
      let (rest, q) = rounds-queue m.queue (cmd_event c ∷ []) (posts c m) ready refl in
      let (unset, kept) = rounds-prom m.queue (cmd_event c ∷ []) (posts c m) ready refl silent in
      let done = moved cy n.state_value (cmd_event c) (record n { queue = rest }) in
      let last : rounds qt (length (m.queue ++ cmd_event c ∷ [])) (posts c m) ≡ done =
        ap (λ k. rounds qt k (posts c m)) (append-length m.queue (cmd_event c))
        ∙ (rounds-suc (length m.queue) (posts c m)
            ∙ next_event-cons qt cy (cmd_event c) rest n q
                (rounds-IsConsistent qt cy (length m.queue) (posts c m) ready)) in
      let b = heard n.state_value (heeded cy c n) in
      let loop : event_loop qt (posts c m) ≡ done =
        ap (λ r. if r then rounds qt (length (posts c m).queue) (posts c m) else posts c m) h
        ∙ last in
      (
        rest,
        q,
        ap (await qt) (post_event-posts c m h)
            ∙ (ap (λ (d : StateMachine). answered d.prom d) loop
                ∙ ap (λ v. answered v done)
                    (arrive-prom n.state_value (heeded cy c n) _
                      ∙ ap (λ o. first_value o b) unset)),
        arrive-thrown n.state_value (heeded cy c n) _
            ∙ (ap (λ o. set_twice o n.thrown) unset ∙ kept),
      )
