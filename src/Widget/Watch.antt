-- ===== src/Widget/Watch.antt =====
-- The panel's timer against the node's status service.
use packml_ros.Base.{
  ◌≡◌, refl, ap, ℕ, zero, suc, ◌+◌, true, String, ◌<>◌, some, arith, if◌then◌else◌,
}
use packml_ros.Common.{State, state_val}
use packml_ros.Messages.{Times}
use packml_ros.StateMachine.{StateMachine}
use packml_ros.StateMachine.Requests.{state_eq}
use packml_ros.Diagram.{is_leaf, commanded}
use packml_ros.Widget.{Button}
use packml_ros.Widget.Enabled.{enabled, is_heeded, command_of, enabled-commanded}
use packml_ros.SmNode.{status_of, status_request}
use packml_ros.Widget.Times.{Labels, Display, bool_text, callback_time, timer_event}

-- `n` timer events, each answered by the node, whose machine does not move
unfoldable pub watch : (ℕ → String) → StateMachine → ℕ → Times → Display → Times × Display
unfolding timer_event status_request
watch fixed m zero t d = (t, d)
watch fixed m (suc n) t d =
    let (result, u) = status_request m t in watch fixed m n u (timer_event fixed (some result) d)

abbrev pub time_of : State → Times → ℕ
time_of State.stopped t = t.t_stopped_state
time_of State.idle t = t.t_idle_state
time_of State.starting t = t.t_starting_state
time_of State.execute t = t.t_execute_state
time_of State.completing t = t.t_completing_state
time_of State.complete t = t.t_complete_state
time_of State.clearing t = t.t_clearing_state
time_of State.suspended t = t.t_suspended_state
time_of State.aborting t = t.t_aborting_state
time_of State.aborted t = t.t_aborted_state
time_of State.holding t = t.t_holding_state
time_of State.held t = t.t_held_state
time_of State.unholding t = t.t_unholding_state
time_of State.suspending t = t.t_suspending_state
time_of State.unsuspending t = t.t_unsuspending_state
time_of State.resetting t = t.t_resetting_state
time_of State.stopping t = t.t_stopping_state
time_of _ t = 0

abbrev pub label_of : State → Labels → String
label_of State.stopped l = l.stopped_state
label_of State.idle l = l.idle_state
label_of State.starting l = l.starting_state
label_of State.execute l = l.execute_state
label_of State.completing l = l.completing_state
label_of State.complete l = l.complete_state
label_of State.clearing l = l.clearing_state
label_of State.suspended l = l.suspended_state
label_of State.aborting l = l.aborting_state
label_of State.aborted l = l.aborted_state
label_of State.holding l = l.holding_state
label_of State.held l = l.held_state
label_of State.unholding l = l.unholding_state
label_of State.suspending l = l.suspending_state
label_of State.unsuspending l = l.unsuspending_state
label_of State.resetting l = l.resetting_state
label_of State.stopping l = l.stopping_state
label_of _ l = ""

abbrev pub title_of : State → String
title_of State.stopped = "Stopped: "
title_of State.idle = "Idle: "
title_of State.starting = "Starting: "
title_of State.execute = "Executing: "
title_of State.completing = "Completing: "
title_of State.complete = "Complete: "
title_of State.clearing = "Clearing: "
title_of State.suspended = "Suspended: "
title_of State.aborting = "Aborting: "
title_of State.aborted = "Aborted: "
title_of State.holding = "Holding: "
title_of State.held = "Held: "
title_of State.unholding = "Unholding: "
title_of State.suspending = "Suspending: "
title_of State.unsuspending = "Unsuspending: "
title_of State.resetting = "Resetting: "
title_of State.stopping = "Stopping: "
title_of _ = ""

-- What a label's text says of its state while the machine shows `now`.
abbrev pub reading : (ℕ → String) → State → State → ℕ → String
reading fixed now State.complete n = bool_text (state_eq now State.complete)
reading fixed now s n = fixed n

status_of-time :
    (now s : State) (t : Times)
    → is_leaf now ≡ true
    → is_leaf s ≡ true
    → time_of s (status_of now t).times ≡ (if state_eq now s then time_of s t + 1 else time_of s t)
unfolding status_of state_val
status_of-time State.clearing s t n h = ground arith
status_of-time now s t n h = ground arith

watch-time :
    (fixed : ℕ → String) (m : StateMachine) (n : ℕ) (t : Times) (d : Display) (s : State)
    → is_leaf m.state_value ≡ true
    → is_leaf s ≡ true
    → time_of s (watch fixed m n t d).0
      ≡ (if state_eq m.state_value s then time_of s t + n else time_of s t)
unfolding watch status_request
watch-time fixed m zero t d s h k = ground arith
watch-time fixed m (suc n) t d s h k =
    let result = status_of m.state_value t in
    ground (
      arith,
      watch-time fixed m n result.times (timer_event fixed (some result) d) s h k,
      status_of-time m.state_value s t h k,
    )

status_of-complete :
    (now : State) (t : Times)
    → is_leaf now ≡ true
    → (status_of now t).flags.complete_state ≡ state_eq now State.complete
unfolding status_of state_val
status_of-complete State.clearing t h = refl
status_of-complete now t h = ground arith

label_of-callback_time :
    (fixed : ℕ → String) (now s : State) (t : Times)
    → is_leaf now ≡ true
    → is_leaf s ≡ true
    → let result = status_of now t in
      label_of s (callback_time fixed result)
      ≡ title_of s <> reading fixed now s (time_of s result.times) <> "s"
unfolding callback_time
label_of-callback_time fixed now State.undefined t n h = ground (arith, h)
label_of-callback_time fixed now (State.unnamed z) t n h = ground (arith, h)
label_of-callback_time fixed now State.complete t n h =
    ap (λ b. "Complete: " <> bool_text b <> "s") (status_of-complete now t n)
label_of-callback_time fixed now _ t n h = refl

watch-label :
    (fixed : ℕ → String) (m : StateMachine) (n : ℕ) (t : Times) (d : Display) (s : State)
    → is_leaf m.state_value ≡ true
    → is_leaf s ≡ true
    → let (u, e) = watch fixed m (suc n) t d in
      label_of s e.labels ≡ title_of s <> reading fixed m.state_value s (time_of s u) <> "s"
unfolding watch status_request timer_event
watch-label fixed m zero t d s h k = label_of-callback_time fixed m.state_value s t h k
watch-label fixed m (suc n) t d s h k =
    let result = status_of m.state_value t in
    watch-label fixed m n result.times (timer_event fixed (some result) d) s h k

watch-enabled :
    (fixed : ℕ → String) (m : StateMachine) (n : ℕ) (t : Times) (d : Display) (b : Button)
    → enabled b (watch fixed m (suc n) t d).1.panel
      ≡ is_heeded (commanded (command_of b) m.state_value)
unfolding watch status_request timer_event
watch-enabled fixed m zero t d b = enabled-commanded m.state_value b t d.panel
watch-enabled fixed m (suc n) t d b =
    let result = status_of m.state_value t in
    watch-enabled fixed m n result.times (timer_event fixed (some result) d) b

-- While the machine stays in a state of the diagram, after `n + 1` timer events that the node
-- answers: the time of that state has grown by `n + 1` steps and no other has; each label shows its
-- state's time, except that of COMPLETE, which shows whether the machine is in COMPLETE; and a
-- button is enabled exactly if the diagram heeds its command.
pub watch_lem :
    (fixed : ℕ → String) (m : StateMachine) (n : ℕ) (t : Times) (d : Display)
    → is_leaf m.state_value ≡ true
    → let (u, e) = watch fixed m (suc n) t d in
      ((s : State)
        → is_leaf s ≡ true
        → (time_of s u ≡ (if state_eq m.state_value s then time_of s t + suc n else time_of s t))
          × (label_of s e.labels
              ≡ title_of s <> reading fixed m.state_value s (time_of s u) <> "s"))
      × ((b : Button) → enabled b e.panel ≡ is_heeded (commanded (command_of b) m.state_value))
watch_lem fixed m n t d h = (
  λ s k. (watch-time fixed m (suc n) t d s h k, watch-label fixed m n t d s h k),
  watch-enabled fixed m n t d,
)
