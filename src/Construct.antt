-- ===== src/Construct.antt =====
-- packml_sm/src/state_machine.cpp: the parts of a machine's construction that work on the store.
-- The constructor of `StateMachine` builds a set of states of its own; `init` of either cycle has
-- the generator build another, which is the set that runs.
use packml_ros.Base.{ℕ, Option, none, some, List, [], ◌∷◌, ◌==◌, Bool, false, if◌then◌else◌}
use packml_ros.Common.{State, state_to_string}
use packml_ros.Store.{
  Build, pure, ◌>>=◌, ◌>>◌, object_at, transition_at, add_transition, remove_transition, connect,
  state_named,
}
use packml_ros.ActingState
use packml_ros.ActingState.{default_delay_ms}
use packml_ros.WaitState
use packml_ros.Generator.{generate_transition, state_completed}

-- The members that point at the constructor's own states, as far as anything reads them.
pub record Members : Type 0 where
  pub abortable_ : ℕ
  pub aborted_ : ℕ
  pub aborting_ : ℕ
  pub resetting_ : ℕ
  pub execute_ : ℕ

-- `StateMachine::StateMachine()`, but for `sm_internal_.addState`
unfoldable pub construct : Build Members
unfolding connect WaitState.abortable WaitState.stoppable WaitState.held WaitState.idle
    WaitState.complete WaitState.suspended WaitState.stopped WaitState.aborted ActingState.unholding
    ActingState.holding ActingState.starting ActingState.completing ActingState.resetting
    ActingState.unsuspending ActingState.suspending ActingState.stopping ActingState.clearing
    ActingState.aborting ActingState.execute
construct = do
  abortable_ ← WaitState.abortable
  stoppable_ ← WaitState.stoppable abortable_
  held_ ← WaitState.held stoppable_
  idle_ ← WaitState.idle stoppable_
  complete_ ← WaitState.complete stoppable_
  suspended_ ← WaitState.suspended stoppable_
  stopped_ ← WaitState.stopped abortable_
  aborted_ ← WaitState.aborted
  unholding_ ← ActingState.unholding stoppable_ 200
  holding_ ← ActingState.holding stoppable_ 200
  starting_ ← ActingState.starting stoppable_ default_delay_ms
  completing_ ← ActingState.completing stoppable_ default_delay_ms
  resetting_ ← ActingState.resetting stoppable_ default_delay_ms
  unsuspending_ ← ActingState.unsuspending stoppable_ default_delay_ms
  suspending_ ← ActingState.suspending stoppable_ default_delay_ms
  stopping_ ← ActingState.stopping abortable_ default_delay_ms
  clearing_ ← ActingState.clearing abortable_ default_delay_ms
  aborting_ ← ActingState.aborting default_delay_ms
  execute_ ← ActingState.execute stoppable_ default_delay_ms
  connect abortable_
  connect stoppable_
  connect unholding_
  connect held_
  connect holding_
  connect idle_
  connect starting_
  connect completing_
  connect complete_
  connect resetting_
  connect unsuspending_
  connect suspended_
  connect suspending_
  connect stopped_
  connect stopping_
  connect clearing_
  connect aborted_
  connect aborting_
  connect execute_
  pure (record {
    abortable_ = abortable_;
    aborted_ = aborted_;
    aborting_ = aborting_;
    resetting_ = resetting_;
    execute_ = execute_;
  })

abbrev is_target : ℕ → Option ℕ → Bool
is_target p none = false
is_target p (some q) = q == p

-- The loop of `ContinuousCycle::init`: a transition of EXECUTE to COMPLETING gives way to one from
-- EXECUTE to itself.
unfoldable redirect : ℕ → ℕ → List ℕ → Build (Unit {0})
unfolding transition_at remove_transition generate_transition add_transition
redirect execute completing [] = pure tt
redirect execute completing (item ∷ items) = do
  arrow ← transition_at item
  (if is_target completing arrow.target
      then (do
        remove_transition execute item
        trans ← generate_transition execute state_completed
        add_transition execute trans)
      else pure tt)
  redirect execute completing items

unfoldable pub redirect_execute : Build (Unit {0})
unfolding redirect state_named object_at
redirect_execute = do
  execute ← state_named (state_to_string State.execute)
  completing ← state_named (state_to_string State.completing)
  object ← object_at execute
  redirect execute completing object.transitions
