-- ===== src/ActingState.antt =====
-- packml_sm/include/packml_sm/states/acting_state.hpp: the acting states. The delay of a state is
-- the default argument, 200 ms, wherever a machine builds one without saying otherwise.
use packml_ros.Base.{ℕ, Option, none, some}
use packml_ros.Common.{State, state_to_string}
use packml_ros.Store.{Kind, Build, new_object}

abbrev pub default_delay_ms : ℕ
default_delay_ms = 200

-- `ActingState(state_value, super_state, delay_ms_value)`
new_acting_state : State → Option ℕ → ℕ → Build ℕ
unfolding new_object state_to_string
new_acting_state state_value super_state delay_ms_value =
    new_object state_value (state_to_string state_value) super_state (Kind.acting delay_ms_value)

unfoldable pub resetting : ℕ → ℕ → Build ℕ
unfolding new_acting_state
resetting stoppable delay_ms = new_acting_state State.resetting (some stoppable) delay_ms

unfoldable pub starting : ℕ → ℕ → Build ℕ
unfolding new_acting_state
starting stoppable delay_ms = new_acting_state State.starting (some stoppable) delay_ms

unfoldable pub unholding : ℕ → ℕ → Build ℕ
unfolding new_acting_state
unholding stoppable delay_ms = new_acting_state State.unholding (some stoppable) delay_ms

unfoldable pub unsuspending : ℕ → ℕ → Build ℕ
unfolding new_acting_state
unsuspending stoppable delay_ms = new_acting_state State.unsuspending (some stoppable) delay_ms

unfoldable pub holding : ℕ → ℕ → Build ℕ
unfolding new_acting_state
holding stoppable delay_ms = new_acting_state State.holding (some stoppable) delay_ms

unfoldable pub suspending : ℕ → ℕ → Build ℕ
unfolding new_acting_state
suspending stoppable delay_ms = new_acting_state State.suspending (some stoppable) delay_ms

unfoldable pub execute : ℕ → ℕ → Build ℕ
unfolding new_acting_state
execute stoppable delay_ms = new_acting_state State.execute (some stoppable) delay_ms

unfoldable pub completing : ℕ → ℕ → Build ℕ
unfolding new_acting_state
completing stoppable delay_ms = new_acting_state State.completing (some stoppable) delay_ms

unfoldable pub aborting : ℕ → Build ℕ
unfolding new_acting_state
aborting delay_ms = new_acting_state State.aborting none delay_ms

unfoldable pub clearing : ℕ → ℕ → Build ℕ
unfolding new_acting_state
clearing abortable delay_ms = new_acting_state State.clearing (some abortable) delay_ms

unfoldable pub stopping : ℕ → ℕ → Build ℕ
unfolding new_acting_state
stopping abortable delay_ms = new_acting_state State.stopping (some abortable) delay_ms
