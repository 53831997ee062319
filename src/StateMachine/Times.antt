-- ===== src/StateMachine/Times.antt =====
-- The times that a state object keeps: packml_sm/include/packml_sm/states/state.hpp and onEntry and
-- onExit of packml_sm/src/states/state.cpp. Points of time, and durations in floating point, are
-- parameters with the operations that the code uses.
use packml_ros.Base.{◌≡◌, refl, ℕ, List, [], ◌∷◌, ◌==◌, arith, if◌then◌else◌}

pub record Clock : Type 1 where
  pub TimePoint : Type 0
  pub Duration : Type 0
  pub epoch : TimePoint
  pub zero_duration : Duration
  pub add : Duration → Duration → Duration
  pub elapsed : TimePoint → TimePoint → Duration

module _ (clock : Clock) where
  open clock use {TimePoint, Duration, epoch, zero_duration, add, elapsed}

  pub record Times : Type 0 where
    pub enter_time : TimePoint
    pub exit_time : TimePoint
    pub cummulative_time : Duration

  -- the constructor
  abbrev pub new_times : Times
  new_times = record { enter_time = epoch; exit_time = epoch; cummulative_time = zero_duration }

  -- `PackmlState::onEntry`
  abbrev pub entered_at : TimePoint → Times → Times
  entered_at now o = record o { enter_time = now }

  -- `PackmlState::onExit`
  abbrev pub exited_at : TimePoint → Times → Times
  exited_at now o = record o {
    exit_time = now;
    cummulative_time = add o.cummulative_time (elapsed now o.enter_time);
  }

  -- What Qt calls on the objects, in order, each with the point of time that is read then.
  pub data Call : Type 0 where
    entry : (p : ℕ) → (now : TimePoint) → Call
    exit : (p : ℕ) → (now : TimePoint) → Call

  update : ℕ → (Times → Times) → (ℕ → Times) → ℕ → Times
  update p f objects q = if p == q then f (objects q) else objects q

  call : Call → (ℕ → Times) → ℕ → Times
  unfolding update
  call (entry p now) objects = update p (entered_at now) objects
  call (exit p now) objects = update p (exited_at now) objects

  call_all : List Call → (ℕ → Times) → ℕ → Times
  unfolding call
  call_all [] objects = objects
  call_all (c ∷ cs) objects = call_all cs (call c objects)

  -- The stays in a state, as the points of time of its entries and exits; `since` is when the state
  -- was entered last.
  abbrev stays : ℕ → TimePoint → List Call → List (TimePoint × TimePoint)
  stays q since [] = []
  stays q since (entry p now ∷ cs) = if p == q then stays q now cs else stays q since cs
  stays q since (exit p now ∷ cs) =
      if p == q then (since, now) ∷ stays q since cs else stays q since cs

  abbrev total : Duration → List (TimePoint × TimePoint) → Duration
  total d [] = d
  total d ((since, now) ∷ rest) = total (add d (elapsed now since)) rest

  -- Whatever is entered and left in between, the cumulated time of a state is what it was and the
  -- durations of the state's own stays, added up in their order.
  cummulative_time-stays :
      (cs : List Call) (objects : ℕ → Times) (q : ℕ)
      → (call_all cs objects q).cummulative_time
        ≡ total (objects q).cummulative_time (stays q (objects q).enter_time cs)
  unfolding call_all
  cummulative_time-stays [] objects q = refl
  cummulative_time-stays (entry p now ∷ cs) objects q =
      ground (arith, cummulative_time-stays cs (call (entry p now) objects) q)
  cummulative_time-stays (exit p now ∷ cs) objects q =
      ground (arith, cummulative_time-stays cs (call (exit p now) objects) q)
