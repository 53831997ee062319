-- ===== src/Diagram/Cycles.antt =====
-- The continuous cycle: EXECUTE again and again.
use packml_ros.Base.{
  ◌≡◌, refl, sym, subst, ap, ◌∙◌, ℕ, zero, suc, ℤ, Bool, false, List, [], ◌∷◌, ◌++◌, some, arith,
  assoc_get,
}
use mathlib.Core.List.{append-nil, append_assoc}
use packml_ros.Common.{State, state_to_string}
use packml_ros.Events.{state_complete_event}
use packml_ros.Qt.{QtEngine}
use packml_ros.StateMachine.{StateMachine, Callback, on_state_changed}
use packml_ros.StateMachine.Run.{available}
use packml_ros.Diagram.{continuous, next, permitted, wanted}
use packml_ros.Diagram.Moves.{arrive}
use packml_ros.Diagram.Runs.{arrive-calls}
use packml_ros.Diagram.Behaviour.{IsQuiet, Permits, Succeeds, work}
use packml_ros.Diagram.Work.{work_done, work-moved}

-- The thread of EXECUTE ends `n` times, each time with its event handled.
pub cycles : QtEngine → ℕ → StateMachine → StateMachine
cycles qt zero m = m
cycles qt (suc n) m = cycles qt n (work qt State.execute m)

-- what the callback is told of `n` entries of EXECUTE
abbrev pub executes : ℕ → List Callback
executes zero = []
executes (suc n) = on_state_changed State.execute (state_to_string State.execute) ∷ executes n

module _ (qt : QtEngine) {ps : List (ℕ × Bool)} {fs : List (ℕ × ℤ)} where
  work-calls :
      (m : StateMachine)
      → IsQuiet continuous State.execute ps fs m
      → Permits ps State.execute
      → Succeeds fs State.execute
      → (work qt State.execute m).calls ≡ m.calls ++ executes 1
  work-calls m q a f =
      ap (λ n. n.calls) (work-moved qt continuous State.execute state_complete_event m q f)
      ∙ (ap (λ o. (arrive m.state_value o k).calls) again
          ∙ arrive-calls m.state_value State.execute k)
    where
      k : StateMachine
      k = record m { working = false; queue = [] }

      again : next continuous (available m) state_complete_event m.state_value ≡ some State.execute
      again =
          subst
            (λ b.
              permitted (assoc_get b) (wanted continuous state_complete_event m.state_value)
              ≡ some State.execute)
            (sym q.properties_are)
            (subst
              (λ v.
                permitted (assoc_get ps) (wanted continuous state_complete_event v)
                ≡ some State.execute)
              (sym q.in_state) (ground (arith, a)))

  -- A continuous-cycle machine runs in EXECUTE with nothing queued, the mode permits EXECUTE, and
  -- its operation ends without an error. Then after any number of ends of its thread, each with its
  -- event handled, it is in EXECUTE again with its thread at work and nothing queued, and the
  -- callback was told of EXECUTE as many times.
  pub cycles_lem :
      (n : ℕ) (m : StateMachine)
      → IsQuiet continuous State.execute ps fs m
      → Permits ps State.execute
      → Succeeds fs State.execute
      → IsQuiet continuous State.execute ps fs (cycles qt n m)
        × ((cycles qt n m).calls ≡ m.calls ++ executes n)
  unfolding cycles
  cycles_lem zero m q a f = (q, sym (append-nil m.calls))
  cycles_lem (suc n) m q a f =
      let once = work_done qt continuous State.execute State.execute m q refl a f in
      let (r, e) = cycles_lem n (work qt State.execute m) once a f in
      (
        r,
        e
            ∙ (ap (λ l. l ++ executes n) (work-calls m q a f)
                ∙ append_assoc m.calls (executes 1) (executes n)),
      )
