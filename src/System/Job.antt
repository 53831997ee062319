-- ===== src/System/Job.antt =====
-- The work of one state after another, and the nodes that follow.
pub mod Ordered
use packml_ros.Base.{
  ◌≡◌, refl, ap, ◌∙◌, ℕ, ◌<◌, ℤ, Bool, true, false, String, Option, none, some, List, [], ◌∷◌, ◌++◌,
  length, arith, sym, subst, map,
}
use mathlib.Core.List.{append-nil, append_assoc}
use packml_ros.Common.{State, state_val, state_to_string, ModeType}
use packml_ros.Common.Names.{is_enumerator}
use packml_ros.Qt.{QtEngine}
use packml_ros.Messages.{Status}
use packml_ros.Diagram.{Cycle, single, continuous, completed}
use packml_ros.Diagram.Behaviour.{IsQuiet, Permits, Succeeds, work}
use packml_ros.Diagram.Work.{work_done, work_done-calls}
use packml_ros.Manager.{publish_status}
use packml_ros.Manager.ClientMap.{contains}
use packml_ros.Manager.States.{since}
use packml_ros.System.{System, Setting}
use packml_ros.System.Steps.{hear_all, then_hear_all}
use packml_ros.System.Reached.{AllReach}
use packml_ros.System.NewState.{state_told-agreed}
use packml_ros.System.Race.{status_with}
use packml_ros.System.Commanded.{hear_all-one}
use packml_ros.System.Whole.{with_machine}

-- The thread of state `s` ends, its event is handled, and the manager hears of what the machine does.
unfoldable work_told : QtEngine → ℕ → Setting → State → System → Option System
unfolding hear_all
work_told qt fuel w s sys =
    let m = work qt s sys.manager.machine in
    hear_all fuel w (since (length sys.manager.machine.calls) m.calls) (with_machine sys m)

-- The threads of `s` and of all states of the list but the last end, one after the other.
unfoldable pub works_told : QtEngine → ℕ → Setting → State → List State → System → Option System
unfolding work_told then_hear_all
works_told qt fuel w s [] sys = some sys
works_told qt fuel w s (t ∷ ts) sys =
    then_hear_all (works_told qt fuel w t ts) (work_told qt fuel w s sys)

abbrev last_of : State → List State → State
last_of s [] = s
last_of s (t ∷ ts) = last_of t ts

-- Each state's completion leads to the next, the mode permits that one, and the operation succeeds.
abbrev pub Completes : Cycle → List (ℕ × Bool) → List (ℕ × ℤ) → State → List State → Type 0
Completes cy ps fs s [] = Unit {0}
Completes cy ps fs s (t ∷ ts) =
    (completed cy s ≡ some t) × Permits ps t × Succeeds fs s × Completes cy ps fs t ts

-- The machine is quiet in `s`, and the manager and its clients hold `s`.
pub record Holds (cy : Cycle) (ps : List (ℕ × Bool)) (fs : List (ℕ × ℤ)) (cs : List String)
    (s : State) (sys : System) : Type 0 where
  pub quiet : IsQuiet cy s ps fs sys.manager.machine
  pub asks : sys.manager.clients ≡ cs
  pub held : sys.manager.current_state ≡ s
  pub nodes :
      (d : String) → contains d cs ≡ true → state_val (sys.node d).current_state ≡ state_val s

completed-is_enumerator :
    (cy : Cycle) (s t : State) → completed cy s ≡ some t → is_enumerator t ≡ true
completed-is_enumerator single s t e = ground (arith, e)
completed-is_enumerator continuous s t e = ground (arith, e)

-- From `sys` to `u` the states of the list were told: all hold the last one, and each was published
-- once, in order, with the mode that the manager holds.
pub record Follows (cy : Cycle) (ps : List (ℕ × Bool)) (fs : List (ℕ × ℤ)) (cs : List String)
    (s : State) (ts : List State) (sys u : System) : Type 0 where
  pub ends : Holds cy ps fs cs (last_of s ts) u
  pub keeps_mode : u.manager.current_mode ≡ sys.manager.current_mode
  pub publishes :
      u.manager.published
      ≡ sys.manager.published ++ map (λ t. status_with t sys.manager.current_mode) ts

pub Follows-cons :
    (cy : Cycle) (ps : List (ℕ × Bool)) (fs : List (ℕ × ℤ)) (cs : List String) (s t : State)
    (ts : List State) (sys v u : System)
    → Follows cy ps fs cs s (t ∷ []) sys v
    → Follows cy ps fs cs t ts v u
    → Follows cy ps fs cs s (t ∷ ts) sys u
Follows-cons cy ps fs cs s t ts sys v u one rest =
    let mode = sys.manager.current_mode in
    record {
      ends = rest.ends;
      keeps_mode = rest.keeps_mode ∙ one.keeps_mode;
      publishes =
          rest.publishes
          ∙ (ap (λ m. v.manager.published ++ map (λ t. status_with t m) ts) one.keeps_mode
              ∙ (ap (λ l. l ++ map (λ t. status_with t mode) ts) one.publishes
                  ∙ append_assoc sys.manager.published (status_with t mode ∷ [])
                      (map (λ t. status_with t mode) ts)));
    }

module _ (qt : QtEngine) (cy : Cycle) (ps : List (ℕ × Bool)) (fs : List (ℕ × ℤ)) (fuel k : ℕ)
    (w : Setting) (c : String) (cs : List String) (soon : k < fuel) (reach : AllReach w k (c ∷ cs))
    (willing : (d : String) (t : State) → w.approve_state d t ≡ true) where
  work_told-Follows :
      (s t : State) (sys : System)
      → Holds cy ps fs (c ∷ cs) s sys
      → completed cy s ≡ some t
      → Permits ps t
      → Succeeds fs s
      → (u : System) × (work_told qt fuel w s sys ≡ some u)
        × Follows cy ps fs (c ∷ cs) s (t ∷ []) sys u
  unfolding work_told publish_status
  work_told-Follows s t sys h e a f =
      let m = work qt s sys.manager.machine in
      let (u, told, manager, nodes) =
        state_told-agreed fuel k w t (with_machine sys m) c cs (completed-is_enumerator cy s t e)
          h.asks soon reach (λ d. willing d t) in
      (
        u,
        hear_all-one fuel w t (state_to_string t) m sys u
            (work_done-calls qt cy s t sys.manager.machine h.quiet e a f) told,
        record {
          ends = record {
            quiet =
                subst (λ g. IsQuiet cy t ps fs g.machine) (sym manager)
                  (work_done qt cy s t sys.manager.machine h.quiet e a f);
            asks = ap (λ g. g.clients) manager ∙ h.asks;
            held = ap (λ g. g.current_state) manager;
            nodes = λ d b. (nodes d b).0;
          };
          keeps_mode = ap (λ g. g.current_mode) manager;
          publishes = ap (λ g. g.published) manager;
        },
      )

  -- later
  pub works_told-Follows :
      (s : State) (ts : List State) (sys : System)
      → Holds cy ps fs (c ∷ cs) s sys
      → Completes cy ps fs s ts
      → (u : System) × (works_told qt fuel w s ts sys ≡ some u)
        × Follows cy ps fs (c ∷ cs) s ts sys u
  unfolding works_told then_hear_all
  works_told-Follows s [] sys h p = (
    sys,
    refl,
    record { ends = h; keeps_mode = refl; publishes = sym (append-nil sys.manager.published) },
  )
  works_told-Follows s (t ∷ ts) sys h (e, a, f, p) =
      let (v, told, one) = work_told-Follows s t sys h e a f in
      let (u, told2, rest) = works_told-Follows t ts v one.ends p in
      (
        u,
        ap (then_hear_all (works_told qt fuel w t ts)) told ∙ told2,
        Follows-cons cy ps fs (c ∷ cs) s t ts sys v u one rest,
      )
