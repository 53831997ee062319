-- ===== src/System/Whole/Raced/Done.antt =====
-- The race at its end: what the manager reports once both threads are done.
use packml_ros.Base.{◌≡◌, inl, inr, refl, sym, ◌∙◌, subst, true, List, [], ◌∷◌, ◌++◌}
use packml_ros.Common.{State, ModeType}
use packml_ros.Messages.{Status}
use packml_ros.Manager.{Manager}
use packml_ros.Manager.Threads.{
  Point, at_write, at_state, at_mode, at_publish, at_end, publisher_step, Thread, qt_thread,
  spin_thread, Threads, turn, turns, both_start,
}
use packml_ros.System.Race.{status_with}
use packml_ros.System.Whole.Reports.{Reports, Reported, kept, publishes, overtaken}
use packml_ros.System.Whole.Raced.{IsWritten, Out, InRace, is_end, turns-InRace}

module _ (state held : State) (base : List Status) where
  Out-Reports :
      (told : List State) (ps : List Status)
      → Reports told held base
      → Out state held base true true ps
      → Reports (told ++ state ∷ []) state ps
  Out-Reports told ps r (s, inl e, m, n, inl h) =
      subst (Reports (told ++ state ∷ []) state) (sym h) (
        publishes _ _ _ n (
          kept _ _ _ state (
            subst (λ s. Reports told held (base ++ status_with s m ∷ [])) (sym e)
              (publishes _ _ _ m r))))
  Out-Reports told ps r (s, inr e, m, n, inl h) =
      subst (Reports (told ++ state ∷ []) state) (sym h) (
        publishes _ _ _ n (
          subst (λ s. Reports (told ++ state ∷ []) state (base ++ status_with s m ∷ [])) (sym e)
            (publishes _ _ _ m (kept _ _ _ state r))))
  Out-Reports told ps r (s, inl e, m, n, inr h) =
      subst (Reports (told ++ state ∷ []) state) (sym h) (
        subst
          (λ s.
            Reports (told ++ state ∷ []) state
              ((base ++ status_with state n ∷ []) ++ status_with s m ∷ []))
          (sym e) (overtaken told held base state n m r))
  Out-Reports told ps r (s, inr e, m, n, inr h) =
      subst (Reports (told ++ state ∷ []) state) (sym h) (
        subst
          (λ s.
            Reports (told ++ state ∷ []) state
              ((base ++ status_with state n ∷ []) ++ status_with s m ∷ []))
          (sym e) (publishes _ _ _ m (publishes _ _ _ n (kept _ _ _ state r))))

step-machine :
    (write : Manager → Manager) (g : Manager) (a : Status) (p : Point)
    → (write g).machine ≡ g.machine
    → (publisher_step write g a p).0.machine ≡ g.machine
unfolding publisher_step
step-machine write g a at_write h = h
step-machine write g a at_state h = refl
step-machine write g a at_mode h = refl
step-machine write g a at_publish h = refl
step-machine write g a at_end h = refl

turns-machine :
    (state : State) (mode : ModeType) (order : List Thread) (t : Threads)
    → (turns state mode order t).manager.machine ≡ t.manager.machine
unfolding turns turn
turns-machine state mode [] t = refl
turns-machine state mode (qt_thread ∷ rest) t =
    turns-machine state mode rest (turn state mode qt_thread t)
    ∙ step-machine (λ g. record g { current_state = state }) t.manager t.qt.status t.qt.point refl
turns-machine state mode (spin_thread ∷ rest) t =
    turns-machine state mode rest (turn state mode spin_thread t)
    ∙ step-machine (λ g. record g { current_mode = mode }) t.manager t.spin.status t.spin.point refl

-- Both threads are done: the state is told, and is held.
pub turns-Reported :
    (state : State) (mode : ModeType) (blank : Status) (order : List Thread) (g : Manager)
    (told : List State)
    → let u = turns state mode order (both_start blank g) in
      u.qt.point ≡ at_end
      → u.spin.point ≡ at_end
      → Reported told g
      → (u.manager.machine ≡ g.machine) × Reported (told ++ state ∷ []) u.manager
unfolding is_end
turns-Reported state mode blank order g told e f r =
    let u = turns state mode order (both_start blank g) in
    let i : InRace state g.current_state g.published u.manager u.qt.point u.qt.status u.spin.point
        u.spin.status =
      turns-InRace state g.current_state g.published mode order (both_start blank g)
        (record { written = inl refl; qt_read = tt; spin_read = tt; out = refl }) in
    let written : u.manager.current_state ≡ state =
      subst (λ p. IsWritten state g.current_state g.published p u.manager.current_state) e
        i.written in
    let out : Out state g.current_state g.published true true u.manager.published =
      subst (λ p. Out state g.current_state g.published (is_end p) true u.manager.published) e
        (subst
          (λ p.
            Out state g.current_state g.published (is_end u.qt.point) (is_end p)
              u.manager.published)
          f i.out) in
    (
      turns-machine state mode order (both_start blank g),
      subst (λ s. Reports (told ++ state ∷ []) s u.manager.published) (sym written)
          (Out-Reports state g.current_state g.published told u.manager.published r out),
    )
