-- ===== src/System/Whole/Raced.antt =====
-- What the race of the two threads that publish makes of the states that are told, held and
-- published.
pub mod Done
use packml_ros.Base.{
  ◌≡◌, ◌⊎◌, inl, inr, refl, sym, ap, ◌∙◌, subst, Bool, true, false, List, [], ◌∷◌, ◌++◌,
}
use packml_ros.Common.{State, ModeType, state_val, mode_val}
use packml_ros.Common.Casts.{int8}
use packml_ros.Messages.{Status}
use packml_ros.Manager.{Manager}
use packml_ros.Manager.Threads.{
  Point, at_write, at_state, at_mode, at_publish, at_end, publisher_step, Thread, qt_thread,
  spin_thread, Threads, turn, turns, both_start,
}
use packml_ros.System.Race.{status_with}
use packml_ros.System.Whole.Reports.{Reports, Reported, kept, publishes, overtaken}

-- what a thread has read of the state, where it reads a state for which `R` holds
abbrev Msg : (State → Type 0) → Point → Status → Type 0
Msg R at_mode a = (s : State) × R s × (a.state_val ≡ int8 (state_val s))
Msg R at_publish a = (s : State) × R s × (m : ModeType) × (a ≡ status_with s m)
Msg R _ a = Unit {0}

is_end : Point → Bool
is_end at_end = true
is_end _ = false

Msg-step :
    (R : State → Type 0) (write : Manager → Manager) (g : Manager) (a : Status) (p : Point)
    → (is_reading : R g.current_state) → Msg R p a
    → Msg R (publisher_step write g a p).1.point (publisher_step write g a p).1.status
unfolding publisher_step
Msg-step R write g a at_write r m = tt
Msg-step R write g a at_state r m = (g.current_state, r, refl)
Msg-step R write g a at_mode r (s, q, e) = (
  s,
  q,
  g.current_mode,
  λ i. record { state_val = e i; mode_val = int8 (mode_val g.current_mode) },
)
Msg-step R write g a at_publish r m = tt
Msg-step R write g a at_end r m = tt

module _ (state held : State) (base : List Status) where
  abbrev Allowed : State → Type 0
  Allowed s = (s ≡ held) ⊎ (s ≡ state)

  -- the state before and after Qt's thread has written its own
  abbrev IsWritten : Point → State → Type 0
  IsWritten at_write c = Allowed c
  IsWritten _ c = c ≡ state

  -- what was published, by whether Qt's thread and the other one are done
  abbrev Out : Bool → Bool → List Status → Type 0
  Out false false ps = ps ≡ base
  Out true false ps = (n : ModeType) × (ps ≡ base ++ status_with state n ∷ [])
  Out false true ps = (s : State) × Allowed s × (m : ModeType) × (ps ≡ base ++ status_with s m ∷ [])
  Out true true ps =
      (s : State) × Allowed s
      × (m : ModeType) × (n : ModeType) × ((ps
            ≡ (base ++ status_with s m ∷ []) ++ status_with state n ∷ [])
          ⊎ (ps ≡ (base ++ status_with state n ∷ []) ++ status_with s m ∷ []))

  record InRace (g : Manager) (q : Point) (a : Status) (p : Point) (b : Status) : Type 0 where
    written : IsWritten q g.current_state
    qt_read : Msg (λ s. s ≡ state) q a
    spin_read : Msg Allowed p b
    out : Out (is_end q) (is_end p) g.published

  allowed : (q : Point) (c : State) → IsWritten q c → Allowed c
  allowed at_write c w = w
  allowed at_state c w = inr w
  allowed at_mode c w = inr w
  allowed at_publish c w = inr w
  allowed at_end c w = inr w

  qt-Out :
      (p : Point) (ps : List Status) (s : State) (m : ModeType) (a : Status)
      → s ≡ state
      → a ≡ status_with s m
      → Out false (is_end p) ps
      → Out true (is_end p) (ps ++ a ∷ [])
  unfolding is_end
  qt-Out at_end ps s m a e f (r, l, n, h) = (
    r,
    l,
    n,
    m,
    inl (
        ap (λ x. x ++ a ∷ []) h
        ∙ ap (λ x. (base ++ status_with r n ∷ []) ++ x ∷ []) (f ∙ ap (λ t. status_with t m) e)),
  )
  qt-Out at_write ps s m a e f h =
      (m, ap (λ x. x ++ a ∷ []) h ∙ ap (λ x. base ++ x ∷ []) (f ∙ ap (λ t. status_with t m) e))
  qt-Out at_state ps s m a e f h =
      (m, ap (λ x. x ++ a ∷ []) h ∙ ap (λ x. base ++ x ∷ []) (f ∙ ap (λ t. status_with t m) e))
  qt-Out at_mode ps s m a e f h =
      (m, ap (λ x. x ++ a ∷ []) h ∙ ap (λ x. base ++ x ∷ []) (f ∙ ap (λ t. status_with t m) e))
  qt-Out at_publish ps s m a e f h =
      (m, ap (λ x. x ++ a ∷ []) h ∙ ap (λ x. base ++ x ∷ []) (f ∙ ap (λ t. status_with t m) e))

  spin-Out :
      (q : Bool) (ps : List Status) (s : State) (m : ModeType) (b : Status)
      → Allowed s
      → b ≡ status_with s m
      → Out q false ps
      → Out q true (ps ++ b ∷ [])
  spin-Out false ps s m b l f h = (s, l, m, ap (λ x. x ++ b ∷ []) h ∙ ap (λ x. base ++ x ∷ []) f)
  spin-Out true ps s m b l f (n, h) = (
    s,
    l,
    m,
    n,
    inr (ap (λ x. x ++ b ∷ []) h ∙ ap (λ x. (base ++ status_with state n ∷ []) ++ x ∷ []) f),
  )

  qt_step :
      (g : Manager) (q : Point) (a : Status) (p : Point) (b : Status)
      → InRace g q a p b
      → let r = publisher_step (λ g. record g { current_state = state }) g a q in
        InRace r.0 r.1.point r.1.status p b
  unfolding publisher_step is_end
  qt_step g at_write a p b i = record {
    written = refl;
    qt_read = tt;
    spin_read = i.spin_read;
    out = i.out;
  }
  qt_step g at_state a p b i = record {
    written = i.written;
    qt_read = (g.current_state, i.written, refl);
    spin_read = i.spin_read;
    out = i.out;
  }
  qt_step g at_mode a p b i = record {
    written = i.written;
    qt_read = Msg-step (λ s. s ≡ state) (λ g. g) g a at_mode i.written i.qt_read;
    spin_read = i.spin_read;
    out = i.out;
  }
  qt_step g at_publish a p b i =
      let (s, e, m, f) = i.qt_read in
      record {
        written = i.written;
        qt_read = tt;
        spin_read = i.spin_read;
        out = qt-Out p g.published s m a e f i.out;
      }
  qt_step g at_end a p b i = i

  spin_step :
      (mode : ModeType) (g : Manager) (q : Point) (a : Status) (p : Point) (b : Status)
      → InRace g q a p b
      → let r = publisher_step (λ g. record g { current_mode = mode }) g b p in
        InRace r.0 q a r.1.point r.1.status
  unfolding publisher_step is_end
  spin_step mode g q a at_write b i = record {
    written = i.written;
    qt_read = i.qt_read;
    spin_read = tt;
    out = i.out;
  }
  spin_step mode g q a at_state b i = record {
    written = i.written;
    qt_read = i.qt_read;
    spin_read = (g.current_state, allowed q g.current_state i.written, refl);
    out = i.out;
  }
  spin_step mode g q a at_mode b i = record {
    written = i.written;
    qt_read = i.qt_read;
    spin_read =
        Msg-step Allowed (λ g. g) g b at_mode (allowed q g.current_state i.written) i.spin_read;
    out = i.out;
  }
  spin_step mode g q a at_publish b i =
      let (s, l, m, f) = i.spin_read in
      record {
        written = i.written;
        qt_read = i.qt_read;
        spin_read = tt;
        out = spin-Out (is_end q) g.published s m b l f i.out;
      }
  spin_step mode g q a at_end b i = i

  turns-InRace :
      (mode : ModeType) (order : List Thread) (t : Threads)
      → InRace t.manager t.qt.point t.qt.status t.spin.point t.spin.status
      → let u = turns state mode order t in
        InRace u.manager u.qt.point u.qt.status u.spin.point u.spin.status
  unfolding turns turn
  turns-InRace mode [] t i = i
  turns-InRace mode (qt_thread ∷ rest) t i =
      turns-InRace mode rest (turn state mode qt_thread t)
        (qt_step t.manager t.qt.point t.qt.status t.spin.point t.spin.status i)
  turns-InRace mode (spin_thread ∷ rest) t i =
      turns-InRace mode rest (turn state mode spin_thread t)
        (spin_step mode t.manager t.qt.point t.qt.status t.spin.point t.spin.status i)
