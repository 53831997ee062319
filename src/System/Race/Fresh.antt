-- ===== src/System/Race/Fresh.antt =====
-- What the two threads of Manager/Threads have read, in every order of their steps.
use mathlib.Core.List.{append_assoc}
use packml_ros.Base.{◌≡◌, refl, ap, ◌∙◌, ◌⊎◌, inl, inr, List, [], ◌∷◌, ◌++◌, ℤ}
use packml_ros.Common.{State, ModeType, state_val, mode_val}
use packml_ros.Common.Casts.{int8}
use packml_ros.Messages.{Status}
use packml_ros.Manager.{Manager}
use packml_ros.Manager.Threads.{
  Point, at_write, at_state, at_mode, at_publish, at_end, publisher_step,
}
use packml_ros.System.Race.{status_with}

-- The first thread steps: what it read stays new, or the other one has yet to write.
first_steps :
    {V A A2 B B2 : Type 0} → ⊥ ⊎ (V ⊎ (A ⊎ B)) → (A → V ⊎ A2) → (B → B2) → ⊥ ⊎ (V ⊎ (A2 ⊎ B2))
first_steps (inl h) f g = inl h
first_steps (inr (inl v)) f g = inr (inl v)
first_steps (inr (inr (inl a))) f g = elim (f a) [
  | inl v ↦ inr (inl v)
  | inr a2 ↦ inr (inr (inl a2))
]
first_steps (inr (inr (inr b))) f g = inr (inr (inr (g b)))

second_steps :
    {V A A2 B B2 : Type 0} → V ⊎ (⊥ ⊎ (B ⊎ A)) → (A → V ⊎ A2) → (B → B2) → V ⊎ (⊥ ⊎ (B2 ⊎ A2))
second_steps (inl v) f g = inl v
second_steps (inr (inl h)) f g = inr (inl h)
second_steps (inr (inr (inl b))) f g = inr (inr (inl (g b)))
second_steps (inr (inr (inr a))) f g = elim (f a) [ inl v ↦ inl v | inr a2 ↦ inr (inr (inr a2)) ]

-- what a written field is read as
read_value : {V A B : Type 0} (f : A → B) (a b : A) → V ⊎ (a ≡ b) → V ⊎ (f a ≡ f b)
read_value f a b (inl v) = inl v
read_value f a b (inr e) = inr (ap f e)

filled :
    {V : Type 0} (a b c d : ℤ)
    → a ≡ c
    → V ⊎ (b ≡ d)
    → V
      ⊎ (◌≡◌ {A = Status}
          (record { state_val = a; mode_val = b })
          (record { state_val = c; mode_val = d }))
filled a b c d e (inl v) = inl v
filled a b c d e (inr h) = inr (λ i. record { state_val = e i; mode_val = h i })

-- a sum whose first part is empty
pub sure : {A : Type 0} → ⊥ ⊎ A → A
sure (inl h) = elim h [ ]
sure (inr a) = a

module _ (state : State) (mode : ModeType) (base : List Status) where
  -- Among what is published after `base` there is the status of the new state and the new mode.
  abbrev pub Publishes : List Status → Type 0
  Publishes pub_now =
      (xs : List Status) × (ys : List Status) × (pub_now
        ≡ base ++ (xs ++ (status_with state mode ∷ ys)))

  abbrev pub IsWaiting : Point → Type 0
  IsWaiting at_write = Unit {0}
  IsWaiting at_state = ⊥
  IsWaiting at_mode = ⊥
  IsWaiting at_publish = ⊥
  IsWaiting at_end = ⊥

  -- What a thread has read so far is new.
  abbrev pub IsFresh : Point → Status → List Status → Type 0
  IsFresh at_write status now = ⊥
  IsFresh at_state status now = Unit {0}
  IsFresh at_mode status now = status.state_val ≡ int8 (state_val state)
  IsFresh at_publish status now = status ≡ status_with state mode
  IsFresh at_end status now = Publishes now

  -- One of the threads has not written, or what it reads is new.
  pub record IsRace (g : Manager) (p : Point) (a : Status) (q : Point) (b : Status) : Type 0 where
    pub statuses : List Status
    pub adds : g.published ≡ base ++ statuses
    pub state_written : IsWaiting p ⊎ (g.current_state ≡ state)
    pub mode_written : IsWaiting q ⊎ (g.current_mode ≡ mode)
    pub fresh : IsWaiting p ⊎ (IsWaiting q ⊎ (IsFresh p a g.published ⊎ IsFresh q b g.published))

  IsFresh-more :
      (p : Point) (a new : Status) (now : List Status)
      → IsFresh p a now
      → IsFresh p a (now ++ new ∷ [])
  IsFresh-more at_write a new now h = elim h [ ]
  IsFresh-more at_state a new now h = tt
  IsFresh-more at_mode a new now h = h
  IsFresh-more at_publish a new now h = h
  IsFresh-more at_end a new now (xs, ys, e) = (
    xs,
    ys ++ new ∷ [],
    ap (λ l. l ++ new ∷ []) e
        ∙ (append_assoc base (xs ++ (status_with state mode ∷ ys)) (new ∷ [])
            ∙ ap (λ l. base ++ l) (append_assoc xs (status_with state mode ∷ ys) (new ∷ []))),
  )

  published_now :
      (g : Manager) (a : Status) (statuses : List Status)
      → g.published ≡ base ++ statuses
      → a ≡ status_with state mode
      → Publishes (g.published ++ a ∷ [])
  published_now g a statuses adds h = (
    statuses,
    [],
    ap (λ l. l ++ a ∷ []) adds
        ∙ (append_assoc base statuses (a ∷ []) ∙ ap (λ b. base ++ (statuses ++ b ∷ [])) h),
  )

  adds_one :
      (g : Manager) (a : Status) (statuses : List Status)
      → g.published ≡ base ++ statuses
      → g.published ++ a ∷ [] ≡ base ++ (statuses ++ a ∷ [])
  adds_one g a statuses adds = ap (λ l. l ++ a ∷ []) adds ∙ append_assoc base statuses (a ∷ [])

  pub state_step-IsRace :
      (g : Manager) (p : Point) (a : Status) (q : Point) (b : Status)
      → IsRace g p a q b
      → let r = publisher_step (λ h. record h { current_state = state }) g a p in
        IsRace r.0 r.1.point r.1.status q b
  unfolding publisher_step
  state_step-IsRace g at_write a q b i = record {
    statuses = i.statuses;
    adds = i.adds;
    state_written = inr refl;
    mode_written = i.mode_written;
    fresh = inr (inr (inl tt));
  }
  state_step-IsRace g at_state a q b i = record {
    statuses = i.statuses;
    adds = i.adds;
    state_written = i.state_written;
    mode_written = i.mode_written;
    fresh =
        first_steps i.fresh (λ h. inr (ap (λ s. int8 (state_val s)) (sure i.state_written)))
          (λ h. h);
  }
  state_step-IsRace g at_mode a q b i = record {
    statuses = i.statuses;
    adds = i.adds;
    state_written = i.state_written;
    mode_written = i.mode_written;
    fresh =
        first_steps i.fresh
          (λ h.
            filled a.state_val (int8 (mode_val g.current_mode)) (int8 (state_val state))
              (int8 (mode_val mode)) h
              (read_value (λ m. int8 (mode_val m)) g.current_mode mode i.mode_written))
          (λ h. h);
  }
  state_step-IsRace g at_publish a q b i = record {
    statuses = i.statuses ++ a ∷ [];
    adds = adds_one g a i.statuses i.adds;
    state_written = i.state_written;
    mode_written = i.mode_written;
    fresh =
        first_steps i.fresh (λ h. inr (published_now g a i.statuses i.adds h))
          (IsFresh-more q b a g.published);
  }
  state_step-IsRace g at_end a q b i = i

  pub mode_step-IsRace :
      (g : Manager) (p : Point) (a : Status) (q : Point) (b : Status)
      → IsRace g p a q b
      → let r = publisher_step (λ h. record h { current_mode = mode }) g b q in
        IsRace r.0 p a r.1.point r.1.status
  unfolding publisher_step
  mode_step-IsRace g p a at_write b i = record {
    statuses = i.statuses;
    adds = i.adds;
    state_written = i.state_written;
    mode_written = inr refl;
    fresh = inr (inr (inr tt));
  }
  mode_step-IsRace g p a at_state b i = record {
    statuses = i.statuses;
    adds = i.adds;
    state_written = i.state_written;
    mode_written = i.mode_written;
    fresh =
        second_steps i.fresh
          (λ h. read_value (λ s. int8 (state_val s)) g.current_state state i.state_written)
          (λ h. h);
  }
  mode_step-IsRace g p a at_mode b i = record {
    statuses = i.statuses;
    adds = i.adds;
    state_written = i.state_written;
    mode_written = i.mode_written;
    fresh =
        second_steps i.fresh
          (λ h.
            filled b.state_val (int8 (mode_val g.current_mode)) (int8 (state_val state))
              (int8 (mode_val mode)) h (inr (ap (λ m. int8 (mode_val m)) (sure i.mode_written))))
          (λ h. h);
  }
  mode_step-IsRace g p a at_publish b i = record {
    statuses = i.statuses ++ b ∷ [];
    adds = adds_one g b i.statuses i.adds;
    state_written = i.state_written;
    mode_written = i.mode_written;
    fresh =
        second_steps i.fresh (λ h. inr (published_now g b i.statuses i.adds h))
          (IsFresh-more p a b g.published);
  }
  mode_step-IsRace g p a at_end b i = i
