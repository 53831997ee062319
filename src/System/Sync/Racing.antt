-- ===== src/System/Sync/Racing.antt =====
-- Runs on which the two threads of Manager/Threads may publish at once.
use packml_ros.Base.{◌≡◌, ◌≢◌, ◌⊎◌, inl, inr, refl, sym, ap, ◌∙◌, List, [], ◌∷◌, ◌++◌}
use mathlib.Core.List.{append-nil}
use packml_ros.Common.{State, ModeType}
use packml_ros.Messages.{Status}
use packml_ros.NodeInterface.{Node}
use packml_ros.Manager.{Manager, on_mode_changed, publish_status}
use packml_ros.Manager.Threads.{at_end, Thread, turns, both_start}
use packml_ros.System.{System, deliver, state_told_to, mode_told_to}
use packml_ros.System.Steps.{Step, Reach, mode_published}
use packml_ros.System.Told.{View, node_view, manager_view, view_after, deliver-view}
use packml_ros.System.Always.{IsKept, Follows, Step-kept, Reach-kept}
use packml_ros.System.Race.Orders.{turns-Publishes}
use packml_ros.System.Sync.{
  IsInSync, IsHeard, view_after-append, state_told_to-IsHeard, mode_told_to-IsHeard,
  mode_published-IsHeard,
}

-- Steps one after the other, and races: the thread of Qt keeps a new state and publishes while the
-- thread that spins the node keeps a new mode and publishes, in any order of their steps to the end
-- of both; every node hears both statuses. A mode may also be kept and published by itself, as in a
-- request of which another part raced.
pub data Racing : System → System → Type 0 where
  here : (s : System) → Racing s s
  next : (s t u : System) → Racing s t → Step t u → Racing s u
  alone :
      (s t : System) (mode : ModeType)
      → Racing s t
      → Racing s (mode_published t (on_mode_changed mode t.manager))
  race :
      (s t : System) (state : State) (mode : ModeType) (blank : Status) (order : List Thread)
      → Racing s t
      → (turns state mode order (both_start blank t.manager)).qt.point ≡ at_end
      → (turns state mode order (both_start blank t.manager)).spin.point ≡ at_end
      → Racing s (mode_published t (turns state mode order (both_start blank t.manager)).manager)

IsHeard-IsKept : (v : View) → IsKept (IsHeard v)
IsHeard-IsKept v = record {
  after_state = λ w state s h i t. state_told_to-IsHeard v w state s h t.statuses i t.adds;
  after_mode = λ w val s h i t. mode_told_to-IsHeard v w val s h t.statuses i t.adds;
  after_status = λ s h i t. mode_published-IsHeard v s h t.statuses i t.adds;
  after_machine = λ s m i. i;
  after_promise = λ s i. i;
}

Racing-IsHeard : (v : View) (s t : System) → Racing s t → IsHeard v s → IsHeard v t
unfolding on_mode_changed publish_status
Racing-IsHeard v _ _ (here s) i = i
Racing-IsHeard v _ _ (next s t u r step) i =
    Step-kept (IsHeard v) (IsHeard-IsKept v) t u step (Racing-IsHeard v s t r i)
Racing-IsHeard v _ _ (alone s t mode r) i =
    mode_published-IsHeard v t (on_mode_changed mode t.manager) _ (Racing-IsHeard v s t r i) refl
Racing-IsHeard v _ _ (race s t state mode blank order r a b) i =
    let (kept_state, kept_mode, published) = turns-Publishes state mode blank t.manager order a b in
    let (xs, ys, adds) = published in
    mode_published-IsHeard v t (turns state mode order (both_start blank t.manager)).manager _
      (Racing-IsHeard v s t r i) adds

-- Nothing was published since, or whoever heard the last status has the manager's numbers.
abbrev IsFresh : List Status → System → Type 0
IsFresh before s =
    ((s.manager.published ≡ before)
      ⊎ ((v : View) → view_after v s.manager.published ≡ manager_view s.manager))

fresh-Follows :
    (before : List Status) (g h : Manager)
    → (g.published ≡ before) ⊎ ((v : View) → view_after v g.published ≡ manager_view g)
    → Follows g h
    → (h.published ≡ before) ⊎ ((v : View) → view_after v h.published ≡ manager_view h)
fresh-Follows before g h i t = leads t.statuses t.adds t.leads i
  where
    leads :
        (ss : List Status)
        → h.published ≡ g.published ++ ss
        → view_after (manager_view g) ss ≡ manager_view h
        → (g.published ≡ before) ⊎ ((v : View) → view_after v g.published ≡ manager_view g)
        → (h.published ≡ before) ⊎ ((v : View) → view_after v h.published ≡ manager_view h)
    leads [] e l (inl same) = inl (e ∙ (append-nil g.published ∙ same))
    leads [] e l (inr f) = inr (λ v. ap (view_after v) (e ∙ append-nil g.published) ∙ (f v ∙ l))
    leads (s ∷ ss) e l i =
        inr (λ v. ap (view_after v) e ∙ (view_after-append v g.published (s ∷ ss) ∙ l))

IsFresh-IsKept : (before : List Status) → IsKept (IsFresh before)
unfolding state_told_to mode_told_to mode_published
IsFresh-IsKept before = record {
  after_state = λ w state s h. fresh-Follows before s.manager h;
  after_mode = λ w val s h. fresh-Follows before s.manager h;
  after_status = λ s h. fresh-Follows before s.manager h;
  after_machine = λ s m i. i;
  after_promise = λ s i. i;
}

Reach-IsFresh :
    (t u : System)
    → Reach t u
    → u.manager.published ≢ t.manager.published
    → (v : View) → view_after v u.manager.published ≡ manager_view u.manager
Reach-IsFresh t u r new =
    elim (Reach-kept (IsFresh t.manager.published) (IsFresh-IsKept t.manager.published) t u r
      (inl refl)) [ inl same ↦ absurd (new same) | inr f ↦ f ]

-- Take a run of the manager with its nodes on which the two threads that publish may also race, in
-- every order of their steps, whatever the machine does and whichever clients are there, answer,
-- refuse or are slow. If the nodes had the numbers to which the statuses so far lead, they have
-- those to which all statuses lead after it. On whatever run without a race follows, this goes on,
-- and either nothing is published there, or all nodes have the numbers that the manager publishes
-- of its state and mode.
pub Racing-IsInSync :
    (v : View) (s t u : System)
    → Racing s t
    → Reach t u
    → IsHeard v s
    → IsHeard v t × IsHeard v u × ((u.manager.published ≡ t.manager.published) ⊎ IsInSync u)
Racing-IsInSync v s t u racing r i =
    let j = Racing-IsHeard v s t racing i in
    let k = Reach-kept (IsHeard v) (IsHeard-IsKept v) t u r j in
    (
      j,
      k,
      elim (Reach-kept (IsFresh t.manager.published) (IsFresh-IsKept t.manager.published) t u r
          (inl refl)) [ inl same ↦ inl same | inr f ↦ inr (λ c. k c ∙ f v) ],
    )

-- Take any system, whichever statuses raced or were missed before, and a run from there on which
-- the two threads do not publish at once, and on which something is published. Then a node that
-- hears the last status has the numbers that the manager publishes of its state and mode, whatever
-- the node held and whatever it heard before.
pub Reach-catches_up :
    (t u : System) (earlier heard : List Status) (last : Status) (n : Node)
    → Reach t u
    → u.manager.published ≢ t.manager.published
    → u.manager.published ≡ earlier ++ last ∷ []
    → node_view (deliver (heard ++ last ∷ []) n) ≡ manager_view u.manager
Reach-catches_up t u earlier heard last n r new e =
    deliver-view (heard ++ last ∷ []) n
    ∙ (view_after-append (node_view n) heard (last ∷ [])
        ∙ (sym (view_after-append (node_view n) earlier (last ∷ []))
            ∙ (ap (view_after (node_view n)) (sym e) ∙ Reach-IsFresh t u r new (node_view n))))
