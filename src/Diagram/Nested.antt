-- ===== src/Diagram/Nested.antt =====
-- What the super states do when they are left and entered.
pub mod Rounds
use packml_ros.Base.{
  ◌≡◌, refl, sym, ap, subst, ◌∙◌, ℕ, zero, suc, Bool, true, false, not, ◌&&◌, Option, none, some,
  List, [], ◌∷◌, ◌++◌, arith, get_elem?, inl, inr, Bool-cases,
}
use packml_ros.Common.{State}
use packml_ros.Store.{PackmlState, Store, Transition}
use packml_ros.Qt.{QtEngine, EventTest, first_enabled, flatten}
use packml_ros.Events.{Payload, QEvent}
use packml_ros.Transitions.{candidates}
use packml_ros.StateMachine.{StateMachine}
use packml_ros.StateMachine.Run.{is_acting, is_connected, on_entry, on_exit, take_transition}
use packml_ros.StateMachine.Nested.{
  QtOrder, ancestors, is_in, all_in, IsAmong, leave, leave_all, enter_all, take_nested,
}
use packml_ros.Diagram.{Cycle, single, continuous, is_leaf, address}
use packml_ros.Diagram.Built.{store_of, works, look, glance_of, look-object}

abbrev acts : Option PackmlState → Bool
acts none = false
acts (some o) = is_acting o.kind

-- Nobody is connected to the state, and it starts no thread.
abbrev is_silent : Store → ℕ → Bool
is_silent st a = not (is_connected a st.connections) && not (acts (get_elem? st.objects a))

abbrev all_silent : Store → List ℕ → Bool
all_silent st [] = true
all_silent st (a ∷ rest) = is_silent st a && all_silent st rest

leaf-silent :
    (cy : Cycle) (s : State)
    → is_leaf s ≡ true
    → all_silent (store_of cy) (ancestors (store_of cy) (address s)) ≡ true
unfolding store_of
leaf-silent single State.clearing h = refl
leaf-silent single s h = ground arith
leaf-silent continuous State.clearing h = refl
leaf-silent continuous s h = ground arith

is_in-silent :
    (st : Store) (a : ℕ) (bs : List ℕ)
    → is_in a bs ≡ true
    → all_silent st bs ≡ true
    → is_silent st a ≡ true
is_in-silent st a [] h q = ground arith
is_in-silent st a (b ∷ bs) h q = grind (arith, h, q, is_in-silent st a bs)

on_entry-silent : (a : ℕ) (m : StateMachine) → is_silent m.store a ≡ true → on_entry a m ≡ m
unfolding on_entry
on_entry-silent a m h = ground arith

leave-silent : (a : ℕ) (m : StateMachine) → is_silent m.store a ≡ true → leave a m ≡ m
unfolding leave
leave-silent a m h = ground arith

leave_all-silent :
    (xs bs : List ℕ) (m : StateMachine)
    → all_in xs bs ≡ true
    → all_silent m.store bs ≡ true
    → leave_all xs m ≡ m
unfolding leave_all
leave_all-silent [] bs m h q = refl
leave_all-silent (x ∷ xs) bs m h q =
    ap (leave_all xs) (leave-silent x m (is_in-silent m.store x bs (ground (arith, h)) q))
    ∙ leave_all-silent xs bs m (ground (arith, h)) q

enter_all-silent :
    (xs bs : List ℕ) (p : ℕ) (m : StateMachine)
    → all_in xs bs ≡ true
    → all_silent m.store bs ≡ true
    → enter_all (xs ++ p ∷ []) m ≡ on_entry p m
unfolding enter_all
enter_all-silent [] bs p m h q = refl
enter_all-silent (x ∷ xs) bs p m h q =
    ap (enter_all (xs ++ p ∷ []))
      (on_entry-silent x m (is_in-silent m.store x bs (ground (arith, h)) q))
    ∙ enter_all-silent xs bs p m (ground (arith, h)) q

leave-on_exit :
    (cy : Cycle) (s : State) (m : StateMachine)
    → is_leaf s ≡ true
    → m.store ≡ store_of cy
    → (m.working ≡ true → works s ≡ true)
    → leave (address s) m ≡ on_exit (address s) m
unfolding leave on_exit
leave-on_exit cy s m leaf h w = ground (
  arith,
  w,
  subst (λ st. look (get_elem? st.objects (address s)) ≡ some (glance_of s)) (sym h)
      (look-object cy s leaf),
)

pub first_enabled-IsAmong :
    (test : EventTest) (ts : List Transition) (e : QEvent) (t : Transition)
    → (first_enabled test ts e).0 ≡ some t
    → IsAmong t ts
unfolding first_enabled
first_enabled-IsAmong test [] e t h = ground arith
first_enabled-IsAmong test (x ∷ ts) e t h = elim (Bool-cases (test x e).0) [
  | inl y ↦ inl (ground (arith, h, y))
  | inr y ↦ inr (first_enabled-IsAmong test ts (test x e).1 t (ground (arith, h, y)))
]

on_exit-keeps_store : (p : ℕ) (m : StateMachine) → (on_exit p m).store ≡ m.store
unfolding on_exit
on_exit-keeps_store p m = ground arith

module _ (order : QtOrder) (cy : Cycle) where
  -- A transition between two states of the diagram.
  pub take_nested-take_transition :
      (s t : State) (a : Transition) (m : StateMachine)
      → is_leaf s ≡ true
      → is_leaf t ≡ true
      → m.store ≡ store_of cy
      → (m.working ≡ true → works s ≡ true)
      → IsAmong a (flatten (candidates m.store (address s)))
      → a.target ≡ some (address t)
      → take_nested order (address s) (some a) m ≡ take_transition (address s) (some a) m
  unfolding take_nested take_transition leave_all
  take_nested-take_transition s t a m leaf to h w among e =
      let p = address s in
      let q = address t in
      let (outer, left, up) = order.exit_set_lem m.store p a q among e in
      let (inner, entered, down) = order.entry_set_lem m.store p a q among e in
      let silent : (u : State)
          → is_leaf u ≡ true
          → all_silent m.store (ancestors m.store (address u)) ≡ true =
        λ u l.
          subst (λ st. all_silent st (ancestors st (address u)) ≡ true) (sym h)
            (leaf-silent cy u l) in
      let n = on_exit p m in
      let store = on_exit-keeps_store p m in
      let gone : leave_all (p ∷ outer) m ≡ n =
        ap (leave_all outer) (leave-on_exit cy s m leaf h w)
        ∙ leave_all-silent outer (ancestors m.store p) n up
            (ap (λ st. all_silent st (ancestors m.store p)) store ∙ silent s leaf) in
      rw (e, left, entered, gone)
        (enter_all-silent inner (ancestors m.store q) q (record n { active = some q }) down
          (ap (λ st. all_silent st (ancestors m.store q)) store ∙ silent t to))
