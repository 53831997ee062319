-- ===== src/Qt.antt =====
-- What the machine takes from Qt, as an interface: `QEvent`'s accept flag, the conversion of a
-- property that was never set, and the choice of a transition for an event.
use packml_ros.Base.{
  ◌≡◌, refl, Bool, true, false, Option, none, some, List, [], ◌∷◌, ◌++◌, if◌then◌else◌,
}
use packml_ros.Events.{QEvent}
use packml_ros.Store.{Transition}

-- `eventTest` of a transition may set or clear the event's accept flag.
abbrev pub EventTest : Type 0
EventTest = Transition → QEvent → Bool × QEvent

-- `select` is given the transitions of the active state and those of its ancestors, innermost first.
pub record QtEngine : Type 0 where
  pub born_accepted : Bool
  pub born_accepted_lem : born_accepted ≡ true
  pub unset_to_bool : Bool
  pub unset_to_bool_lem : unset_to_bool ≡ false
  pub select : List (List Transition) → EventTest → QEvent → Option Transition × QEvent
  pub select-nil : (test : EventTest) (e : QEvent) → select [] test e ≡ (none, e)
  select-next :
      (ls : List (List Transition)) (test : EventTest) (e : QEvent)
      → select ([] ∷ ls) test e ≡ select ls test e
  select-cons :
      (t : Transition) (ts : List Transition) (ls : List (List Transition)) (test : EventTest)
      (e : QEvent)
      → select ((t ∷ ts) ∷ ls) test e
        ≡ (if (test t e).0 then (some t, (test t e).1) else select (ts ∷ ls) test (test t e).1)

-- The first transition of a list whose test passes, the event threaded through the tests.
unfoldable pub first_enabled : EventTest → List Transition → QEvent → Option Transition × QEvent
first_enabled test [] e = (none, e)
first_enabled test (t ∷ ts) e =
    let rest = first_enabled test ts (test t e).1 in
    if (test t e).0 then (some t, (test t e).1) else rest

unfoldable pub flatten : List (List Transition) → List Transition
flatten [] = []
flatten (l ∷ ls) = l ++ flatten ls

pub select-first_enabled :
    (qt : QtEngine) (ls : List (List Transition)) (test : EventTest) (e : QEvent)
    → qt.select ls test e ≡ first_enabled test (flatten ls) e
unfolding first_enabled flatten
select-first_enabled qt [] test e = qt.select-nil test e
select-first_enabled qt ([] ∷ ls) test e =
    rw (qt.select-next ls test e) (select-first_enabled qt ls test e)
select-first_enabled qt ((t ∷ ts) ∷ ls) test e =
    rw (qt.select-cons t ts ls test e, select-first_enabled qt (ts ∷ ls) test (test t e).1)

-- An engine that does what Qt documents.
unfoldable pub documented_engine : QtEngine
unfolding first_enabled flatten
documented_engine = record {
  born_accepted = true;
  born_accepted_lem = refl;
  unset_to_bool = false;
  unset_to_bool_lem = refl;
  select = λ ls test e. first_enabled test (flatten ls) e;
  select-nil = λ test e. refl;
  select-next = λ ls test e. refl;
  select-cons = λ t ts ls test e. refl;
}
