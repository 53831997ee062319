-- ===== src/Common/Names.antt =====
-- The texts of the states, by which the generator's map is keyed.
use packml_ros.Base.{
  ◌≡◌, refl, ap, Bool, true, false, String, Option, none, some, List, [], ◌∷◌, if◌then◌else◌,
}
use text.Mathlib.Text.{◌==◌ as str_eq}
use packml_ros.Common.{State, states, state_to_string, state_val, state_of_val}

-- The enumerators, without the values that a cast may bring.
abbrev pub is_enumerator : State → Bool
is_enumerator (State.unnamed z) = false
is_enumerator s = true

first_named : String → List State → Option State
first_named k [] = none
first_named k (s ∷ ss) = if str_eq (state_to_string s) k then some s else first_named k ss

first_named-state_to_string :
    (s : State) → is_enumerator s ≡ true → first_named (state_to_string s) states ≡ some s
unfolding first_named state_to_string
first_named-state_to_string State.undefined h = refl
first_named-state_to_string (State.unnamed z) h = cc
first_named-state_to_string _ h = refl

-- Two enumerators of `State` with the same text are the same.
state_to_string-injective :
    (s t : State)
    → is_enumerator s ≡ true
    → is_enumerator t ≡ true
    → state_to_string s ≡ state_to_string t
    → s ≡ t
state_to_string-injective s t p q e = cc (
  first_named-state_to_string s p,
  first_named-state_to_string t q,
  ap (λ k. first_named k states) e,
)

pub state_of_val-state_val : (s : State) → is_enumerator s ≡ true → state_of_val (state_val s) ≡ s
unfolding state_of_val state_val
state_of_val-state_val State.undefined h = refl
state_of_val-state_val (State.unnamed z) h = cc
state_of_val-state_val _ h = refl
