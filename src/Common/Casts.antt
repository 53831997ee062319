-- ===== src/Common/Casts.antt =====
-- The casts between the enumerations and the `int8` fields of the messages.
use packml_ros.Base.{
  ℕ, zero, suc, ◌+◌, ◌-◌, ◌%◌, ℤ, pos, negsuc, ◌≡◌, refl, List, [], ◌∷◌, some, arith, get_elem?,
  ltb, if◌then◌else◌, Option-cases, inl, inr,
}
use packml_ros.Common.{modes, mode_val, mode_of_val, states, state_val, state_of_val}

-- `static_cast<signed char>(z)`
unfoldable pub int8 : ℤ → ℤ
int8 (pos n) = let b = n % 256 in if ltb b 128 then pos b else negsuc (255 - b)
int8 (negsuc n) = let b = n % 256 in if ltb b 128 then negsuc b else pos (255 - b)

module _ {A : Type 0} (val : A → ℤ) where
  -- the values of a list count up from `k`
  abbrev CountsFrom : ℕ → List A → Type 0
  CountsFrom k [] = Unit {0}
  CountsFrom k (x ∷ xs) = (val x ≡ pos k) × CountsFrom (suc k) xs

  val-get_elem? :
      (k : ℕ) (xs : List A) (i : ℕ) (x : A)
      → CountsFrom k xs
      → get_elem? xs i ≡ some x
      → val x ≡ pos (k + i)
  val-get_elem? k [] i x c e = ground arith
  val-get_elem? k (y ∷ ys) zero x c e = ground arith
  val-get_elem? k (y ∷ ys) (suc i) x c e = ground (arith, val-get_elem? (suc k) ys i x c.1 e)

states-CountsFrom : CountsFrom state_val 0 states
unfolding state_val
states-CountsFrom = ground arith

-- A number cast to `State` and back is the same number, for every integer.
pub state_val-state_of_val : (z : ℤ) → state_val (state_of_val z) ≡ z
unfolding state_val state_of_val
state_val-state_of_val (pos n) = elim (Option-cases (get_elem? states n)) [
  | inl e ↦ rw e
  | inr (s, e) ↦ ground (arith, val-get_elem? state_val 0 states n s states-CountsFrom e)
]
state_val-state_of_val (negsuc n) = refl

modes-CountsFrom : CountsFrom mode_val 0 modes
unfolding mode_val
modes-CountsFrom = ground arith

-- The same for modes.
pub mode_val-mode_of_val : (z : ℤ) → mode_val (mode_of_val z) ≡ z
unfolding mode_val mode_of_val
mode_val-mode_of_val (pos n) = elim (Option-cases (get_elem? modes n)) [
  | inl e ↦ rw e
  | inr (s, e) ↦ ground (arith, val-get_elem? mode_val 0 modes n s modes-CountsFrom e)
]
mode_val-mode_of_val (negsuc n) = refl
