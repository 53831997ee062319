-- ===== src/Base/Lists.antt =====
-- Lists measured and indexed by native numbers, and association lists with numeric keys.
use Prim.Native.Nat.{ℕ, zero, suc, ◌+◌}
use mathlib.Core.Path.{◌≡◌, refl}
use mathlib.Core.List.{List, [], ◌∷◌, ◌++◌}
use mathlib.Core.Option.{Option, none, some}
use native.Mathlib.Omega.{arith}
use packml_ros.Base.Tests.{◌==◌, if◌then◌else◌}

module _ {ℓ} {A : Type ℓ} where
  abbrev pub length : List A → ℕ
  length [] = 0
  length (x ∷ xs) = suc (length xs)

  abbrev pub get_elem? : List A → ℕ → Option A
  get_elem? [] i = none
  get_elem? (x ∷ xs) zero = some x
  get_elem? (x ∷ xs) (suc i) = get_elem? xs i

  -- A write out of bounds changes nothing.
  abbrev pub modify : List A → ℕ → (A → A) → List A
  modify [] i f = []
  modify (x ∷ xs) zero f = f x ∷ xs
  modify (x ∷ xs) (suc i) f = x ∷ modify xs i f

  abbrev pub drop : ℕ → List A → List A
  drop zero xs = xs
  drop (suc n) [] = []
  drop (suc n) (x ∷ xs) = drop n xs

  pub drop-length : (xs : List A) → drop (length xs) xs ≡ []
  drop-length [] = refl
  drop-length (x ∷ xs) = drop-length xs

  pub drop-append : (xs ys : List A) → drop (length xs) (xs ++ ys) ≡ ys
  drop-append [] ys = refl
  drop-append (x ∷ xs) ys = drop-append xs ys

  pub length-append : (xs ys : List A) → length (xs ++ ys) ≡ length xs + length ys
  length-append [] ys = omega arith
  length-append (x ∷ xs) ys = omega (arith, length-append xs ys)

  abbrev pub assoc_get : List (ℕ × A) → ℕ → Option A
  assoc_get [] k = none
  assoc_get ((j, v) ∷ m) k = if j == k then some v else assoc_get m k

  abbrev pub assoc_set : List (ℕ × A) → ℕ → A → List (ℕ × A)
  assoc_set [] k v = (k, v) ∷ []
  assoc_set ((j, w) ∷ m) k v = if j == k then (k, v) ∷ m else (j, w) ∷ assoc_set m k v

  pub assoc_get-assoc_set :
      (m : List (ℕ × A)) (k j : ℕ) (v : A)
      → assoc_get (assoc_set m k v) j ≡ (if k == j then some v else assoc_get m j)
  assoc_get-assoc_set [] k j v = refl
  assoc_get-assoc_set ((i, w) ∷ m) k j v = ground (arith, assoc_get-assoc_set m k j v)
