-- ===== src/Base/Strict.antt =====
-- The order of texts is strict.
use Prim.Native.String.compare
use Prim.Native.Nat.{ℕ, Ordering, compare as compare_ℕ}
use Prim.Native.String.{String, [], ◌∷◌, compare, then}
use Prim.Native.Char.{code}
use mathlib.Core.Path.{◌≡◌, refl, sym, ◌∙◌}
use mathlib.Core.Logic.{◌⊎◌, inl, inr}
use native.Mathlib.Omega.{arith}

-- the first difference decides
then-lt :
    (o p : Ordering)
    → then o p ≡ Ordering.lt
    → (o ≡ Ordering.lt) ⊎ ((o ≡ Ordering.eq) × (p ≡ Ordering.lt))
then-lt Ordering.lt p h = inl refl
then-lt Ordering.eq p h = inr (refl, h)
then-lt Ordering.gt p h = ground (arith, h)

-- two differences in a row
both :
    (a b c : ℕ) (p q r : Ordering)
    → (compare_ℕ a b ≡ Ordering.lt) ⊎ ((compare_ℕ a b ≡ Ordering.eq) × (p ≡ Ordering.lt))
    → (compare_ℕ b c ≡ Ordering.lt) ⊎ ((compare_ℕ b c ≡ Ordering.eq) × (q ≡ Ordering.lt))
    → (p ≡ Ordering.lt → q ≡ Ordering.lt → r ≡ Ordering.lt)
    → then (compare_ℕ a c) r ≡ Ordering.lt
both a b c p q r (inl h) (inl k) f = ground (arith, h, k)
both a b c p q r (inl h) (inr (k, l)) f = ground (arith, h, k)
both a b c p q r (inr (h, l)) (inl k) f = ground (arith, h, k)
both a b c p q r (inr (h, l)) (inr (k, m)) f = ground (arith, h, k, f l m)

pub compare_trans :
    (a b c : String)
    → compare a b ≡ Ordering.lt
    → compare b c ≡ Ordering.lt
    → compare a c ≡ Ordering.lt
compare_trans [] [] c h k = ground (arith, h, compare.nil-nil)
compare_trans (d ∷ s) [] c h k = ground (arith, h, compare.cons-nil d s)
compare_trans a (d ∷ t) [] h k = ground (arith, k, compare.cons-nil d t)
compare_trans [] (d ∷ t) (e ∷ u) h k = compare.nil-cons e u
compare_trans (c ∷ s) (d ∷ t) (e ∷ u) h k =
    compare.cons-cons c e s u
    ∙ both (code c) (code d) (code e) (compare s t) (compare t u) (compare s u)
        (then-lt (compare_ℕ (code c) (code d)) (compare s t) (sym (compare.cons-cons c d s t) ∙ h))
        (then-lt (compare_ℕ (code d) (code e)) (compare t u) (sym (compare.cons-cons d e t u) ∙ k))
        (compare_trans s t u)
