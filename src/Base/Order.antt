-- ===== src/Base/Order.antt =====
-- The order of texts, as `std::map<std::string, …>` has it.
use Prim.Native.Nat.compare as compare_ℕ
use Prim.Native.String.compare
use Prim.Native.Nat.{ℕ, zero, suc, compare as compare_ℕ, Ordering}
use Prim.Native.String.{String, [], ◌∷◌, compare, then}
use Prim.Native.Char.{code}
use mathlib.Core.Path.{◌≡◌, refl, sym, ap, ◌∙◌}

abbrev pub opposite : Ordering → Ordering
opposite Ordering.lt = Ordering.gt
opposite Ordering.eq = Ordering.eq
opposite Ordering.gt = Ordering.lt

compare_ℕ-opposite : (m n : ℕ) → opposite (compare_ℕ m n) ≡ compare_ℕ n m
compare_ℕ-opposite zero zero = ap opposite compare_ℕ.zero-zero ∙ sym compare_ℕ.zero-zero
compare_ℕ-opposite zero (suc n) = ap opposite (compare_ℕ.zero-suc n) ∙ sym (compare_ℕ.suc-zero n)
compare_ℕ-opposite (suc m) zero = ap opposite (compare_ℕ.suc-zero m) ∙ sym (compare_ℕ.zero-suc m)
compare_ℕ-opposite (suc m) (suc n) =
    ap opposite (compare_ℕ.suc-suc m n) ∙ (compare_ℕ-opposite m n ∙ sym (compare_ℕ.suc-suc n m))

then-opposite : (o p : Ordering) → opposite (then o p) ≡ then (opposite o) (opposite p)
then-opposite Ordering.lt p = refl
then-opposite Ordering.eq p = refl
then-opposite Ordering.gt p = refl

pub compare-opposite : (s t : String) → opposite (compare s t) ≡ compare t s
compare-opposite [] [] = ap opposite compare.nil-nil ∙ sym compare.nil-nil
compare-opposite [] (d ∷ t) = ap opposite (compare.nil-cons d t) ∙ sym (compare.cons-nil d t)
compare-opposite (c ∷ s) [] = ap opposite (compare.cons-nil c s) ∙ sym (compare.nil-cons c s)
compare-opposite (c ∷ s) (d ∷ t) =
    ap opposite (compare.cons-cons c d s t)
    ∙ (then-opposite (compare_ℕ (code c) (code d)) (compare s t)
        ∙ (ap (λ o. then o (opposite (compare s t))) (compare_ℕ-opposite (code c) (code d))
            ∙ (ap (then (compare_ℕ (code d) (code c))) (compare-opposite s t)
                ∙ sym (compare.cons-cons d c t s))))
