-- ===== src/Common/Fits.antt =====
-- Which numbers an `int8` field holds.
use packml_ros.Base.{◌≡◌, subst, ◌↔◌, ℤ, pos, negsuc, Bool, true, arith, ltb}
use packml_ros.Common.Casts.{int8}

-- -128 to 127
abbrev pub fits : ℤ → Bool
fits (pos n) = ltb n 128
fits (negsuc n) = ltb n 128

pub fits-int8 : (z : ℤ) → fits (int8 z) ≡ true
unfolding int8
fits-int8 (pos n) = ground arith
fits-int8 (negsuc n) = ground arith

int8-fits : (z : ℤ) → fits z ≡ true → int8 z ≡ z
unfolding int8
int8-fits (pos n) h = ground (arith, h)
int8-fits (negsuc n) h = ground (arith, h)

-- A cast keeps exactly the numbers that fit.
pub int8_iff : (z : ℤ) → (int8 z ≡ z) ↔ (fits z ≡ true)
int8_iff z = (λ e. subst (λ y. fits y ≡ true) e (fits-int8 z), int8-fits z)
