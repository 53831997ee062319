-- ===== src/Base/LastChar.antt =====
-- The last character of a text.
use Prim.Native.String.append
use Prim.Native.String.{String, [], ◌∷◌, ◌++◌}
use Prim.Native.Char.{Char, code}
use Prim.Native.Nat.{ℕ}
use mathlib.Core.Path.{◌≡◌, sym, ap, ◌∙◌}
use mathlib.Core.Option.{Option, none, some}

last_code : String → Option ℕ
last_code [] = none
last_code (c ∷ s) = elim (last_code s) [ none ↦ some (code c) | some d ↦ some d ]

last_code-append : (s : String) (c : Char) → last_code (s ++ (c ∷ [])) ≡ some (code c)
unfolding last_code
last_code-append [] c = ap last_code (append.nil (c ∷ []))
last_code-append (d ∷ s) c =
    ap last_code (append.cons d s (c ∷ []))
    ∙ ap (λ o. elim o [ none ↦ some (code d) | some e ↦ some e ]) (last_code-append s c)

some-inj : (a b : ℕ) → some a ≡ some b → a ≡ b
some-inj a b e = ap (λ o. elim o [ none ↦ a | some c ↦ c ]) e

-- Two texts that end with different characters are different.
pub ends_differ :
    (s t : String) (c d : Char) → ¬ (code c ≡ code d) → ¬ (s ++ (c ∷ []) ≡ t ++ (d ∷ []))
ends_differ s t c d h e = h (
    some-inj (code c) (code d)
      (sym (last_code-append s c) ∙ (ap last_code e ∙ last_code-append t d)))
