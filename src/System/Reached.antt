-- ===== src/System/Reached.antt =====
-- Clients whose services are there and whose answers arrive in time.
use packml_ros.Base.{
  Bool-cases, inl, inr, ◌≡◌, refl, subst, ℕ, ◌≤◌, true, String, List, [], ◌∷◌, arith,
}
use packml_ros.Messages.{Response}
use packml_ros.Manager.ClientMap.{contains}
use packml_ros.Manager.{Manager, all_spin}
use packml_ros.Manager.Waiting.{AllAvailable, AllAnswer, Agrees}
use text.Mathlib.TextEquality.{eq_iff}
use text.Mathlib.Text.{◌==◌ as str_eq}
use packml_ros.System.{Setting, service_of, asked}

-- Every client is there and has answered by round `k`.
abbrev pub AllPrompt : Setting → ℕ → List String → Type 0
AllPrompt w k [] = Unit {0}
AllPrompt w k (c ∷ cs) = (w.there c ≡ true) × (w.delay c ≤ k) × AllPrompt w k cs

-- And no executor blocks up to that round.
abbrev pub AllReach : Setting → ℕ → List String → Type 0
AllReach w k cs = AllPrompt w k cs × ((j : ℕ) → j ≤ k → all_spin (w.spins j) cs ≡ true)

AllPrompt-AllAvailable :
    (w : Setting) (k : ℕ) (answer : String → Response) (cs : List String)
    → AllPrompt w k cs
    → AllAvailable (service_of w answer) cs
AllPrompt-AllAvailable w k answer [] a = tt
AllPrompt-AllAvailable w k answer (c ∷ cs) (t, d, a) = (t, AllPrompt-AllAvailable w k answer cs a)

AllPrompt-AllAnswer :
    (w : Setting) (k : ℕ) (answer : String → Response) (cs : List String)
    → AllPrompt w k cs
    → AllAnswer ((service_of w answer).ready_in k) cs
AllPrompt-AllAnswer w k answer [] a = tt
AllPrompt-AllAnswer w k answer (c ∷ cs) (t, d, a) =
    ((answer c, ground (arith, d)), AllPrompt-AllAnswer w k answer cs a)

pub service_of-Agrees :
    (w : Setting) (answer : String → Response) (j : ℕ)
    → ((c : String) → (answer c).success ≡ true)
    → Agrees ((service_of w answer).ready_in j)
service_of-Agrees w answer j y c r e = ground (arith, e, y c)

AllPrompt-there :
    (w : Setting) (k : ℕ) (cs : List String) (d : String)
    → AllPrompt w k cs
    → contains d cs ≡ true
    → w.there d ≡ true
AllPrompt-there w k [] d a m = ground arith
AllPrompt-there w k (c ∷ cs) d (t, q, a) m = elim (Bool-cases (str_eq c d)) [
  | inl e ↦ subst (λ d. w.there d ≡ true) ((eq_iff c d).0 e) t
  | inr e ↦ AllPrompt-there w k cs d a (ground (arith, m, e))
]

pub AllReach-AllAvailable :
    (w : Setting) (k : ℕ) (answer : String → Response) (cs : List String)
    → AllReach w k cs
    → AllAvailable (service_of w answer) cs
AllReach-AllAvailable w k answer cs a = AllPrompt-AllAvailable w k answer cs a.0

pub AllReach-AllAnswer :
    (w : Setting) (k : ℕ) (answer : String → Response) (cs : List String)
    → AllReach w k cs
    → AllAnswer ((service_of w answer).ready_in k) cs
AllReach-AllAnswer w k answer cs a = AllPrompt-AllAnswer w k answer cs a.0

pub AllReach-asked :
    (w : Setting) (k : ℕ) (g : Manager) (cs : List String) (d : String)
    → g.clients ≡ cs
    → AllReach w k cs
    → contains d cs ≡ true
    → asked w g d ≡ true
AllReach-asked w k g cs d e a m = rw (e, AllPrompt-there w k cs d a.0 m, m) refl
