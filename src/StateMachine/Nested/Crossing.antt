-- ===== src/StateMachine/Nested/Crossing.antt =====
-- An order of leaving and entering that does what Qt documents where no transition leads into the
-- super state that owns it: the super states around the active state but not around the target are
-- left from the inside, those around the target alone are entered from the outside.
use packml_ros.Base.{
  ◌≡◌, refl, ℕ, true, Option, none, some, List, [], ◌∷◌, ◌++◌, arith, if◌then◌else◌,
}
use packml_ros.Store.{Store}
use packml_ros.StateMachine.Nested.{QtOrder, ancestors, is_in, all_in}

-- from the inside
abbrev only_in : List ℕ → List ℕ → List ℕ
only_in [] ys = []
only_in (x ∷ xs) ys = if is_in x ys then only_in xs ys else x ∷ only_in xs ys

-- from the outside
abbrev only_in_reversed : List ℕ → List ℕ → List ℕ
only_in_reversed [] ys = []
only_in_reversed (x ∷ xs) ys =
    if is_in x ys then only_in_reversed xs ys else only_in_reversed xs ys ++ x ∷ []

abbrev around_target : Store → Option ℕ → List ℕ
around_target s none = []
around_target s (some q) = ancestors s q

abbrev itself : Option ℕ → List ℕ
itself none = []
itself (some q) = q ∷ []

all_in-cons : (xs ys : List ℕ) (y : ℕ) → all_in xs ys ≡ true → all_in xs (y ∷ ys) ≡ true
all_in-cons [] ys y h = refl
all_in-cons (x ∷ xs) ys y h = ground (arith, h, all_in-cons xs ys y)

all_in_refl : (xs : List ℕ) → all_in xs xs ≡ true
all_in_refl [] = refl
all_in_refl (x ∷ xs) = ground (arith, all_in-cons xs xs x (all_in_refl xs))

all_in-append :
    (xs zs : List ℕ) (x : ℕ)
    → all_in xs zs ≡ true
    → is_in x zs ≡ true
    → all_in (xs ++ x ∷ []) zs ≡ true
all_in-append [] zs x h q = ground (arith, q)
all_in-append (y ∷ xs) zs x h q = ground (arith, h, q, all_in-append xs zs x)

all_in-only_in : (xs ys zs : List ℕ) → all_in xs zs ≡ true → all_in (only_in xs ys) zs ≡ true
all_in-only_in [] ys zs h = refl
all_in-only_in (x ∷ xs) ys zs h = ground (arith, h, all_in-only_in xs ys zs)

all_in-only_in_reversed :
    (xs ys zs : List ℕ) → all_in xs zs ≡ true → all_in (only_in_reversed xs ys) zs ≡ true
all_in-only_in_reversed [] ys zs h = refl
all_in-only_in_reversed (x ∷ xs) ys zs h =
    ground (arith, h, all_in-only_in_reversed xs ys zs, all_in-append (only_in_reversed xs ys) zs x)

pub crossing_order : QtOrder
crossing_order = record {
  exit_set = λ s p t. p ∷ only_in (ancestors s p) (around_target s t.target);
  entry_set =
      λ s p t. only_in_reversed (around_target s t.target) (ancestors s p) ++ itself t.target;
  exit_set_lem = λ s p t q among e. (
    only_in (ancestors s p) (around_target s t.target),
    refl,
    all_in-only_in (ancestors s p) (around_target s t.target) (ancestors s p)
        (all_in_refl (ancestors s p)),
  );
  entry_set_lem = λ s p t q among e. (
    only_in_reversed (ancestors s q) (ancestors s p),
    rw e refl,
    all_in-only_in_reversed (ancestors s q) (ancestors s p) (ancestors s q)
        (all_in_refl (ancestors s q)),
  );
}
