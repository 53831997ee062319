-- ===== src/Manager/ClientMap/Unique.antt =====
-- The map depends on which names are configured, not on their order or on how often they stand there.
use Prim.Native.Nat.{Ordering}
use Prim.Native.String.{compare}
use text.Mathlib.Text.{◌==◌ as str_eq}
use text.Mathlib.TextEquality.{eq_iff}
use text.Mathlib.TextPositions.{compare_refl, eq_refl}
use packml_ros.Base.{
  ◌≡◌, refl, sym, subst, ap, ◌∙◌, true, false, ◌||◌, String, List, [], ◌∷◌, arith, ◌⊎◌, inl, inr,
  Bool-cases,
}
use packml_ros.Base.Order.{compare-opposite}
use packml_ros.Base.Strict.{compare_trans}
use packml_ros.Manager.ClientMap.{
  IsAscending, IsAscendingFrom, contains, insert_clients, insert_clients_lem,
}

-- Whatever an ascending list holds is after what stands before it.
after :
    (x k : String) (xs : List String)
    → IsAscendingFrom x xs
    → contains k xs ≡ true
    → compare x k ≡ Ordering.lt
after x k [] a h = ground (arith, h)
after x k (y ∷ ys) (b, a) h = elim (Bool-cases (str_eq y k)) [
  | inl e ↦ subst (λ k. compare x k ≡ Ordering.lt) ((eq_iff y k).0 e) b
  | inr e ↦ compare_trans x y k b (after y k ys a (ground (arith, h, e)))
]

tail-IsAscending : (x : String) (xs : List String) → IsAscendingFrom x xs → IsAscending xs
tail-IsAscending x [] a = tt
tail-IsAscending x (y ∷ ys) a = a.1

-- `x` is at the head of a list that holds it, or the head is before it.
at_head :
    (x y : String) (ys : List String)
    → IsAscending (y ∷ ys)
    → contains x (y ∷ ys) ≡ true
    → (y ≡ x) ⊎ (compare y x ≡ Ordering.lt)
at_head x y ys a h = elim (Bool-cases (str_eq y x)) [
  | inl e ↦ inl ((eq_iff y x).0 e)
  | inr e ↦ inr (after y x ys a (ground (arith, h, e)))
]

holds_head : (x : String) (xs : List String) → contains x (x ∷ xs) ≡ true
holds_head x xs = ap (λ b. b || contains x xs) (eq_refl x)

heads_equal :
    (x y : String)
    → (y ≡ x) ⊎ (compare y x ≡ Ordering.lt)
    → (x ≡ y) ⊎ (compare x y ≡ Ordering.lt)
    → x ≡ y
heads_equal x y (inl e) k = sym e
heads_equal x y (inr h) (inl e) = e
heads_equal x y (inr h) (inr k) = ground (arith, h, k, compare-opposite x y)

-- Nothing that is held behind the head is the head.
not_behind : (x : String) (xs : List String) → IsAscendingFrom x xs → contains x xs ≡ false
not_behind x xs a = elim (Bool-cases (contains x xs)) [
  | inl h ↦ ground (arith, after x x xs a h, compare_refl x)
  | inr h ↦ h
]

same_tail :
    (k x : String) (xs ys : List String)
    → IsAscendingFrom x xs
    → IsAscendingFrom x ys
    → contains k (x ∷ xs) ≡ contains k (x ∷ ys)
    → contains k xs ≡ contains k ys
same_tail k x xs ys a b h = elim (Bool-cases (str_eq x k)) [
  | inl e ↦
      subst (λ k. contains k xs ≡ contains k ys) ((eq_iff x k).0 e)
        (not_behind x xs a ∙ sym (not_behind x ys b))
  | inr e ↦ ground (arith, h, e)
]

-- Two ascending lists that hold the same texts are the same.
unique :
    (xs ys : List String)
    → IsAscending xs
    → IsAscending ys
    → ((k : String) → contains k xs ≡ contains k ys)
    → xs ≡ ys
unique [] [] a b h = refl
unique [] (y ∷ ys) a b h = ground (arith, h y, holds_head y ys)
unique (x ∷ xs) [] a b h = ground (arith, h x, holds_head x xs)
unique (x ∷ xs) (y ∷ ys) a b h =
    let e =
      heads_equal x y (at_head x y ys b (sym (h x) ∙ holds_head x xs))
        (at_head y x xs a (h y ∙ holds_head y ys)) in
    let c = subst (λ z. IsAscendingFrom z ys) (sym e) b in
    let same : (k : String) → contains k (x ∷ xs) ≡ contains k (x ∷ ys) =
      λ k. h k ∙ ap (λ z. contains k (z ∷ ys)) (sym e) in
    let tails =
      unique xs ys (tail-IsAscending x xs a) (tail-IsAscending x ys c)
        (λ k. same_tail k x xs ys a c (same k)) in
    ap (λ z. z ∷ xs) e ∙ ap (λ zs. y ∷ zs) tails

-- Two lists of configured node names with the same names, in whatever order and however often each
-- stands there, fill the same client map, and so the manager asks and waits for its clients in the
-- same order.
insert_clients-order :
    (names others : List String)
    → ((k : String) → contains k names ≡ contains k others)
    → insert_clients names [] ≡ insert_clients others []
insert_clients-order names others h =
    let (a, f, m) = insert_clients_lem names [] tt in
    let (b, g, n) = insert_clients_lem others [] tt in
    unique (insert_clients names []) (insert_clients others []) a b
      (λ k. f k ∙ (ap (λ c. c || false) (h k) ∙ sym (g k)))
