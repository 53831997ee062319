-- ===== src/Manager/ClientMap.antt =====
-- `client_map_` of packml_ros/include/packml_ros/interface/packml_interface.hpp: the keys of the
-- `std::map`, filled from the parameter `node_names`.
pub mod Unique
use Prim.Native.Nat.{Ordering}
use Prim.Native.String.{compare}
use text.Mathlib.Text.{◌==◌ as str_eq}
use text.Mathlib.TextEquality.{path_by_compare}
use packml_ros.Base.{
  ◌≡◌, refl, sym, subst, ap, ◌∙◌, ◌≤◌, ◌+◌, Bool, false, ◌||◌, String, List, [], ◌∷◌, length, arith,
}
use packml_ros.Base.Order.{opposite, compare-opposite}

place : Ordering → String → String → List String → List String → List String
place Ordering.lt c d ds rest = c ∷ d ∷ ds
place Ordering.eq c d ds rest = d ∷ ds
place Ordering.gt c d ds rest = d ∷ rest

-- `client_map_[node_name] = …`: a key that is there stays
unfoldable insert_client : String → List String → List String
unfolding place
insert_client c [] = c ∷ []
insert_client c (d ∷ ds) = place (compare c d) c d ds (insert_client c ds)

-- the loop over `node_names_`
unfoldable pub insert_clients : List String → List String → List String
unfolding insert_client
insert_clients [] m = m
insert_clients (name ∷ names) m = insert_clients names (insert_client name m)

-- each key before the next
abbrev pub IsAscendingFrom : String → List String → Type 0
IsAscendingFrom c [] = Unit {0}
IsAscendingFrom c (d ∷ ds) = (compare c d ≡ Ordering.lt) × IsAscendingFrom d ds

abbrev pub IsAscending : List String → Type 0
IsAscending [] = Unit {0}
IsAscending (c ∷ cs) = IsAscendingFrom c cs

abbrev pub contains : String → List String → Bool
contains c [] = false
contains c (d ∷ ds) = str_eq d c || contains c ds

later : (c d : String) → compare c d ≡ Ordering.gt → compare d c ≡ Ordering.lt
later c d e = sym (compare-opposite c d) ∙ ap opposite e

place-after :
    (o : Ordering) (b c d : String) (ds rest : List String)
    → compare c d ≡ o
    → compare b c ≡ Ordering.lt
    → IsAscendingFrom b (d ∷ ds)
    → (compare d c ≡ Ordering.lt → IsAscendingFrom d rest)
    → IsAscendingFrom b (place o c d ds rest)
unfolding place
place-after Ordering.lt b c d ds rest e h a f = (h, (e, a.1))
place-after Ordering.eq b c d ds rest e h a f = a
place-after Ordering.gt b c d ds rest e h a f = (a.0, f (later c d e))

insert_client-after :
    (b c : String) (ds : List String)
    → compare b c ≡ Ordering.lt
    → IsAscendingFrom b ds
    → IsAscendingFrom b (insert_client c ds)
unfolding insert_client
insert_client-after b c [] h a = (h, tt)
insert_client-after b c (d ∷ ds) h a =
    place-after (compare c d) b c d ds (insert_client c ds) refl h a
      λ g. insert_client-after d c ds g a.1

place-IsAscending :
    (o : Ordering) (c d : String) (ds rest : List String)
    → compare c d ≡ o
    → IsAscendingFrom d ds
    → (compare d c ≡ Ordering.lt → IsAscendingFrom d rest)
    → IsAscending (place o c d ds rest)
unfolding place
place-IsAscending Ordering.lt c d ds rest e a f = (e, a)
place-IsAscending Ordering.eq c d ds rest e a f = a
place-IsAscending Ordering.gt c d ds rest e a f = f (later c d e)

insert_client-IsAscending :
    (c : String) (cs : List String) → IsAscending cs → IsAscending (insert_client c cs)
unfolding insert_client
insert_client-IsAscending c [] a = tt
insert_client-IsAscending c (d ∷ ds) a =
    place-IsAscending (compare c d) c d ds (insert_client c ds) refl a
      λ g. insert_client-after d c ds g a

place-contains :
    (o : Ordering) (k c d : String) (ds rest : List String)
    → compare c d ≡ o
    → contains k rest ≡ (str_eq c k || contains k ds)
    → contains k (place o c d ds rest) ≡ (str_eq c k || contains k (d ∷ ds))
unfolding place
place-contains Ordering.lt k c d ds rest e h = refl
place-contains Ordering.eq k c d ds rest e h =
    subst (λ c. contains k (d ∷ ds) ≡ (str_eq c k || contains k (d ∷ ds)))
      (sym (path_by_compare c d e)) (ground arith)
place-contains Ordering.gt k c d ds rest e h = ground (arith, h)

insert_client-contains :
    (k c : String) (cs : List String)
    → contains k (insert_client c cs) ≡ (str_eq c k || contains k cs)
unfolding insert_client
insert_client-contains k c [] = refl
insert_client-contains k c (d ∷ ds) =
    place-contains (compare c d) k c d ds (insert_client c ds) refl (insert_client-contains k c ds)

place-length :
    (o : Ordering) (c d : String) (ds rest : List String)
    → length rest ≤ length ds + 1
    → length (place o c d ds rest) ≤ length (d ∷ ds) + 1
unfolding place
place-length Ordering.lt c d ds rest h = omega arith
place-length Ordering.eq c d ds rest h = omega arith
place-length Ordering.gt c d ds rest h = omega arith

insert_client-length : (c : String) (cs : List String) → length (insert_client c cs) ≤ length cs + 1
unfolding insert_client
insert_client-length c [] = omega arith
insert_client-length c (d ∷ ds) =
    place-length (compare c d) c d ds (insert_client c ds) (insert_client-length c ds)

pub insert_clients_lem :
    (names cs : List String)
    → IsAscending cs
    → IsAscending (insert_clients names cs)
      × ((k : String) → contains k (insert_clients names cs) ≡ (contains k names || contains k cs))
      × (length (insert_clients names cs) ≤ length names + length cs)
unfolding insert_clients
insert_clients_lem [] cs a = (a, λ k. refl, omega arith)
insert_clients_lem (name ∷ names) cs a =
    let (b, f, n) =
      insert_clients_lem names (insert_client name cs) (insert_client-IsAscending name cs a) in
    (
      b,
      λ k. ground (arith, f k, insert_client-contains k name cs),
      omega (arith, n, insert_client-length name cs),
    )
