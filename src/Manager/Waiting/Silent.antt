-- ===== src/Manager/Waiting/Silent.antt =====
-- The waiting loop and a client that is there and never answers: the loop has no timeout.
use packml_ros.Base.{
  ◌≡◌, refl, ap, ◌∙◌, ◌⊎◌, ℕ, zero, suc, ◌+◌, Bool, true, false, String, Option, none, List, [],
  ◌∷◌, arith, Bool-cases, Option-cases, inl, inr,
}
use packml_ros.Messages.{Response}
use packml_ros.Manager.{
  Service, Future, poll, all_spin, wait_loop, call_all_clients, wait_all_futures,
}
use packml_ros.Manager.Waiting.{Agrees, AllAvailable, call_all_clients-length, poll-Agrees}

-- The future of client `d` was not read yet.
abbrev IsOpen : String → List Future → Type 0
IsOpen d [] = ⊥
IsOpen d (f ∷ fs) = ((f.client ≡ d) × (f.valid ≡ true)) ⊎ IsOpen d fs

poll-any_waiting :
    (ready : String → Option Response) (fs : List Future) (s : Bool)
    → (poll ready fs s true).any_waiting ≡ true
unfolding poll
poll-any_waiting ready [] s = refl
poll-any_waiting ready (f ∷ fs) s = elim (Bool-cases f.valid) [
  | inl v ↦ elim (Option-cases (ready f.client)) [
    | inl n ↦ ground (arith, v, n, poll-any_waiting ready fs s)
    | inr (r, n) ↦ ground (arith, v, n, poll-any_waiting ready fs r.success)
  ]
  | inr v ↦ ground (arith, v, poll-any_waiting ready fs s)
]

poll-IsOpen :
    (ready : String → Option Response) (d : String) (fs : List Future) (s w : Bool)
    → ready d ≡ none
    → IsOpen d fs
    → ((poll ready fs s w).any_waiting ≡ true) × IsOpen d (poll ready fs s w).futures
unfolding poll
poll-IsOpen ready d [] s w q o = elim o [ ]
poll-IsOpen ready d (f ∷ fs) s w q (inl (c, v)) =
    let n : ready f.client ≡ none = ap ready c ∙ q in
    rw (v, n) (poll-any_waiting ready fs s, inl (c, v))
poll-IsOpen ready d (f ∷ fs) s w q (inr o) = elim (Bool-cases f.valid) [
  | inl v ↦ elim (Option-cases (ready f.client)) [
    | inl n ↦ let (a, b) = poll-IsOpen ready d fs s true q o in rw (v, n) (a, inr b)
    | inr (r, n) ↦ let (a, b) = poll-IsOpen ready d fs r.success w q o in rw (v, n) (a, inr b)
  ]
  | inr v ↦ let (a, b) = poll-IsOpen ready d fs s w q o in rw v (a, inr b)
]

wait_loop-IsOpen :
    (service : Service) (cs : List String) (d : String) (fuel i : ℕ) (fs : List Future)
    → ((j : ℕ) → service.ready_in j d ≡ none)
    → ((j : ℕ) → Agrees (service.ready_in j))
    → IsOpen d fs
    → wait_loop fuel service cs i fs ≡ none
unfolding wait_loop
wait_loop-IsOpen service cs d zero i fs q a o = refl
wait_loop-IsOpen service cs d (suc fuel) i fs q a o =
    let ready = service.ready_in i in
    let (w, b) = poll-IsOpen ready d fs true false (q i) o in
    let next =
      wait_loop-IsOpen service cs d fuel (i + 1) (poll ready fs true false).futures q a b in
    rw (w, poll-Agrees ready fs false (a i), next)
      (elim (Bool-cases (all_spin (service.spins i) cs)) [ inl e ↦ rw e refl | inr e ↦ rw e refl ])

abbrev pub IsClient : String → List String → Type 0
IsClient d [] = ⊥
IsClient d (c ∷ cs) = (c ≡ d) ⊎ IsClient d cs

call_all_clients-IsOpen :
    (service : Service) (d : String) (cs : List String)
    → AllAvailable service cs
    → IsClient d cs
    → IsOpen d (call_all_clients service cs)
unfolding call_all_clients
call_all_clients-IsOpen service d [] t m = elim m [ ]
call_all_clients-IsOpen service d (c ∷ cs) (t, a) (inl e) = rw t (inl (e, refl))
call_all_clients-IsOpen service d (c ∷ cs) (t, a) (inr m) =
    rw t (inr (call_all_clients-IsOpen service d cs a m))

pub wait_all_futures-silent :
    (service : Service) (d : String) (cs : List String) (fuel : ℕ)
    → AllAvailable service cs
    → IsClient d cs
    → ((j : ℕ) → service.ready_in j d ≡ none)
    → ((j : ℕ) → Agrees (service.ready_in j))
    → wait_all_futures fuel service cs (call_all_clients service cs) ≡ none
unfolding wait_all_futures
wait_all_futures-silent service d [] fuel t m q a = elim m [ ]
wait_all_futures-silent service d (c ∷ cs) fuel t m q a = ground (
  arith,
  call_all_clients-length service (c ∷ cs) t,
  wait_loop-IsOpen service (c ∷ cs) d fuel 0 (call_all_clients service (c ∷ cs)) q a
      (call_all_clients-IsOpen service d (c ∷ cs) t m),
)
