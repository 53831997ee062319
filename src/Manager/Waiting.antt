-- ===== src/Manager/Waiting.antt =====
-- The waiting loop: its end and its answer.
pub mod Rounds
pub mod Silent
use packml_ros.Base.{
  ◌≡◌, ◌≢◌, ◌⊎◌, refl, sym, subst, ℕ, zero, suc, ◌+◌, ◌<◌, ◌≤◌, Bool, true, false, ◌&&◌, String,
  Option, none, some, List, [], ◌∷◌, length, arith, Bool-cases, Option-cases, inl, inr,
}
use packml_ros.Messages.{Response}
use packml_ros.Manager.{
  Service, Future, poll, all_spin, wait_loop, call_all_clients, wait_all_futures,
}

-- The answer of every client is ready in a round.
abbrev AllReady : (String → Option Response) → List Future → Type 0
AllReady ready [] = Unit {0}
AllReady ready (f ∷ fs) = ((r : Response) × (ready f.client ≡ some r)) × AllReady ready fs

poll-done :
    (ready : String → Option Response) (fs : List Future) (s : Bool)
    → AllReady ready fs
    → (poll ready fs s false).any_waiting ≡ false
unfolding poll
poll-done ready [] s a = refl
poll-done ready (f ∷ fs) s a =
    let ((r, e), rest) = a in
    ground (arith, e, poll-done ready fs s rest, poll-done ready fs r.success rest)

-- A round reads futures and changes no client.
poll-AllReady :
    (later ready : String → Option Response) (fs : List Future) (s w : Bool)
    → AllReady later fs
    → AllReady later (poll ready fs s w).futures
unfolding poll
poll-AllReady later ready [] s w a = tt
poll-AllReady later ready (f ∷ fs) s w a = elim (Bool-cases f.valid) [
  | inl e ↦ elim (Option-cases (ready f.client)) [
    | inl n ↦ rw (e, n) (a.0, poll-AllReady later ready fs s true a.1)
    | inr (r, n) ↦ rw (e, n) (a.0, poll-AllReady later ready fs r.success w a.1)
  ]
  | inr e ↦ rw e (a.0, poll-AllReady later ready fs s w a.1)
]

-- No executor blocks up to round `k`.
abbrev pub AllSpin : Service → ℕ → List String → Type 0
AllSpin service k cs = (j : ℕ) → j ≤ k → all_spin (service.spins j) cs ≡ true

-- The loop ends in the round in which the last of the answers is ready.
wait_loop-ends :
    (service : Service) (cs : List String) (k fuel i j : ℕ) (fs : List Future)
    → k < fuel
    → i + k ≡ j
    → AllSpin service j cs
    → AllReady (service.ready_in j) fs
    → (b : Bool) × (wait_loop fuel service cs i fs ≡ some b)
unfolding wait_loop
wait_loop-ends service cs k zero i j fs h q p a = ground arith
wait_loop-ends service cs zero (suc fuel) i j fs h q p a =
    let same : AllReady (service.ready_in i) fs =
      subst (λ n. AllReady (service.ready_in n) fs) (omega arith) a in
    (
      (poll (service.ready_in i) fs true false).success,
      ground (arith, p i (omega arith), poll-done (service.ready_in i) fs true same),
    )
wait_loop-ends service cs (suc k) (suc fuel) i j fs h q p a =
    let r = poll (service.ready_in i) fs true false in
    let later = poll-AllReady (service.ready_in j) (service.ready_in i) fs true false a in
    let (b, e) =
      wait_loop-ends service cs k fuel (i + 1) j r.futures (omega arith) (omega arith) p later in
    elim (Bool-cases (r.any_waiting && r.success)) [
      | inl c ↦ (b, ground (arith, p i (omega arith), c, e))
      | inr c ↦ (r.success, ground (arith, p i (omega arith), c))
    ]

-- Whoever answers says yes.
abbrev pub Agrees : (String → Option Response) → Type 0
Agrees ready = (c : String) (r : Response) → ready c ≡ some r → r.success ≡ true

pub poll-Agrees :
    (ready : String → Option Response) (fs : List Future) (w : Bool)
    → Agrees ready
    → (poll ready fs true w).success ≡ true
unfolding poll
poll-Agrees ready [] w a = refl
poll-Agrees ready (f ∷ fs) w a = elim (Bool-cases f.valid) [
  | inl e ↦ elim (Option-cases (ready f.client)) [
    | inl n ↦ rw (e, n) (poll-Agrees ready fs true a)
    | inr (r, n) ↦ rw (e, n, a f.client r n) (poll-Agrees ready fs w a)
  ]
  | inr e ↦ rw e (poll-Agrees ready fs w a)
]

wait_loop-Agrees :
    (service : Service) (cs : List String) (fuel i : ℕ) (fs : List Future) (b : Bool)
    → ((j : ℕ) → Agrees (service.ready_in j))
    → wait_loop fuel service cs i fs ≡ some b
    → b ≡ true
unfolding wait_loop
wait_loop-Agrees service cs zero i fs b a e = ground arith
wait_loop-Agrees service cs (suc fuel) i fs b a e =
    let r = poll (service.ready_in i) fs true false in
    ground (
      arith,
      poll-Agrees (service.ready_in i) fs false (a i),
      wait_loop-Agrees service cs fuel (i + 1) r.futures b a,
    )

-- The answer of the last of the clients.
abbrev last_answer : (String → Option Response) → Bool → List String → Bool
last_answer ready s [] = s
last_answer ready s (c ∷ cs) = elim (ready c) [
  | none ↦ last_answer ready s cs
  | some r ↦ last_answer ready r.success cs
]

abbrev pub AllAvailable : Service → List String → Type 0
AllAvailable service [] = Unit {0}
AllAvailable service (c ∷ cs) = (service.is_available c ≡ true) × AllAvailable service cs

abbrev pub AllAnswer : (String → Option Response) → List String → Type 0
AllAnswer ready [] = Unit {0}
AllAnswer ready (c ∷ cs) = ((r : Response) × (ready c ≡ some r)) × AllAnswer ready cs

pub call_all_clients-length :
    (service : Service) (cs : List String)
    → AllAvailable service cs
    → length (call_all_clients service cs) ≡ length cs
unfolding call_all_clients
call_all_clients-length service [] a = refl
call_all_clients-length service (c ∷ cs) a = ground (arith, call_all_clients-length service cs a.1)

call_all_clients-AllReady :
    (service : Service) (ready : String → Option Response) (cs : List String)
    → AllAvailable service cs
    → AllAnswer ready cs
    → AllReady ready (call_all_clients service cs)
unfolding call_all_clients
call_all_clients-AllReady service ready [] a b = tt
call_all_clients-AllReady service ready (c ∷ cs) a b =
    rw a.0 (b.0, call_all_clients-AllReady service ready cs a.1 b.1)

poll-last_answer :
    (service : Service) (ready : String → Option Response) (cs : List String) (s w : Bool)
    → AllAvailable service cs
    → AllAnswer ready cs
    → (poll ready (call_all_clients service cs) s w).success ≡ last_answer ready s cs
unfolding call_all_clients poll
poll-last_answer service ready [] s w a b = refl
poll-last_answer service ready (c ∷ cs) s w a b =
    let ((r, e), rest) = b in
    ground (arith, a.0, e, poll-last_answer service ready cs r.success w a.1 rest)

-- There is at least one client, all are there, all answers are ready in round `k` of the waiting
-- loop, and no executor blocks up to it. Then fuel above `k` is enough: the wait returns a result.
wait_all_futures-ends :
    (service : Service) (c : String) (cs : List String) (k fuel : ℕ)
    → k < fuel
    → AllSpin service k (c ∷ cs)
    → AllAvailable service (c ∷ cs)
    → AllAnswer (service.ready_in k) (c ∷ cs)
    → (b : Bool) × (wait_all_futures fuel service (c ∷ cs) (call_all_clients service (c ∷ cs))
        ≡ some b)
unfolding wait_all_futures
wait_all_futures-ends service c cs k fuel h p a b =
    let (r, e) =
      wait_loop-ends service (c ∷ cs) k fuel 0 k (call_all_clients service (c ∷ cs)) h (omega arith)
        p (call_all_clients-AllReady service (service.ready_in k) (c ∷ cs) a b) in
    (r, ground (arith, e, call_all_clients-length service (c ∷ cs) a))

-- There is at least one client, all are there, all answers are ready in round `k`, no executor blocks
-- up to it, fuel is above `k`, and every answer that is ready in any round is a success. Then the wait returns success.
pub wait_all_futures-agreed :
    (service : Service) (c : String) (cs : List String) (k fuel : ℕ)
    → k < fuel
    → AllSpin service k (c ∷ cs)
    → AllAvailable service (c ∷ cs)
    → AllAnswer (service.ready_in k) (c ∷ cs)
    → ((j : ℕ) → Agrees (service.ready_in j))
    → wait_all_futures fuel service (c ∷ cs) (call_all_clients service (c ∷ cs)) ≡ some true
unfolding wait_all_futures
wait_all_futures-agreed service c cs k fuel h p a b g =
    let fs = call_all_clients service (c ∷ cs) in
    let (r, e) =
      wait_loop-ends service (c ∷ cs) k fuel 0 k fs h (omega arith) p
        (call_all_clients-AllReady service (service.ready_in k) (c ∷ cs) a b) in
    ground (
      arith,
      e,
      call_all_clients-length service (c ∷ cs) a,
      wait_loop-Agrees service (c ∷ cs) fuel 0 fs r g e,
    )

-- There is at least one client, all are there, no executor blocks, and all answers are ready in the first round. Then
-- the wait returns the answer of the client that is last in the map, whatever the others answered.
wait_all_futures-last :
    (service : Service) (c : String) (cs : List String) (fuel : ℕ)
    → all_spin (service.spins 0) (c ∷ cs) ≡ true
    → AllAvailable service (c ∷ cs)
    → AllAnswer (service.ready_in 0) (c ∷ cs)
    → wait_all_futures (suc fuel) service (c ∷ cs) (call_all_clients service (c ∷ cs))
      ≡ some (last_answer (service.ready_in 0) true (c ∷ cs))
unfolding wait_all_futures wait_loop
wait_all_futures-last service c cs fuel p a b =
    let fs = call_all_clients service (c ∷ cs) in
    let ready = service.ready_in 0 in
    ground (
      arith,
      p,
      poll-done ready fs true (call_all_clients-AllReady service ready (c ∷ cs) a b),
      call_all_clients-length service (c ∷ cs) a,
      poll-last_answer service ready (c ∷ cs) true false a b,
    )

no_client :
    (service : Service) (fuel : ℕ)
    → wait_all_futures fuel service [] (call_all_clients service []) ≡ some false
unfolding wait_all_futures call_all_clients
no_client service fuel = refl

-- If there is no client, or fewer futures than clients because one of them is not there, the wait
-- returns failure without a round.
pub wait_all_futures-missing :
    (service : Service) (cs : List String) (fuel : ℕ)
    → (cs ≡ []) ⊎ (length (call_all_clients service cs) ≢ length cs)
    → wait_all_futures fuel service cs (call_all_clients service cs) ≡ some false
unfolding wait_all_futures
wait_all_futures-missing service cs fuel (inl e) =
    subst (λ cs. wait_all_futures fuel service cs (call_all_clients service cs) ≡ some false)
      (sym e) (no_client service fuel)
wait_all_futures-missing service cs fuel (inr e) = ground (arith, e)
