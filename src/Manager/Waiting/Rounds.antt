-- ===== src/Manager/Waiting/Rounds.antt =====
-- The waiting loop, when each client answers in a round of its own.
use packml_ros.Base.{
  ◌≡◌, refl, ℕ, zero, suc, ◌+◌, ◌<◌, ◌≤◌, Bool, true, false, not, ◌&&◌, ◌||◌, String, Option, none,
  some, List, [], ◌∷◌, arith, Bool-cases, inl, inr, ltb, leb, ◌==◌, if◌then◌else◌,
}
use packml_ros.Messages.{Response}
use packml_ros.Manager.Waiting.{AllAvailable, AllSpin, call_all_clients-length}
use packml_ros.Manager.{Service, Future, poll, wait_loop, call_all_clients, wait_all_futures}

-- Somebody in the list answers in round `i`.
abbrev answers_in : (String → ℕ) → ℕ → List String → Bool
answers_in delay i [] = false
answers_in delay i (c ∷ cs) = delay c == i || answers_in delay i cs

-- Somebody refuses, from round `i` on, and nobody behind in the list answers in the same round.
abbrev pub refused_from : (String → ℕ) → (String → Bool) → ℕ → List String → Bool
refused_from delay agrees i [] = false
refused_from delay agrees i (c ∷ cs) =
    (leb i (delay c) && not (agrees c) && not (answers_in delay (delay c) cs))
    || refused_from delay agrees i cs

module _ (delay : String → ℕ) (answer : String → Response) where
  -- The answer of a client is ready from its round on.
  abbrev pub ready_by : ℕ → String → Option Response
  ready_by i c = if leb (delay c) i then some (answer c) else none

  -- the futures before round `i`
  futures_at : ℕ → List String → List Future
  futures_at i [] = []
  futures_at i (c ∷ cs) = record { client = c; valid = leb i (delay c) } ∷ futures_at i cs

  round_answer : ℕ → Bool → List String → Bool
  round_answer i s [] = s
  round_answer i s (c ∷ cs) = round_answer i (if delay c == i then (answer c).success else s) cs

  waits_after : ℕ → List String → Bool
  waits_after i [] = false
  waits_after i (c ∷ cs) = ltb i (delay c) || waits_after i cs

  poll_lem :
      (i : ℕ) (cs : List String) (s w : Bool)
      → poll (ready_by i) (futures_at i cs) s w ≡ record {
        futures = futures_at (i + 1) cs;
        success = round_answer i s cs;
        any_waiting = w || waits_after i cs;
      }
  unfolding poll futures_at round_answer waits_after
  poll_lem i [] s w = ground arith
  poll_lem i (c ∷ cs) s w =
      ground (arith, poll_lem i cs s w, poll_lem i cs s true, poll_lem i cs (answer c).success w)

  -- A round keeps the success before it unless somebody answers.
  round_answer-kept :
      (i : ℕ) (s : Bool) (cs : List String)
      → round_answer i s cs ≡ (if answers_in delay i cs then round_answer i true cs else s)
  unfolding round_answer
  round_answer-kept i s [] = refl
  round_answer-kept i s (c ∷ cs) =
      ground (arith, round_answer-kept i s cs, round_answer-kept i (answer c).success cs)

  refused_from-round_answer :
      (i : ℕ) (cs : List String)
      → refused_from delay (λ c. (answer c).success) i cs
        ≡ (not (round_answer i true cs) || refused_from delay (λ c. (answer c).success) (i + 1) cs)
  unfolding round_answer
  refused_from-round_answer i [] = refl
  refused_from-round_answer i (c ∷ cs) =
      grind (arith, refused_from-round_answer i cs, round_answer-kept i (answer c).success cs)

  waits_after-refused_from :
      (i : ℕ) (cs : List String)
      → waits_after i cs ≡ false
      → refused_from delay (λ c. (answer c).success) (i + 1) cs ≡ false
  unfolding waits_after
  waits_after-refused_from i [] h = refl
  waits_after-refused_from i (c ∷ cs) h = ground (arith, waits_after-refused_from i cs)

  -- Everybody answers until round `k`.
  abbrev pub AllWithin : ℕ → List String → Type 0
  AllWithin k [] = Unit {0}
  AllWithin k (c ∷ cs) = (delay c ≤ k) × AllWithin k cs

  waits_after-AllWithin :
      (i k : ℕ) (cs : List String) → AllWithin k cs → waits_after i cs ≡ true → i < k
  unfolding waits_after
  waits_after-AllWithin i k [] a h = ground arith
  waits_after-AllWithin i k (c ∷ cs) (d, a) h = ground (arith, d, waits_after-AllWithin i k cs a)

  -- such a service, with what is there and whose executor returns
  abbrev pub serves : (String → Bool) → (ℕ → String → Bool) → Service
  serves available spins = record { is_available = available; ready_in = ready_by; spins = spins }

  wait_loop_lem :
      (available : String → Bool) (spins : ℕ → String → Bool) (all : List String) (fuel k i : ℕ)
      (cs : List String)
      → i ≤ k
      → k < i + fuel
      → AllSpin (serves available spins) k all
      → AllWithin k cs
      → wait_loop fuel (serves available spins) all i (futures_at i cs)
        ≡ some (not (refused_from delay (λ c. (answer c).success) i cs))
  unfolding wait_loop
  wait_loop_lem available spins all zero k i cs l h p a = ground arith
  wait_loop_lem available spins all (suc fuel) k i cs l h p a =
      let b = refused_from-round_answer i cs in
      rw (poll_lem i cs true false, p i l)
        (elim (Bool-cases (waits_after i cs)) [
          | inl w ↦
              let n = waits_after-AllWithin i k cs a w in
              let next =
                wait_loop_lem available spins all fuel k (i + 1) cs (omega arith) (omega arith) p
                  a in
              ground (arith, w, b, next)
          | inr w ↦ ground (arith, w, b, waits_after-refused_from i cs w)
        ])

  call_all_clients-futures_at :
      (service : Service) (cs : List String)
      → AllAvailable service cs
      → call_all_clients service cs ≡ futures_at 0 cs
  unfolding call_all_clients futures_at
  call_all_clients-futures_at service [] a = refl
  call_all_clients-futures_at service (c ∷ cs) (e, a) =
      ground (arith, e, call_all_clients-futures_at service cs a)

  -- There is at least one client, all are there, each answers in a round of its own, no later than
  -- round `k` below the fuel, and no `spin_once` blocks up to round `k`. Then the wait returns a
  -- result, and it is failure exactly if some client refuses and no client behind it in the map
  -- answers in the same round.
  pub wait_all_futures_lem :
      (available : String → Bool) (spins : ℕ → String → Bool) (c : String) (cs : List String)
      (k fuel : ℕ)
      → let service = serves available spins in
        AllAvailable service (c ∷ cs)
        → AllSpin service k (c ∷ cs)
        → AllWithin k (c ∷ cs)
        → k < fuel
        → wait_all_futures fuel service (c ∷ cs) (call_all_clients service (c ∷ cs))
          ≡ some (not (refused_from delay (λ c. (answer c).success) 0 (c ∷ cs)))
  unfolding wait_all_futures
  wait_all_futures_lem available spins c cs k fuel a p within h =
      let service = serves available spins in
      ground (
        arith,
        call_all_clients-length service (c ∷ cs) a,
        wait_loop_lem available spins (c ∷ cs) fuel k 0 (c ∷ cs) (omega arith) (omega arith) p
            within,
        call_all_clients-futures_at service (c ∷ cs) a,
      )
