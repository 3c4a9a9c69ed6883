-- ===== src/ConversionScheduler/Races/Shrinks.antt =====
-- A call of the scheduler while a stream is removed.
use forward_epics_to_kafka.Base.{
  ℕ, zero, suc, ◌+◌, ◌-◌, ◌%◌, ◌≤◌, ◌<◌, ◌≡◌, refl, ◌∙◌, ltb, ◌==◌, true, false, arith,
}
use forward_epics_to_kafka.Stream.Fill.{word32}
use forward_epics_to_kafka.ConversionWorker.{Outcome, done}
use forward_epics_to_kafka.ConversionScheduler.{Visited, next_sid}
use forward_epics_to_kafka.ConversionScheduler.Races.{
  out_of_range, no_fuel, turn-visit, serve_among, first_sid, fill_among,
}

module _ {S : Type 0} (visit : ℕ → ℕ → S → Outcome (Visited S)) (sizes : ℕ → ℕ) (nfm : ℕ) where
  -- Where the stream that comes next is removed between the test of the index and the call of
  -- `operator[]`, and with it all behind, the exception of that call leaves the worker's thread.
  pub fill_among-throws :
      (sid fuel : ℕ) (s : S)
      → 0 < nfm
      → 0 < sizes 0
      → sid < sizes 1
      → sizes 2 ≤ sid
      → fill_among visit sizes nfm (suc fuel) sid s ≡ out_of_range
  unfolding fill_among serve_among
  fill_among-throws sid fuel s room some_there there removed = ground arith

  round_stays : (n sid : ℕ) → 0 < n → sid ≤ n → (next_sid n sid == n) ≡ false
  round_stays n sid pos le = ground arith

  next_lt : (n sid : ℕ) → 0 < n → next_sid n sid < n
  next_lt n sid pos = ground arith

  spins :
      (f k n sid : ℕ) (s : S)
      → ((i room : ℕ) (t : S) → visit i room t ≡ done (record { count = 0; state = t }))
      → ((j : ℕ) → k < j → sizes j ≡ n)
      → 0 < n
      → sid ≤ n
      → sid < sizes k
      → 0 < nfm
      → serve_among visit sizes nfm f k n sid 0 s ≡ no_fuel
  unfolding serve_among
  spins zero k n sid s visits same pos le there more = refl
  spins (suc f) k n sid s visits same pos le there more =
      let size : sizes (suc k) ≡ n = same (suc k) (omega arith) in
      let room : ltb 0 nfm ≡ true = ground arith in
      let found : ltb sid (sizes k) ≡ true = ground arith in
      let away : (next_sid (sizes (suc k)) sid == n) ≡ false = rw size (round_stays n sid pos le) in
      let near : next_sid (sizes (suc k)) sid < n = rw size (next_lt n sid pos) in
      let size2 : sizes (suc (suc k)) ≡ n = same (suc (suc k)) (omega arith) in
      turn-visit visit sizes nfm _ k sid 0 s _ room found
        (visits sid ((nfm + word32 - 0) % word32) s)
      ∙ rw away (
          spins f (suc (suc k)) n (next_sid (sizes (suc k)) sid) s visits
            (λ j lt. same j (omega arith)) pos (omega (arith, near)) (omega (arith, near, size2))
            more)

  -- Where the last stream is the first to be visited and is then removed, so that `n` are left, and
  -- the buffers stay empty, the loop never comes back to where it began: it goes on, with the locks
  -- that `fill` holds, whatever the fuel.
  pub fill_among-spins :
      (fuel n : ℕ) (s : S)
      → ((i room : ℕ) (t : S) → visit i room t ≡ done (record { count = 0; state = t }))
      → 0 < n
      → 0 < nfm
      → sizes 0 ≡ suc n
      → sizes 1 ≡ suc n
      → sizes 2 ≡ suc n
      → ((j : ℕ) → 2 < j → sizes j ≡ n)
      → fill_among visit sizes nfm fuel n s ≡ no_fuel
  unfolding fill_among
  fill_among-spins fuel n s visits pos room e0 e1 e2 later =
      let first : first_sid visit sizes nfm n ≡ n = ground arith in
      let there : 0 < sizes 0 = omega (arith, e0) in
      let some_there : (sizes 0 == 0) ≡ false = ground arith in
      rw (some_there, fill_among)
        (rw first (spins fuel 2 n n s visits later pos (omega arith) (omega (arith, e2)) room))
