-- ===== src/ConversionScheduler/Races/Grows.antt =====
-- A call of the scheduler while streams are only added.
use forward_epics_to_kafka.Base.{
  ℕ, zero, suc, ◌+◌, ◌-◌, ◌%◌, ◌≤◌, ◌<◌, ◌≡◌, refl, ◌∙◌, Bool, ltb, ◌==◌, true, false,
  if◌then◌else◌, arith, Bool-cases, inl, inr,
}
use forward_epics_to_kafka.Stream.Fill.{word32}
use forward_epics_to_kafka.ConversionWorker.{Outcome, done}
use forward_epics_to_kafka.ConversionScheduler.{Served, Visited, next_sid}
use forward_epics_to_kafka.ConversionScheduler.Races.{
  Ended, ended, turn_full, turn-visit, serve_among, first_sid, fill_among,
}

module _ {S : Type 0} (visit : ℕ → ℕ → S → Outcome (Visited S)) (sizes : ℕ → ℕ) (nfm n : ℕ) where
  -- The rounds that are left, at most: to the end of the list and then to the first stream, or to the
  -- first stream.
  abbrev left : ℕ → ℕ → ℕ
  left sid0 sid = if ltb sid sid0 then sid0 - sid else n - sid + sid0

  left_next :
      (size sid0 sid f : ℕ)
      → size ≤ n
      → sid0 < size
      → sid < n
      → left sid0 sid ≤ suc f
      → (next_sid size sid == sid0) ≡ false
      → (left sid0 (next_sid size sid) ≤ f) × (next_sid size sid < size)
  left_next size sid0 sid f bound first there enough ne = ground (arith, ne)

  go_back : (a b : Ended (Served S)) (t : Bool) → t ≡ true → elim t [ true ↦ a | false ↦ b ] ≡ a
  go_back a b t e = rw e refl

  go_on : (a b : Ended (Served S)) (t : Bool) → t ≡ false → elim t [ true ↦ a | false ↦ b ] ≡ b
  go_on a b t e = rw e refl

  left_pos : (sid0 sid : ℕ) → sid < n → 0 < left sid0 sid
  left_pos sid0 sid lt = ground arith

  serve_among-ended :
      (f k sid0 sid nfc : ℕ) (s : S)
      → ((i room : ℕ) (t : S) → (v : Visited S) × (visit i room t ≡ done v))
      → ((j : ℕ) → sizes j ≤ sizes (suc j))
      → ((j : ℕ) → sizes j ≤ n)
      → sid0 < sizes k
      → sid < sizes k
      → left sid0 sid ≤ f
      → (r : Served S) × (serve_among visit sizes nfm f k sid0 sid nfc s ≡ ended r)
  unfolding serve_among
  serve_among-ended zero k sid0 sid nfc s visits grows bound first there enough =
      absurd (omega (arith, left_pos sid0 sid (omega (arith, bound k)), enough))
  serve_among-ended (suc f) k sid0 sid nfc s visits grows bound first there enough =
      elim (Bool-cases (ltb nfc nfm)) [
        | inr full ↦ (_, turn_full visit sizes nfm _ k sid nfc s full)
        | inl more ↦
            let (v, visited) = visits sid ((nfm + word32 - nfc) % word32) s in
            let found : ltb sid (sizes k) ≡ true = ground arith in
            let visit_done = turn-visit visit sizes nfm _ k sid nfc s v more found visited in
            elim (Bool-cases (next_sid (sizes (suc k)) sid == sid0)) [
              | inl back ↦ (_, visit_done ∙ go_back _ _ _ back)
              | inr on ↦
                  let (less, inside) =
                    left_next (sizes (suc k)) sid0 sid f (bound (suc k)) (omega (arith, grows k))
                      (omega (arith, bound k)) enough on in
                  let (r, ends) =
                    serve_among-ended f (suc (suc k)) sid0 (next_sid (sizes (suc k)) sid)
                      ((nfc + v.count) % word32) v.state visits grows bound
                      (omega (arith, grows k, grows (suc k))) (omega (arith, inside, grows (suc k)))
                      less in
                  (r, visit_done ∙ go_on _ _ _ on ∙ ends)
            ]
      ]

  first_lt : (sid : ℕ) → 0 < sizes 1 → first_sid visit sizes nfm sid < sizes 1
  first_lt sid h = ground arith

  left_first : (sid : ℕ) → left sid sid ≤ n + sid
  left_first sid = ground arith

  -- As long as streams are only added while it runs, and there are never more than `n`, a call of the
  -- scheduler whose visits end well ends after `2 n` rounds at most, and asks for no stream that is not
  -- there.
  pub fill_among-ended :
      (sid fuel : ℕ) (s : S)
      → ((i room : ℕ) (t : S) → (v : Visited S) × (visit i room t ≡ done v))
      → ((j : ℕ) → sizes j ≤ sizes (suc j))
      → ((j : ℕ) → sizes j ≤ n)
      → n + n ≤ fuel
      → (r : Served S) × (fill_among visit sizes nfm fuel sid s ≡ ended r)
  unfolding fill_among
  fill_among-ended sid fuel s visits grows bound enough = elim (Bool-cases (sizes 0 == 0)) [
    | inl none_there ↦ rw (none_there, fill_among) (_, refl)
    | inr some_there ↦
        let some_left : 0 < sizes 1 = ground (arith, grows 0) in
        let first = first_lt sid some_left in
        rw (some_there, fill_among)
          (serve_among-ended fuel 2 (first_sid visit sizes nfm sid) (first_sid visit sizes nfm sid)
            0 s visits grows bound (omega (arith, first, grows 1)) (omega (arith, first, grows 1))
            (omega (arith, first, bound 1, left_first (first_sid visit sizes nfm sid))))
  ]
