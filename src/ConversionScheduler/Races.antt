-- ===== src/ConversionScheduler/Races.antt =====
-- `ConversionScheduler::fill` of src/ConversionWorker.cpp while other threads add and remove streams.
-- The lock that it holds is that of `Forwarder::addMapping` alone: between two calls of a method of
-- `Streams` the list may change. The k-th such call finds `sizes k` streams.
pub mod Grows
pub mod Shrinks
use forward_epics_to_kafka.Base.{
  ℕ, zero, suc, ◌+◌, ◌-◌, ◌%◌, ltb, leb, ◌==◌, ◌≡◌, true, false, if◌then◌else◌,
}
use forward_epics_to_kafka.Stream.Fill.{word32}
use forward_epics_to_kafka.ConversionWorker.{Outcome, done, fault, out_of_fuel}
use forward_epics_to_kafka.ConversionScheduler.{Served, Visited, served, next_sid}

-- How a call ends: with a value, by the exception of `operator[]`, by a bad access in the visit, or by
-- the end of the fuel.
pub data Ended (A : Type 0) : Type 0 where
  ended : A → Ended A
  out_of_range bad_access no_fuel : Ended A

module _ {S : Type 0} (visit : ℕ → ℕ → S → Outcome (Visited S)) (sizes : ℕ → ℕ) (nfm : ℕ) where
  -- One test of the `while`, the call of `operator[]` and the visit; `rest` is what follows it.
  abbrev pub turn_among : (Visited S → Ended (Served S)) → ℕ → ℕ → ℕ → S → Ended (Served S)
  turn_among rest k sid nfc s = elim (ltb nfc nfm) [
    | false ↦ ended (served sid nfc s)
    | true ↦ elim (ltb sid (sizes k)) [
      | false ↦ out_of_range
      | true ↦ elim (visit sid ((nfm + word32 - nfc) % word32) s) [
        | fault ↦ bad_access
        | out_of_fuel ↦ no_fuel
        | done v ↦ rest v
      ]
    ]
  ]

  pub turn_full :
      (rest : Visited S → Ended (Served S)) (k sid nfc : ℕ) (s : S)
      → ltb nfc nfm ≡ false
      → turn_among rest k sid nfc s ≡ ended (served sid nfc s)
  turn_full rest k sid nfc s full = rw (full, turn_among)

  pub turn-visit :
      (rest : Visited S → Ended (Served S)) (k sid nfc : ℕ) (s : S) (v : Visited S)
      → ltb nfc nfm ≡ true
      → ltb sid (sizes k) ≡ true
      → visit sid ((nfm + word32 - nfc) % word32) s ≡ done v
      → turn_among rest k sid nfc s ≡ rest v
  turn-visit rest k sid nfc s v more there e =
      rw (more, turn_among) (rw (there, turn_among) (rw (e, turn_among)))

  -- The `while` from the k-th call on; the first argument is fuel.
  unfoldable pub serve_among : ℕ → ℕ → ℕ → ℕ → ℕ → S → Ended (Served S)
  serve_among zero k sid0 sid nfc s = no_fuel
  serve_among (suc f) k sid0 sid nfc s =
      turn_among
        (λ v. elim (next_sid (sizes (suc k)) sid == sid0) [
          | true ↦ ended (served (next_sid (sizes (suc k)) sid) ((nfc + v.count) % word32) v.state)
          | false ↦
              serve_among f (suc (suc k)) sid0 (next_sid (sizes (suc k)) sid)
                ((nfc + v.count) % word32) v.state
        ])
        k sid nfc s

  abbrev pub first_sid : ℕ → ℕ
  first_sid sid = if leb (sizes 1) sid then 0 else sid

  unfoldable pub fill_among : ℕ → ℕ → S → Ended (Served S)
  unfolding serve_among
  fill_among fuel sid s = elim (sizes 0 == 0) [
    | true ↦ ended (served sid 0 s)
    | false ↦ serve_among fuel 2 (first_sid sid) (first_sid sid) 0 s
  ]
