-- ===== src/ConversionScheduler.antt =====
-- `ConversionScheduler` of src/ConversionWorker.h and src/ConversionWorker.cpp: a worker that asks is
-- served from the streams in turn. `visit` is `main->streams[sid]->fillConversionQueue`, and `S` the
-- state that it works on.
pub mod Turns
pub mod Simulates
pub mod Races
use forward_epics_to_kafka.Base.{
  ℕ, zero, suc, ◌+◌, ◌-◌, ◌%◌, ltb, leb, ◌==◌, true, false, if◌then◌else◌,
}
use forward_epics_to_kafka.Stream.Fill.{word32}
use forward_epics_to_kafka.ConversionWorker.{Outcome, done, fault, out_of_fuel}

-- What a call of `fill` leaves: the field `sid`, the result `nfc`, and the state.
pub record Served (S : Type 0) : Type 0 where
  pub sid : ℕ
  pub nfc : ℕ
  pub state : S

-- The number of packets that a stream queued.
pub record Visited (S : Type 0) : Type 0 where
  pub count : ℕ
  pub state : S

abbrev pub next_sid : ℕ → ℕ → ℕ
next_sid size sid = if leb size (sid + 1) then 0 else sid + 1

module _ {S : Type 0} where
  abbrev pub served : ℕ → ℕ → S → Served S
  served sid nfc s = record { sid = sid; nfc = nfc; state = s }

module _ {S : Type 0} (visit : ℕ → ℕ → S → Outcome (Visited S)) (size nfm : ℕ) where
  -- One test of the `while`, and one visit; `rest` is what follows it.
  abbrev pub turn : (Visited S → Outcome (Served S)) → ℕ → ℕ → S → Outcome (Served S)
  turn rest sid nfc s = elim (ltb nfc nfm) [
    | false ↦ done (served sid nfc s)
    | true ↦ elim (visit sid ((nfm + word32 - nfc) % word32) s) [
      | fault ↦ fault
      | out_of_fuel ↦ out_of_fuel
      | done v ↦ rest v
    ]
  ]

  -- The `while (nfc < nfm)`; the first argument is fuel.
  pub serve_rounds : ℕ → ℕ → ℕ → ℕ → S → Outcome (Served S)
  serve_rounds zero sid0 sid nfc s = out_of_fuel
  serve_rounds (suc f) sid0 sid nfc s =
      turn
        (λ v. elim (next_sid size sid == sid0) [
          | true ↦ done (served (next_sid size sid) ((nfc + v.count) % word32) v.state)
          | false ↦ serve_rounds f sid0 (next_sid size sid) ((nfc + v.count) % word32) v.state
        ])
        sid nfc s

  abbrev pub start_sid : ℕ → ℕ
  start_sid sid = if leb size sid then 0 else sid

  -- `size` rounds are enough: the loop ends where it began.
  unfoldable pub fill : ℕ → S → Outcome (Served S)
  unfolding serve_rounds
  fill sid s = elim (size == 0) [
    | true ↦ done (served sid 0 s)
    | false ↦ serve_rounds size (start_sid sid) (start_sid sid) 0 s
  ]
