-- ===== src/Tests/Races.antt =====
-- What other threads may do meanwhile: polls, added and removed streams, signals, and the clock.
use forward_epics_to_kafka.Base.{
  ℕ, suc, ◌+◌, ◌≤◌, ◌≡◌, refl, Bool, true, false, none, some, List, [], ◌∷◌, ◌++◌, arith,
  if◌then◌else◌, ltb, map,
}
use forward_epics_to_kafka.Kafka.{Producer, new_producer, no_error}
use forward_epics_to_kafka.Kafka.Ownership.{Owned}
use forward_epics_to_kafka.Kafka.Race.{reach_switch, produce_among}
use forward_epics_to_kafka.Kafka.Race.Threads.{Ends, still_held, produce_among-Ends, produce_raced}
use forward_epics_to_kafka.ConversionWorker.{Outcome, done}
use forward_epics_to_kafka.ConversionScheduler.{Visited, Served}
use forward_epics_to_kafka.ConversionScheduler.Races.{fill_among, ended, no_fuel}
use forward_epics_to_kafka.ConversionScheduler.Races.Grows.{fill_among-ended}
use forward_epics_to_kafka.ConversionScheduler.Races.Shrinks.{fill_among-spins}
use forward_epics_to_kafka.Reporter.{
  Reporter, construct, turn, destroy, finished, thread, passed, here, next,
}
use forward_epics_to_kafka.Reporter.Schedule.{IsScheduled, construct-IsScheduled_later}
use forward_epics_to_kafka.Reporter.Stops.{destroy_lem}
use forward_epics_to_kafka.Main.Signals.{
  interrupt, terminate, goes_on, signalled, Happens, run, new_process, any_signal,
}
use forward_epics_to_kafka.Main.Signals.Raised.{Ended, made, run_lem}

new_producer-Owned : Owned new_producer
new_producer-Owned = record { live = refl; distinct = tt; fresh = tt; counted = omega arith }

-- Nothing is delivered meanwhile.
produce_among-Ends_example :
    (q : Producer) × (reach_switch [] no_error [] new_producer ≡ some q)
    × Ends (still_held no_error 0 q) no_error (produce_among [] no_error [] 10 new_producer)
produce_among-Ends_example = produce_among-Ends [] no_error [] 10 new_producer new_producer-Owned

produce_raced_example : produce_among [] no_error ((0, false) ∷ []) 10 new_producer ≡ none
produce_raced_example = produce_raced false 10 new_producer new_producer-Owned

abbrev nothing : ℕ → ℕ → ℕ → Outcome (Visited ℕ)
nothing i room s = done (record { count = 0; state = s })

-- A third stream comes while the first two are visited.
abbrev growing : ℕ → ℕ
growing k = if ltb k 4 then 2 else 3

growing_grows : (k : ℕ) → growing k ≤ growing (suc k)
growing_grows k = ground arith

fill_among-ended_example : (r : Served ℕ) × (fill_among nothing growing 8 6 1 7 ≡ ended r)
fill_among-ended_example =
    fill_among-ended nothing growing 8 3 1 6 7 (λ i room s. (_, refl)) growing_grows
      (λ k. ground arith) (omega arith)

-- The last of three streams is removed.
abbrev shrinking : ℕ → ℕ → ℕ
shrinking first k = if ltb k first then 3 else 2

fill_among-spins_example : fill_among nothing (shrinking 3) 8 100 2 7 ≡ no_fuel
fill_among-spins_example =
    fill_among-spins nothing (shrinking 3) 8 100 2 7 (λ i room s. refl) (omega arith) (omega arith)
      refl refl refl (λ k lt. ground arith)

-- A report counts itself, and the timer is always set again.
abbrev count_report : ℕ → ℕ × Bool
count_report n = (suc n, true)

abbrev started : Reporter ℕ
started = construct 2000 count_report 5 0

abbrev late : Reporter ℕ
late = record started { now = 5 + 4500 }

construct-IsScheduled_later_example :
    IsScheduled 2000 count_report 5 (turn 2000 count_report (turn 2000 count_report late))
unfolding construct
construct-IsScheduled_later_example =
    construct-IsScheduled_later 2000 count_report 5 0
      (turn 2000 count_report (turn 2000 count_report late))
      (next (passed 4500) (next thread (next thread here)))

-- The time of the report has come, the clock goes on, and another thread counts.
destroy_lem_example :
    (s : Reporter ℕ) × (destroy 2000 count_report ((3, suc) ∷ (0, λ n. n) ∷ (9, suc) ∷ []) late
      ≡ some s)
    × (s.phase ≡ finished)
    × (s.times ≡ [])
unfolding construct
destroy_lem_example =
    destroy_lem 2000 count_report ((3, suc) ∷ (0, λ n. n) ∷ (9, suc) ∷ []) late (omega arith)

abbrev at_the_end : List Happens
at_the_end = made ++ signalled interrupt ∷ goes_on ∷ goes_on ∷ goes_on ∷ []

run_lem_example :
    Ended (run at_the_end new_process) (any_signal at_the_end)
    × ((run (made ++ map signalled (interrupt ∷ terminate ∷ [])) new_process).killed ≡ false)
run_lem_example = run_lem at_the_end (interrupt ∷ terminate ∷ [])
