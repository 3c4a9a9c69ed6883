-- ===== src/Tests/Flow.antt =====
-- The way of an update from the buffer of its stream to the outputs and to Kafka.
use forward_epics_to_kafka.Base.{
  Bool, ◌-◌, ℕ, ◌/◌, ◌<◌, ◌≡◌, refl, Option, none, some, List, [], ◌∷◌, ◌++◌, ◌==◌, arith,
  if◌then◌else◌, true, false,
}
use forward_epics_to_kafka.Stream.Fill.{Heap, ConversionWorkPacket}
use forward_epics_to_kafka.Stream.Fill.Refines.{fill_conversion_queue-Fills}
use forward_epics_to_kafka.ConversionWorker.{fault, out_of_fuel, WorkerState, Outcome, done, drain}
use forward_epics_to_kafka.ConversionWorker.Drain.{Sound, drain-Sound}
use forward_epics_to_kafka.ConversionWorker.Thread.{Worker, in_round, finished, stop, stop_lem}
use forward_epics_to_kafka.ConversionScheduler.{Visited, fill}
use forward_epics_to_kafka.ConversionScheduler.Turns.{serve_list, fill-serve_list, IsFiller}
use forward_epics_to_kafka.Pipeline.{Shared, worker_round}
use forward_epics_to_kafka.Pipeline.Refines.{round, Round, worker_round-Round}
use forward_epics_to_kafka.Kafka.{
  ProducerEvent, publish, delivery, polled, no_error, queue_full, Producer, new_producer,
  producer_events,
}
use forward_epics_to_kafka.Kafka.Ownership.{Owned, producer_events-Owned}
use forward_epics_to_kafka.Tests.{list_queue, list_queue-HasMemory}

abbrev pub empty_heap : Heap ℕ
empty_heap = record { next = 0; packet = λ _. none; transit = λ _. 0 }

abbrev pub tagged_packet : ConversionWorkPacket ℕ
tagged_packet = record { update = 10; path = 0; stream = some 3 }

abbrev pub one_packet : Heap ℕ
one_packet = record {
  next = 1;
  packet = λ a. if a == 0 then some tagged_packet else none;
  transit = λ p. if p == 0 then 1 else 0;
}

abbrev pub no_others : ℕ → ℕ
no_others p = 0

pub one_packet-Sound : Sound list_queue no_others (tagged_packet ∷ []) (0 ∷ []) one_packet
one_packet-Sound = record {
  alive = refl;
  fresh = (omega arith, tt);
  ascending = (tt, tt);
  last = (λ e. cc, tt);
  transit = λ p. ground arith;
}

empty_heap-Sound : Sound list_queue no_others [] [] empty_heap
empty_heap-Sound = record {
  alive = refl;
  fresh = tt;
  ascending = tt;
  last = tt;
  transit = λ p. refl;
}

abbrev pub write : ℕ → ℕ → List (ℕ × ℕ) → List (ℕ × ℕ)
write p u out = out ++ (p, u) ∷ []

abbrev pub busy_worker : WorkerState (List ℕ) ℕ (List (ℕ × ℕ))
busy_worker = record { queue = 0 ∷ []; heap = one_packet; world = [] }

abbrev pub buffered : List (Option ℕ)
buffered = some 10 ∷ none ∷ some 11 ∷ some 12 ∷ []

-- Two updates for two paths fit into five places.
fill_conversion_queue-Fills_example :
    (fill_conversion_queue-Fills list_queue list_queue list_queue-HasMemory 3
      (0 ∷ 1 ∷ [])
      buffered
      []
      5
      empty_heap
      (omega arith)
      tt
      tt).0.output_queue
    ≡ some 12 ∷ []
fill_conversion_queue-Fills_example =
    (fill_conversion_queue-Fills list_queue list_queue list_queue-HasMemory 3 (0 ∷ 1 ∷ []) buffered
      [] 5 empty_heap (omega arith) tt tt).3

drain-Sound_example :
    (s' : WorkerState (List ℕ) ℕ (List (ℕ × ℕ))) × (drain list_queue write 2 busy_worker ≡ done s')
    × (s'.world ≡ (0, 10) ∷ [])
    × Sound list_queue no_others [] s'.queue s'.heap
drain-Sound_example =
    drain-Sound list_queue write no_others (tagged_packet ∷ []) 2 busy_worker one_packet-Sound
      (omega arith)

abbrev half : ℕ → ℕ → List ℕ → Outcome (Visited (List ℕ))
half i room s = done (record { count = room / 2; state = s ++ i ∷ [] })

half-IsFiller : IsFiller half 3 8 (λ s. Unit)
half-IsFiller = record { visits = λ i room s lt small p. (_, refl, omega arith, tt) }

-- From stream 1 of three, with room for 8.
fill-serve_list_example : fill half 3 8 1 [] ≡ serve_list half 3 8 (1 ∷ 2 ∷ 0 ∷ []) 1 0 []
fill-serve_list_example = fill-serve_list half 3 8 1 [] (omega arith) (omega arith)

abbrev idle_worker : WorkerState (List ℕ) ℕ (Shared (List (Option ℕ)) (List (ℕ × ℕ)))
idle_worker = record {
  queue = [];
  heap = empty_heap;
  world = record { buffers = λ i. buffered; sid = 0; rest = [] };
}

abbrev pub two_paths : ℕ → List ℕ
two_paths i = 0 ∷ 1 ∷ []

abbrev visited_or :
    Visited (WorkerState (List ℕ) ℕ (Shared (List (Option ℕ)) (List (ℕ × ℕ))))
    → Outcome (Visited (WorkerState (List ℕ) ℕ (Shared (List (Option ℕ)) (List (ℕ × ℕ)))))
    → Visited (WorkerState (List ℕ) ℕ (Shared (List (Option ℕ)) (List (ℕ × ℕ))))
visited_or v (done w) = w
visited_or v fault = v
visited_or v out_of_fuel = v

abbrev deliveries : List ProducerEvent
deliveries =
    publish no_error 100
    ∷ publish queue_full 50
    ∷ publish no_error 7
    ∷ polled 1 1
    ∷ delivery 1 false
    ∷ delivery 0 true
    ∷ []

producer_events-Owned_example :
    (p : Producer) × (producer_events deliveries new_producer ≡ some p) × Owned p
producer_events-Owned_example = producer_events-Owned deliveries

-- A worker in its third round, which another thread stops while the round goes on.
abbrev interrupted_worker : Worker ℕ
interrupted_worker = record { do_run = 1; phase = in_round; world = 2; rounds = 2 }

-- A round counts down to 0.
abbrev count_down : ℕ → ℕ × Bool
count_down n = (n - 1, n == 0)

stop_lem_example :
    (v : Worker ℕ) × (stop count_down
        ((λ n. n) ∷ (λ n. n - 1) ∷ (λ n. n) ∷ (λ n. n) ∷ (λ n. n) ∷ [])
        interrupted_worker
      ≡ some v)
    × (v.phase ≡ finished)
    × (v.rounds ≡ 3)
stop_lem_example =
    stop_lem count_down (λ n. n) ((λ n. n) ∷ (λ n. n - 1) ∷ (λ n. n) ∷ (λ n. n) ∷ (λ n. n) ∷ [])
      interrupted_worker (λ v e. ground (arith, e))
      (
        λ v. omega arith,
        (λ v. omega arith, (λ v. omega arith, (λ v. omega arith, (λ v. omega arith, tt)))),
      )
      (λ e. ground (arith, e)) (omega arith)

-- One stream with two paths, and room for all that its buffer holds.
worker_round-Round_example :
    let t = round list_queue list_queue 1 two_paths write 32 0 (λ j. buffered) in
    (n : ℕ) × ((fuel : ℕ)
      → n < fuel
      → (s : WorkerState (List ℕ) ℕ (Shared (List (Option ℕ)) (List (ℕ × ℕ)))) × (worker_round
            list_queue list_queue 1 two_paths write 32 fuel idle_worker
          ≡ done s)
        × Round list_queue list_queue 1 two_paths write no_others [] t s)
worker_round-Round_example =
    worker_round-Round list_queue list_queue 1 two_paths write no_others 32 idle_worker
      list_queue-HasMemory empty_heap-Sound (omega arith)
