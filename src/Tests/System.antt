-- ===== src/Tests/System.antt =====
-- Two workers side by side.
use forward_epics_to_kafka.Base.{
  All, ℕ, ◌≡◌, refl, Option, some, List, [], ◌∷◌, ◌==◌, arith, Bool-cases, inl, inr,
}
use forward_epics_to_kafka.Stream.Fill.{update_at, fill_loop, push_paths, mark_last, destroy_packet}
use forward_epics_to_kafka.ConversionWorker.{done, out_of_fuel}
use forward_epics_to_kafka.Workers.{System, Action, emits, visits, arrives, acts}
use forward_epics_to_kafka.Workers.Counters.{AllSound}
use forward_epics_to_kafka.Workers.Clears.{IsOther, no_packet_left}
use forward_epics_to_kafka.Workers.Destroy.{
  destroy_path, Clear, destroy_path-Clear, destroy_path-never,
}
use forward_epics_to_kafka.Tests.{list_queue, list_queue-HasMemory}
use forward_epics_to_kafka.Tests.Flow.{
  write, tagged_packet, one_packet, empty_heap, two_paths, buffered,
}

abbrev idle_system : System (List (Option ℕ)) (List ℕ) ℕ (List (ℕ × ℕ))
idle_system = record { queues = λ i. []; heap = empty_heap; buffers = λ j. buffered; world = [] }

-- The second worker visits while the first still emits.
abbrev turns_taken : List (Action (List (Option ℕ)))
turns_taken =
    visits 0 3 5
    ∷ emits 0
    ∷ visits 1 3 32
    ∷ emits 1
    ∷ emits 0
    ∷ arrives 3 (some 9 ∷ [])
    ∷ emits 0
    ∷ []

-- One worker has a packet of the path 0.
one_worker-AllSound :
    AllSound list_queue 1
      (λ a. 0)
      (update_at (λ i. []) 0 (tagged_packet ∷ []))
      one_packet
      (update_at (λ i. []) 0 (0 ∷ []))
one_worker-AllSound = record {
  each = λ j. elim (Bool-cases (j == 0)) [
    | inl e ↦
        let same : 0 ≡ j = ground (arith, e) in
        rw e (record {
          alive = refl;
          fresh = (omega arith, tt);
          ascending = (tt, tt);
          last = (λ e'. cc, tt);
          belong = (same, tt);
        })
    | inr e ↦ rw e (record { alive = refl; fresh = tt; ascending = tt; last = tt; belong = tt })
  ];
  transit = λ p. ground arith;
}

abbrev one_worker : System (List (Option ℕ)) (List ℕ) ℕ (List (ℕ × ℕ))
one_worker = record {
  queues = update_at (λ i. []) 0 (0 ∷ []);
  heap = one_packet;
  buffers = λ j. buffered;
  world = [];
}

-- The worker emits its packet in the second sleep.
destroy_path-Clear_example :
    Clear list_queue list_queue two_paths write 1 0
      (destroy_path list_queue list_queue two_paths write 0 ([] ∷ (0 ∷ []) ∷ [] ∷ []) one_worker)
destroy_path-Clear_example =
    destroy_path-Clear list_queue list_queue two_paths write 1 0 ([] ∷ (0 ∷ []) ∷ []) one_worker
      (update_at (λ i. []) 0 (tagged_packet ∷ [])) (λ a. 0) one_worker-AllSound (omega arith)
      (tt, ((omega arith, tt), tt)) (λ i lt. ground (arith, lt))

destroy_path-never_example :
    destroy_path list_queue list_queue two_paths write 0 ([] ∷ [] ∷ []) one_worker ≡ out_of_fuel
destroy_path-never_example =
    destroy_path-never list_queue list_queue two_paths write 1 0 0 ([] ∷ [] ∷ []) one_worker
      (update_at (λ i. []) 0 (tagged_packet ∷ [])) (λ a. 0) one_worker-AllSound (omega arith)
      (omega arith) (λ e. ground (arith, e)) (tt, (tt, tt)) (tt, (tt, tt))

-- All that the visit of the stream 3 has queued is emitted.
abbrev emitted_all : List (Action (List (Option ℕ)))
emitted_all = visits 0 3 5 ∷ emits 0 ∷ emits 0 ∷ emits 0 ∷ emits 0 ∷ []

abbrev after_all : System (List (Option ℕ)) (List ℕ) ℕ (List (ℕ × ℕ))
after_all = elim (acts list_queue list_queue two_paths write emitted_all idle_system) [
  | done s ↦ s
  | _ ↦ idle_system
]

no_packet_left_example : All (IsOther after_all.heap 0) (list_queue.contents (after_all.queues 0))
unfolding acts fill_loop push_paths mark_last destroy_packet
no_packet_left_example =
    no_packet_left list_queue list_queue two_paths write 2 emitted_all idle_system after_all 0 0
      list_queue-HasMemory (omega arith) (λ i. refl) (λ p. refl) refl refl (omega arith)
      (omega arith)
