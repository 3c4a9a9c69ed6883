-- ===== src/Kafka/Closing.antt =====
-- The destructor of src/KafkaW/Producer.cpp, and the loops of src/Kafka.cpp over its producers. `Q` is
-- the state that librdkafka keeps for a producer, and `poll_events` a poll of it for 100 ms.
use forward_epics_to_kafka.Base.{
  ℕ, zero, suc, ◌≤◌, ◌==◌, ◌≡◌, ◌≢◌, refl, String, Bool, true, false, List, [], ◌∷◌, map,
  if◌then◌else◌, arith, inl, inr, ◌⊎◌, Bool-cases,
}
use forward_epics_to_kafka.Kafka.{Producer, ProducerStats, poll}

module _ {Q : Type 0} (poll_events : Q → Q) (outq_len : Q → ℕ) where
  -- The loop of the destructor, on the iterations that are left.
  unfoldable pub flush : ℕ → Q → Q
  flush zero q = q
  flush (suc n) q = let rest = flush n (poll_events q) in if outq_len q == 0 then q else rest

  abbrev pub number_of_iterations : ℕ
  number_of_iterations = 80

  -- `~Producer`: the queue at the end, and whether the producer is destroyed with messages in it.
  unfoldable pub destroy_producer : Q → Q × Bool
  unfolding flush
  destroy_producer q =
      let q' = flush number_of_iterations q in (q', if outq_len q' == 0 then false else true)

  abbrev pub iterate : ℕ → Q → Q
  iterate zero q = q
  iterate (suc n) q = iterate n (poll_events q)

  abbrev pub WaitsUntil : ℕ → Q → Type 0
  WaitsUntil zero q = Unit
  WaitsUntil (suc k) q = (outq_len q ≢ 0) × WaitsUntil k (poll_events q)

  flush_lem :
      (n : ℕ) (q : Q)
      → (k : ℕ) × (k ≤ n)
        × (flush n q ≡ iterate k q)
        × WaitsUntil k q
        × ((k ≡ n) ⊎ (outq_len (iterate k q) ≡ 0))
  unfolding flush
  flush_lem zero q = (0, omega arith, refl, tt, inl refl)
  flush_lem (suc n) q = elim (Bool-cases (outq_len q == 0)) [
    | inl e ↦ (0, omega arith, rw e refl, tt, inr (ground (arith, e)))
    | inr e ↦
        let (k, le, same, waits, end) = flush_lem n (poll_events q) in
        (suc k, omega (arith, le), rw e same, (ground (arith, e), waits), ground (arith, end))
  ]

  -- The destructor polls as long as messages wait, at most 80 times. It then leaves none, or it has
  -- polled 80 times and says that it leaves some.
  pub destroy_producer_lem :
      (q : Q)
      → (k : ℕ) × (k ≤ 80)
        × ((destroy_producer q).0 ≡ iterate k q)
        × WaitsUntil k q
        × (((destroy_producer q).1 ≡ false) × (outq_len (destroy_producer q).0 ≡ 0)
            ⊎ ((destroy_producer q).1 ≡ true) × (outq_len (destroy_producer q).0 ≢ 0) × (k ≡ 80))
  unfolding destroy_producer
  destroy_producer_lem q =
      let (k, le, same, waits, end) = flush_lem number_of_iterations q in
      (k, le, same, waits, ground (arith, same, end))

-- `ProducersByHost`, in the order of its keys.
abbrev pub Producers : Type 0
Producers = List (String × Producer)

-- `InstanceSet::poll`, by what librdkafka says to each producer.
unfoldable pub poll_all : (String → ℕ × ℕ) → Producers → Producers
unfolding poll
poll_all told [] = []
poll_all told ((h, p) ∷ ps) =
    let (served, waiting) = told h in (h, poll served waiting p) ∷ poll_all told ps

-- `getStatsForAllProducers`.
unfoldable pub get_stats_for_all_producers : Producers → List ProducerStats
get_stats_for_all_producers ps = map (λ (h, p). p.stats) ps

-- What `logMetrics` writes of each: the broker, the messages in total and those that wait.
unfoldable pub log_metrics : (String → ℕ) → Producers → List (String × ℕ × ℕ)
log_metrics waiting ps = map (λ (h, p). (h, p.total_messages_produced, waiting h)) ps
