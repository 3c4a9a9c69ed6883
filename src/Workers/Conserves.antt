-- ===== src/Workers/Conserves.antt =====
-- Nothing that the workers of src/ConversionWorker.cpp take from the streams is lost or emitted twice.
use forward_epics_to_kafka.Base.{
  ℕ, suc, ◌+◌, ◌%◌, ◌≡◌, Option, List, [], ◌∷◌, ◌++◌, map, length, Bool, if◌then◌else◌,
}
use forward_epics_to_kafka.Queue.{QueueApi}
use forward_epics_to_kafka.Stream.Fill.{ConversionWorkPacket, word32}
use forward_epics_to_kafka.Stream.Fill.Batches.{accepted}
use forward_epics_to_kafka.Pipeline.Refines.{pairs, pair_of}
use forward_epics_to_kafka.ConversionWorker.{done, fault, out_of_fuel}
use forward_epics_to_kafka.Workers.{System, Action, visits, act}
use forward_epics_to_kafka.Workers.Counters.{total}

module _ {U : Type 0} (test : ℕ × U → Bool) where
  -- How many of the pairs of a path and an update pass the test.
  abbrev pub count : List (ℕ × U) → ℕ
  count [] = 0
  count (k ∷ ks) = if test k then suc (count ks) else count ks

  abbrev pub count_packets : List (ConversionWorkPacket U) → ℕ
  count_packets ks = count (map pair_of ks)

-- A packet that is emitted is written to a log.
abbrev pub log_pair : {U : Type 0} → ℕ → U → List (ℕ × U) → List (ℕ × U)
log_pair p u l = l ++ (p, u) ∷ []

module _ {UQ PQ U : Type 0} (updates : QueueApi UQ (Option U)) (packets : QueueApi PQ ℕ)
    (paths : ℕ → List ℕ) (n : ℕ) where
  -- What a visit takes from the buffer of the stream: an update for each path.
  abbrev pub handed : Action UQ → System UQ PQ U (List (ℕ × U)) → List (ℕ × U)
  handed (visits i j room) s =
      pairs (paths j) (accepted (length (paths j)) (room % word32) (updates.contents (s.buffers j)))
  handed _ s = []

  unfoldable pub handed_over : List (Action UQ) → System UQ PQ U (List (ℕ × U)) → List (ℕ × U)
  unfolding act
  handed_over [] s = []
  handed_over (a ∷ as') s = elim (act updates packets paths log_pair a s) [
    | fault ↦ []
    | out_of_fuel ↦ []
    | done s' ↦ handed a s ++ handed_over as' s'
  ]

  -- The packets of the queues, with how many of them pass a test.
  abbrev pub Conserves :
      System UQ PQ U (List (ℕ × U))
      → List (ℕ × U)
      → (ℕ → List (ConversionWorkPacket U))
      → List (ℕ × U)
      → (ℕ → List (ConversionWorkPacket U))
      → Type 0
  Conserves s' taken ks w ks' =
      (test : ℕ × U → Bool)
      → count test s'.world + total n (λ i. count_packets test (ks' i))
        ≡ count test w + total n (λ i. count_packets test (ks i)) + count test taken
