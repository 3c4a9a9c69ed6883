-- ===== src/Workers.antt =====
-- The workers of src/ConversionWorker.cpp side by side, with queues of their own and one heap of
-- packets. A step is one round of a worker's inner loop, or one visit of a stream for a worker; the lock
-- of the scheduler lets one worker at a time visit.
pub mod Counters
pub mod Runs
pub mod Clears
pub mod Conserves
pub mod Destroy
use forward_epics_to_kafka.Base.{
  ℕ, zero, suc, ◌%◌, Option, none, some, List, [], ◌∷◌, ltb, true, false, ◌==◌, if◌then◌else◌,
}
use forward_epics_to_kafka.Queue.{QueueApi}
use forward_epics_to_kafka.Stream.Fill.{Heap, word32, update_at, fill_conversion_queue}
use forward_epics_to_kafka.ConversionWorker.{WorkerState, Outcome, done, fault, out_of_fuel}
use forward_epics_to_kafka.ConversionWorker.Emits.{emit_one}

-- The queues by their workers, and the buffers by their streams.
pub record System (UQ PQ U W : Type 0) : Type 0 where
  pub queues : ℕ → PQ
  pub heap : Heap U
  pub buffers : ℕ → UQ
  pub world : W

-- `emits i`: worker i takes a packet from its queue, if there is one. `visits i j room`: it visits the
-- j-th stream. `arrives j b`: updates arrived in the buffer of the j-th stream, which is `b` now.
pub data Action (UQ : Type 0) : Type 0 where
  emits : ℕ → Action UQ
  visits : ℕ → ℕ → ℕ → Action UQ
  arrives : ℕ → UQ → Action UQ

module _ {UQ PQ U W : Type 0} (updates : QueueApi UQ (Option U)) (packets : QueueApi PQ ℕ)
    (paths : ℕ → List ℕ) (emit : ℕ → U → W → W) where
  abbrev pub worker_of : ℕ → System UQ PQ U W → WorkerState PQ U W
  worker_of i s = record { queue = s.queues i; heap = s.heap; world = s.world }

  unfoldable pub emits_next : ℕ → System UQ PQ U W → Outcome (System UQ PQ U W)
  unfolding emit_one
  emits_next i s = elim (emit_one packets emit (worker_of i s)) [
    | fault ↦ fault
    | out_of_fuel ↦ out_of_fuel
    | done w ↦
        done (record s { queues = update_at s.queues i w.queue; heap = w.heap; world = w.world })
  ]

  unfoldable pub visits_stream : ℕ → ℕ → ℕ → System UQ PQ U W → Outcome (System UQ PQ U W)
  unfolding fill_conversion_queue
  visits_stream i j room s =
      elim (fill_conversion_queue updates packets j (paths j) (s.buffers j) (s.queues i)
        (room % word32) s.heap) [
          | none ↦ fault
          | some r ↦ done (record s {
            queues = update_at s.queues i r.queue;
            heap = r.heap;
            buffers = update_at s.buffers j r.output_queue;
          })
        ]

  unfoldable pub act : Action UQ → System UQ PQ U W → Outcome (System UQ PQ U W)
  unfolding emits_next visits_stream
  act (emits i) s = emits_next i s
  act (visits i j room) s = visits_stream i j room s
  act (arrives j b) s = done (record s { buffers = update_at s.buffers j b })

  unfoldable pub acts : List (Action UQ) → System UQ PQ U W → Outcome (System UQ PQ U W)
  unfolding act
  acts [] s = done s
  acts (a ∷ as') s = elim (act a s) [
    | fault ↦ fault
    | out_of_fuel ↦ out_of_fuel
    | done s' ↦ acts as' s'
  ]
