-- ===== src/ConversionWorker/Emits.antt =====
-- One round of the inner loop of run in src/ConversionWorker.cpp, as a step beside other threads.
use forward_epics_to_kafka.Base.{ℕ, none, some}
use forward_epics_to_kafka.Queue.{QueueApi}
use forward_epics_to_kafka.Stream.Fill.{destroy_packet}
use forward_epics_to_kafka.ConversionWorker.{WorkerState, Outcome, done, fault}

module _ {PQ U W : Type 0} (packets : QueueApi PQ ℕ) (emit : ℕ → U → W → W) where
  -- One round of the worker's inner loop, if a packet waits.
  unfoldable pub emit_one : WorkerState PQ U W → Outcome (WorkerState PQ U W)
  emit_one s = elim (packets.try_dequeue s.queue) [
    | none ↦ done s
    | some (id, q) ↦ elim (s.heap.packet id) [
      | none ↦ fault
      | some k ↦ elim (destroy_packet id s.heap) [
        | none ↦ fault
        | some h ↦ done (record { queue = q; heap = h; world = emit k.path k.update s.world })
      ]
    ]
  ]
