-- ===== src/ConversionWorker.antt =====
-- src/ConversionWorker.h and src/ConversionWorker.cpp: the rounds of a worker thread.
pub mod Transit
pub mod Drain
pub mod Thread
pub mod Emits
use forward_epics_to_kafka.Base.{ℕ, zero, suc, ◌-◌, ◌%◌, Option, none, some, ◌==◌}
use forward_epics_to_kafka.Queue.{QueueApi}
use forward_epics_to_kafka.Stream.Fill.{Heap, word32, destroy_packet}

-- What a worker works on: its queue, the packets, and the rest of the program, of type `W`.
pub record WorkerState (PQ U W : Type 0) : Type 0 where
  pub queue : PQ
  pub heap : Heap U
  pub world : W

-- How a piece of code ends: with a value, by a bad access, or by the end of the fuel.
pub data Outcome (A : Type 0) : Type 0 where
  done : A → Outcome A
  fault out_of_fuel : Outcome A

module _ {PQ U W : Type 0} (packets : QueueApi PQ ℕ) (emit : ℕ → U → W → W) where
  -- The inner `while (true)` of `ConversionWorker::run`: `emit` is `Packet->Path->emit`, and the
  -- packet is destroyed at the end of the round.
  unfoldable pub drain : ℕ → WorkerState PQ U W → Outcome (WorkerState PQ U W)
  drain zero s = out_of_fuel
  drain (suc f) s = elim (packets.try_dequeue s.queue) [
    | none ↦ done s
    | some (id, q) ↦ elim (s.heap.packet id) [
      | none ↦ fault
      | some k ↦ elim (destroy_packet id s.heap) [
        | none ↦ fault
        | some h ↦ drain f (record { queue = q; heap = h; world = emit k.path k.update s.world })
      ]
    ]
  ]

  -- One round of the outer loop: `fill` is `scheduler->fill(queue, qf, id)`, called on an empty
  -- queue, and `max_size` is `queue.MAX_SUBQUEUE_SIZE`, narrowed to `uint32_t` by the call.
  unfoldable pub run_round :
      (ℕ → WorkerState PQ U W → Outcome (WorkerState PQ U W))
      → ℕ
      → ℕ
      → WorkerState PQ U W
      → Outcome (WorkerState PQ U W)
  run_round fill max_size fuel s = elim (packets.size_approx s.queue) [
    | zero ↦ elim (fill (max_size % word32) s) [
      | done s' ↦ drain fuel s'
      | fault ↦ fault
      | out_of_fuel ↦ out_of_fuel
    ]
    | suc n ↦ drain fuel s
  ]
