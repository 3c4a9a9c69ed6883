-- ===== src/Pipeline.antt =====
-- The round of a worker of src/ConversionWorker.cpp put together: the scheduler visits the streams,
-- whose `fillConversionQueue` feeds the queue of the worker, and the worker empties it.
pub mod Refines
use forward_epics_to_kafka.Base.{
  ℕ, suc, ◌-◌, ◌%◌, ◌<◌, ◌≡◌, refl, Option, none, some, List, [], ◌++◌, length, arith, inl, inr,
  Bool-cases, ◌==◌, ap, ◌+◌, ◌∙◌, sym, map, subst,
}
use forward_epics_to_kafka.Queue.{QueueApi, HasMemory}
use forward_epics_to_kafka.Stream.Fill.{
  word32, Filled, update_at, ConversionWorkPacket, fill_conversion_queue,
}
use forward_epics_to_kafka.Stream.Fill.Batches.{batches, accepted}
use forward_epics_to_kafka.Stream.Fill.Refines.{fill_conversion_queue-Fills, waiting}
use forward_epics_to_kafka.ConversionWorker.{
  WorkerState, Outcome, done, fault, out_of_fuel, drain, run_round,
}
use forward_epics_to_kafka.ConversionWorker.Drain.{Sound, Fills-Sound, drain-Sound, transit_zero}
use forward_epics_to_kafka.ConversionWorker.Transit.{tagged, of_path}
use forward_epics_to_kafka.ConversionScheduler.{Visited, fill}
use forward_epics_to_kafka.ConversionScheduler.Turns.{IsFiller, fill-Serves}

-- The buffers of the streams, the field `sid` of the scheduler, and the rest.
pub record Shared (UQ W : Type 0) : Type 0 where
  pub buffers : ℕ → UQ
  pub sid : ℕ
  pub rest : W

done_injective : {A : Type 0} {a b : A} → done a ≡ done b → a ≡ b
done_injective {a = a} e = ap (value_or a) e
  where
    value_or : {A : Type 0} → A → Outcome A → A
    value_or a (done b) = b
    value_or a fault = a
    value_or a out_of_fuel = a

-- `size` streams, of which the i-th has the conversion paths `paths i`.
module _ {UQ PQ U W : Type 0} (updates : QueueApi UQ (Option U)) (packets : QueueApi PQ ℕ)
    (size : ℕ) (paths : ℕ → List ℕ) (emit : ℕ → U → W → W) where
  abbrev pub State : Type 0
  State = WorkerState PQ U (Shared UQ W)

  abbrev pub refilled : ℕ → Filled UQ PQ U → State → State
  refilled i r s = record {
    queue = r.queue;
    heap = r.heap;
    world = record s.world { buffers = update_at s.world.buffers i r.output_queue };
  }

  unfoldable pub visit : ℕ → ℕ → State → Outcome (Visited State)
  visit i room s =
      elim (fill_conversion_queue updates packets i (paths i) (s.world.buffers i) s.queue room
        s.heap) [
          | none ↦ fault
          | some r ↦ done (record { count = r.num_queued; state = refilled i r s })
        ]

  unfoldable pub fill_worker : ℕ → State → Outcome State
  unfolding visit
  fill_worker nfm s = elim (fill visit size nfm s.world.sid s) [
    | fault ↦ fault
    | out_of_fuel ↦ out_of_fuel
    | done r ↦ done (record r.state { world = record r.state.world { sid = r.sid } })
  ]

  -- `max_size` is the size of the worker's queue; the next argument is the fuel of its inner loop.
  unfoldable pub worker_round : ℕ → ℕ → State → Outcome State
  unfolding fill_worker
  worker_round max_size fuel s =
      run_round packets (λ p u w. record w { rest = emit p u w.rest }) fill_worker max_size fuel s

  -- Some packets wait, and the queue and the counters are sound.
  abbrev pub Held : (ℕ → ℕ) → State → Type 0
  Held others s = (ks : List (ConversionWorkPacket U)) × Sound packets others ks s.queue s.heap

  visit-IsFiller :
      (nfm : ℕ) (others : ℕ → ℕ) (memory : HasMemory packets)
      → IsFiller visit size nfm (Held others)
  unfolding visit
  visit-IsFiller nfm others memory = record {
    visits = λ i room s lt small (ks, h).
        let (r, ends, f, left, few) =
          fill_conversion_queue-Fills updates packets memory i (paths i) (s.world.buffers i) s.queue
            room s.heap small h.fresh h.ascending in
        (
          record { count = r.num_queued; state = refilled i r s },
          rw (ends, visit) refl,
          few,
          (
            ks
                ++ batches i (paths i)
                    (accepted (length (paths i)) room (updates.contents (s.world.buffers i))),
            Fills-Sound packets others ks i (paths i) _ s.queue s.heap r h f,
          ),
        );
  }

  fill_worker-Held :
      (others : ℕ → ℕ) (nfm : ℕ) (s : State)
      → HasMemory packets
      → nfm < word32
      → Held others s
      → (s' : State) × (fill_worker nfm s ≡ done s') × Held others s'
  unfolding fill_worker fill
  fill_worker-Held others nfm s memory small h = elim (Bool-cases (size == 0)) [
    | inl none_there ↦ (s, rw (none_there, fill_worker) refl, h)
    | inr some_there ↦
        let (r, ends, _, _, held) =
          fill-Serves visit size nfm (Held others) s.world.sid s (visit-IsFiller nfm others memory)
            (ground arith) small h in
        (
          record r.state { world = record r.state.world { sid = r.sid } },
          rw (ends, fill_worker) refl,
          held,
        )
  ]

  abbrev pub Drains : (ℕ → ℕ) → (ℕ → Outcome State) → Type 0
  Drains others run =
      (n : ℕ) × ((fuel : ℕ)
        → n < fuel
        → (s' : State) × (run fuel ≡ done s') × Sound packets others [] s'.queue s'.heap)

  drain-Drains :
      (others : ℕ → ℕ) (s : State)
      → Held others s
      → Drains others (λ fuel. drain packets (λ p u w. record w { rest = emit p u w.rest }) fuel s)
  drain-Drains others s (ks, h) = (
    length ks,
    λ fuel lt.
        let (s', ends, _, empty) =
          drain-Sound packets (λ p u w. record w { rest = emit p u w.rest }) others ks fuel s h
            lt in
        (s', ends, empty),
  )

  -- While memory lasts, a round of a worker ends without a bad access, for any number of streams: fuel
  -- above some number is enough. It leaves the worker's queue empty, and every counter of a path counts
  -- just what waits in the queues of the other workers.
  pub worker_round-Drains :
      (others : ℕ → ℕ) (max_size : ℕ) (s : State)
      → HasMemory packets
      → Held others s
      → Drains others (λ fuel. worker_round max_size fuel s)
  unfolding worker_round run_round
  worker_round-Drains others max_size s memory h =
      elim (Bool-cases (packets.size_approx s.queue == 0)) [
        | inl e ↦
            let idle : packets.size_approx s.queue ≡ 0 = ground arith in
            let (s1, ends, held) =
              fill_worker-Held others (max_size % word32) s memory (omega arith) h in
            let (n, drained) = drain-Drains others s1 held in
            (
              n,
              λ fuel lt.
                  let (s', over, empty) = drained fuel lt in
                  (s', rw (idle, run_round) (rw (ends, run_round) over), empty),
            )
        | inr e ↦
            let (k, busy) : (k : ℕ) × (packets.size_approx s.queue ≡ suc k) =
              (packets.size_approx s.queue - 1, ground arith) in
            let (n, drained) = drain-Drains others s h in
            (
              n,
              λ fuel lt.
                  let (s', over, empty) = drained fuel lt in (s', rw (busy, run_round) over, empty),
            )
      ]

  -- After a stream was visited the wait of `~ConversionPath` is still enough: a path whose counter is
  -- zero has no packet in the queue, neither an old one nor one that the visit queued. Memory lasts and
  -- the counters do not wrap.
  pub visit_transit_zero :
      (others : ℕ → ℕ) (ks : List (ConversionWorkPacket U)) (i room p : ℕ) (s : State)
      (v : Visited State)
      → HasMemory packets
      → room < word32
      → Sound packets others ks s.queue s.heap
      → visit i room s ≡ done v
      → let queued =
          ks
          ++ batches i
              (paths i)
              (accepted (length (paths i)) room (updates.contents (s.world.buffers i))) in
        tagged p queued + others p < word32
        → v.state.heap.transit p ≡ 0
        → (waiting packets v.state.heap v.state.queue ≡ map some queued) × (of_path p queued ≡ 0)
  unfolding visit
  visit_transit_zero others ks i room p s v memory small h e few z =
      let us = accepted (length (paths i)) room (updates.contents (s.world.buffers i)) in
      let (r, ends, f, _, _) =
        fill_conversion_queue-Fills updates packets memory i (paths i) (s.world.buffers i) s.queue
          room s.heap small h.fresh h.ascending in
      let made : visit i room s ≡ done (record { count = r.num_queued; state = refilled i r s }) =
        rw (ends, visit) refl in
      let same = done_injective (sym made ∙ e) in
      let sound = Fills-Sound packets others ks i (paths i) us s.queue s.heap r h f in
      let held =
        subst (λ w. Sound packets others (ks ++ batches i (paths i) us) w.state.queue w.state.heap)
          same sound in
      (
        held.alive,
        (transit_zero packets others (ks ++ batches i (paths i) us) v.state.queue v.state.heap p
            held few z).0,
      )
