-- ===== src/Workers/Runs.antt =====
-- Each step of a worker of src/ConversionWorker.cpp keeps the counters and the queues of all.
use forward_epics_to_kafka.Base.{
  ℕ, ◌%◌, ◌<◌, ◌≡◌, refl, sym, ap, ◌∙◌, subst, Option, none, some, List, [], ◌∷◌, All, All-append,
  arith, ltb, if◌then◌else◌,
}
use forward_epics_to_kafka.Queue.{QueueApi, HasMemory}
use forward_epics_to_kafka.Stream.Fill.{
  ConversionWorkPacket, Heap, Filled, update_at, update_at_ne, word32, fill_conversion_queue,
}
use forward_epics_to_kafka.Stream.Fill.Batches.{All-implies}
use forward_epics_to_kafka.Stream.Fill.Refines.{fill_conversion_queue-Fills}
use forward_epics_to_kafka.Stream.Fill.Frame.{fill_conversion_queue-Keeps}
use forward_epics_to_kafka.ConversionWorker.{WorkerState, done}
use forward_epics_to_kafka.ConversionWorker.Drain.{Sound, Fills-Sound}
use forward_epics_to_kafka.ConversionWorker.Emits.{emit_one}
use forward_epics_to_kafka.Workers.{
  System, Action, emits, visits, arrives, worker_of, emits_next, visits_stream, act,
}
use forward_epics_to_kafka.Base.{map-eq-nil, map-eq-cons}
use forward_epics_to_kafka.Queue.{try_dequeue_cons, try_dequeue_nil}
use forward_epics_to_kafka.Stream.Fill.{without}
use forward_epics_to_kafka.Stream.Fill.Batches.{batches, accepted}
use forward_epics_to_kafka.Base.{length, ◌++◌}
use forward_epics_to_kafka.ConversionWorker.Drain.{destroy_packet-Sound}
use forward_epics_to_kafka.Workers.Counters.{
  AllSound, Step, One-Sound, Step-AllSound, rest, All-both,
}

module _ {PQ U W : Type 0} (packets : QueueApi PQ ℕ) (emit : ℕ → U → W → W) where
  abbrev pub tail_of : List (ConversionWorkPacket U) → List (ConversionWorkPacket U)
  tail_of [] = []
  tail_of (k ∷ ks) = ks

  abbrev pub first_emitted : List (ConversionWorkPacket U) → W → W
  first_emitted [] w = w
  first_emitted (k ∷ ks) w = emit k.path k.update w

  emit_one-Step :
      (i : ℕ) (owner others : ℕ → ℕ) (ks : List (ConversionWorkPacket U)) (w : WorkerState PQ U W)
      → Sound packets others ks w.queue w.heap
      → All (λ a. owner a ≡ i) (packets.contents w.queue)
      → (w' : WorkerState PQ U W) × (emit_one packets emit w ≡ done w')
        × Step packets i owner owner w.heap w'.heap w'.queue
        × Sound packets others (tail_of ks) w'.queue w'.heap
        × (w'.world ≡ first_emitted ks w.world)
  unfolding emit_one
  emit_one-Step i owner others [] w s o =
      let e =
        try_dequeue_nil packets w.queue
          (map-eq-nil w.heap.packet (packets.contents w.queue) s.alive) in
      (
        w,
        rw (e, emit_one),
        record { grown = omega arith; owners = λ a lt. refl; others = λ a lt ne. refl; mine = o },
        s,
        refl,
      )
  emit_one-Step i owner others (k ∷ ks) w s o =
      let (id, tail, c) = map-eq-cons w.heap.packet (packets.contents w.queue) _ _ s.alive in
      let (q', e, c') = try_dequeue_cons packets w.queue id tail c in
      let (here, gone, left) =
        destroy_packet-Sound packets others k ks w.queue q' id w.heap s
          (c ∙ ap (◌∷◌ id) (sym c')) in
      let all_mine = subst (All (λ a. owner a ≡ i)) c o in
      (
        record { queue = q'; heap = without k id w.heap; world = emit k.path k.update w.world },
        rw (e, emit_one) (rw (here, emit_one) (rw (gone, emit_one))),
        record {
          grown = omega arith;
          owners = λ a lt. refl;
          others = λ a lt ne.
              update_at_ne w.heap.packet id none a (λ same. ne (ap owner same ∙ all_mine.0));
          mine = subst (All (λ a. owner a ≡ i)) (sym c') all_mine.1;
        },
        left,
        refl,
      )

  abbrev owned_from : ℕ → ℕ → (ℕ → ℕ) → ℕ → ℕ
  owned_from m i owner a = if ltb a m then owner a else i

  visit-Step :
      {UQ : Type 0} (updates : QueueApi UQ (Option U)) (i this : ℕ) (ps : List ℕ) (uq : UQ)
      (room : ℕ) (owner others : ℕ → ℕ) (ks : List (ConversionWorkPacket U)) (q : PQ) (h : Heap U)
      → HasMemory packets
      → room < word32
      → Sound packets others ks q h
      → All (λ a. owner a ≡ i) (packets.contents q)
      → (r : Filled UQ PQ U) × (fill_conversion_queue updates packets this ps uq q room h ≡ some r)
        × Step packets i owner (owned_from h.next i owner) h r.heap r.queue
        × Sound packets others
            (ks ++ batches this ps (accepted (length ps) room (updates.contents uq)))
            r.queue
            r.heap
  visit-Step updates i this ps uq room owner others ks q h memory small s o =
      let (r, ends, f, _, _) =
        fill_conversion_queue-Fills updates packets memory this ps uq q room h small s.fresh
          s.ascending in
      let (keeps, adds) = fill_conversion_queue-Keeps updates packets this ps uq q room h r ends in
      (
        r,
        ends,
        record {
          grown = keeps.grown;
          owners = λ a lt. ground (arith, lt);
          others = λ a lt ne. keeps.old a lt;
          mine = subst (All (λ a. owned_from h.next i owner a ≡ i)) (sym adds.contents) (
              All-append _ (packets.contents q) adds.news
                (All-both (λ a. a < h.next) (λ a. owner a ≡ i)
                  (λ a. owned_from h.next i owner a ≡ i) (packets.contents q)
                  (λ a lt e. ground (arith, lt, e)) s.fresh o)
                (All-implies adds.news (λ a le. ground (arith, le)) adds.above));
        },
        Fills-Sound packets others ks this ps _ q h r s f,
      )

module _ {UQ PQ U W : Type 0} (updates : QueueApi UQ (Option U)) (packets : QueueApi PQ ℕ)
    (paths : ℕ → List ℕ) (emit : ℕ → U → W → W) (n : ℕ) where
  -- The worker is one of the `n`.
  abbrev pub Acts : Action UQ → Type 0
  Acts (emits i) = i < n
  Acts (visits i j room) = i < n
  Acts (arrives j b) = Unit

  -- The packets behind an action, and what it emits.
  abbrev pub moved :
      Action UQ
      → System UQ PQ U W
      → (ℕ → List (ConversionWorkPacket U))
      → ℕ
      → List (ConversionWorkPacket U)
  moved (emits i) s ks = update_at ks i (tail_of packets emit (ks i))
  moved (visits i j room) s ks = update_at ks i (
      ks i
      ++ batches j (paths j)
          (accepted (length (paths j)) (room % word32) (updates.contents (s.buffers j))))
  moved (arrives j b) s ks = ks

  abbrev pub emitted_by : Action UQ → (ℕ → List (ConversionWorkPacket U)) → W → W
  emitted_by (emits i) ks w = first_emitted packets emit (ks i) w
  emitted_by _ ks w = w

  pub emits-AllSound :
      (i : ℕ) (s : System UQ PQ U W) (ks : ℕ → List (ConversionWorkPacket U)) (owner : ℕ → ℕ)
      → i < n
      → AllSound packets n owner ks s.heap s.queues
      → (s' : System UQ PQ U W) × (owner' : ℕ → ℕ) × (act updates packets paths emit (emits i) s
          ≡ done s')
        × AllSound packets n owner' (moved (emits i) s ks) s'.heap s'.queues
        × (s'.world ≡ emitted_by (emits i) ks s.world)
  unfolding act emits_next
  emits-AllSound i s ks owner lt c =
      let (w, e, st, f, out) =
        emit_one-Step packets emit i owner (rest packets n i ks) (ks i)
          (worker_of updates packets paths emit i s)
          (One-Sound packets n i owner ks s.heap s.queues lt c) (c.each i).belong in
      (
        record s { queues = update_at s.queues i w.queue; heap = w.heap; world = w.world },
        owner,
        rw (e, act, emits_next) refl,
        Step-AllSound packets n i owner owner ks s.heap w.heap s.queues w.queue
            (tail_of packets emit (ks i)) lt c st f,
        out,
      )

  pub act-AllSound :
      (a : Action UQ) (s : System UQ PQ U W) (ks : ℕ → List (ConversionWorkPacket U))
      (owner : ℕ → ℕ)
      → HasMemory packets
      → Acts a
      → AllSound packets n owner ks s.heap s.queues
      → (s' : System UQ PQ U W) × (owner' : ℕ → ℕ) × (act updates packets paths emit a s ≡ done s')
        × AllSound packets n owner' (moved a s ks) s'.heap s'.queues
        × (s'.world ≡ emitted_by a ks s.world)
  unfolding act emits_next visits_stream
  act-AllSound (emits i) s ks owner memory lt c = emits-AllSound i s ks owner lt c
  act-AllSound (visits i j room) s ks owner memory lt c =
      let (r, e, st, f) =
        visit-Step packets emit updates i j (paths j) (s.buffers j) (room % word32) owner
          (rest packets n i ks) (ks i) (s.queues i) s.heap memory (omega arith)
          (One-Sound packets n i owner ks s.heap s.queues lt c) (c.each i).belong in
      let owner' = owned_from packets emit s.heap.next i owner in
      (
        record s {
          queues = update_at s.queues i r.queue;
          heap = r.heap;
          buffers = update_at s.buffers j r.output_queue;
        },
        owner',
        rw (e, act, visits_stream) refl,
        Step-AllSound packets n i owner owner' ks s.heap r.heap s.queues r.queue _ lt c st f,
        refl,
      )
  act-AllSound (arrives j b) s ks owner memory lt c =
      (record s { buffers = update_at s.buffers j b }, owner, refl, c, refl)
