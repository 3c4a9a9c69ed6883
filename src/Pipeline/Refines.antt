-- ===== src/Pipeline/Refines.antt =====
-- What a round of a worker does to the buffers, the scheduler and the outputs, without its queue, its
-- packets and their counters.
use forward_epics_to_kafka.Base.{
  ℕ, ◌*◌, ◌%◌, ◌<◌, ◌≡◌, refl, Option, none, some, List, [], ◌∷◌, ◌++◌, length, arith, inl, inr,
  Bool-cases, ◌==◌, ap, ◌∙◌, sym, map, append-nil,
}
use mathlib.Core.List.{map-append}
use forward_epics_to_kafka.Base.{map-eq-nil}
use forward_epics_to_kafka.Queue.{QueueApi, HasMemory}
use forward_epics_to_kafka.Stream.Fill.{word32, update_at, ConversionWorkPacket}
use forward_epics_to_kafka.Stream.Fill.Batches.{batch, batches, accepted, left_over}
use forward_epics_to_kafka.Stream.Fill.Refines.{fill_conversion_queue-Fills}
use forward_epics_to_kafka.ConversionWorker.{done, drain, run_round}
use forward_epics_to_kafka.ConversionWorker.Drain.{Sound, Fills-Sound, drain-Sound, emitted}
use forward_epics_to_kafka.ConversionScheduler.{start_sid}
use forward_epics_to_kafka.ConversionScheduler.Turns.{turns}
use forward_epics_to_kafka.ConversionScheduler.Simulates.{Turn, serve, Simulates, fill-serve}
use forward_epics_to_kafka.Pipeline.{Shared, State, refilled, visit, fill_worker, worker_round}

-- What waits in the buffers, and what was taken from them: an update for each path.
pub record Abstract (U : Type 0) : Type 0 where
  pub buffers : ℕ → List (Option U)
  pub taken : List (ℕ × U)

module _ {U : Type 0} where
  -- Each update to each path, in this order.
  abbrev pub pairs : List ℕ → List U → List (ℕ × U)
  pairs ps [] = []
  pairs ps (u ∷ us) = map (λ p. (p, u)) ps ++ pairs ps us

  abbrev pub pair_of : ConversionWorkPacket U → ℕ × U
  pair_of k = (k.path, k.update)

  pairs-batch :
      (tag : Option ℕ) (ps : List ℕ) (u : U) → map pair_of (batch tag ps u) ≡ map (λ p. (p, u)) ps
  pairs-batch tag [] u = refl
  pairs-batch tag (p ∷ ps) u = ap (◌∷◌ (p, u)) (pairs-batch tag ps u)

  pub pairs-batches :
      (this : ℕ) (ps : List ℕ) (us : List U) → map pair_of (batches this ps us) ≡ pairs ps us
  pairs-batches this ps [] = refl
  pairs-batches this ps (u ∷ []) =
      pairs-batch (some this) ps u ∙ sym (append-nil (map (λ p. (p, u)) ps))
  pairs-batches this ps (u ∷ v ∷ us) =
      map-append {B = ℕ × U} pair_of (batch none ps u) (batches this ps (v ∷ us))
      ∙ ap (λ l. l ++ map pair_of (batches this ps (v ∷ us))) (pairs-batch none ps u)
      ∙ ap (λ l. map (λ p. (p, u)) ps ++ l) (pairs-batches this ps (v ∷ us))

  -- A stream hands over, with `room` left, what `accepted` takes from its buffer.
  abbrev pub hand_over : (ℕ → List ℕ) → ℕ → ℕ → Abstract U → ℕ × Abstract U
  hand_over paths i room a =
      let us = accepted (length (paths i)) room (a.buffers i) in
      (
        length us * length (paths i),
        record {
          buffers = update_at a.buffers i (left_over (length (paths i)) room (a.buffers i));
          taken = a.taken ++ pairs (paths i) us;
        },
      )

  -- Everything that was taken is emitted, in order.
  abbrev pub emit_all : {W : Type 0} → (ℕ → U → W → W) → List (ℕ × U) → W → W
  emit_all emit [] w = w
  emit_all emit ((p, u) ∷ rest) w = emit_all emit rest (emit p u w)

module _ {UQ PQ U W : Type 0} (updates : QueueApi UQ (Option U)) (packets : QueueApi PQ ℕ)
    (size : ℕ) (paths : ℕ → List ℕ) (emit : ℕ → U → W → W) where
  -- The packets of the queue are what was taken, the buffers hold what is left, and nothing else changed.
  pub record Abstracts (others : ℕ → ℕ) (w : W) (s : State updates packets size paths emit)
      (a : Abstract U) : Type 0 where
    pub packets_there : List (ConversionWorkPacket U)
    pub sound : Sound packets others packets_there s.queue s.heap
    pub taken : map pair_of packets_there ≡ a.taken
    pub buffers : (j : ℕ) → updates.contents (s.world.buffers j) ≡ a.buffers j
    pub rest : s.world.rest ≡ w

  visit-hand_over :
      (nfm : ℕ) (others : ℕ → ℕ) (w : W)
      → HasMemory packets
      → Simulates
          (visit updates packets size paths emit)
          size
          nfm
          (hand_over paths)
          (Abstracts others w)
  unfolding visit
  visit-hand_over nfm others w memory = record {
    visits = λ i room s a lt small h.
        let us' = accepted (length (paths i)) room (updates.contents (s.world.buffers i)) in
        let (r, ends, f, left, few) =
          fill_conversion_queue-Fills updates packets memory i (paths i) (s.world.buffers i) s.queue
            room s.heap small h.sound.fresh h.sound.ascending in
        (
          record { count = r.num_queued; state = refilled updates packets size paths emit i r s },
          rw (ends, visit) refl,
          f.num_queued
              ∙ ap (λ b. length (accepted (length (paths i)) room b) * length (paths i))
                  (h.buffers i),
          few,
          record {
            packets_there = h.packets_there ++ batches i (paths i) us';
            sound =
                Fills-Sound packets others h.packets_there i (paths i) us' s.queue s.heap r h.sound
                  f;
            taken =
                map-append {B = ℕ × U} pair_of h.packets_there (batches i (paths i) us')
                ∙ ap (λ l. l ++ map pair_of (batches i (paths i) us')) h.taken
                ∙ ap (λ l. a.taken ++ l)
                    (pairs-batches i (paths i) us'
                      ∙ ap (λ b. pairs (paths i) (accepted (length (paths i)) room b))
                          (h.buffers i));
            buffers = λ j. elim (Bool-cases (j == i)) [
              | inl e ↦ rw e (left ∙ ap (left_over (length (paths i)) room) (h.buffers i))
              | inr e ↦ rw e (h.buffers j)
            ];
            rest = h.rest;
          },
        );
  }

  abbrev on_rest : ℕ → U → Shared UQ W → Shared UQ W
  on_rest p u w = record w { rest = emit p u w.rest }

  emitted_lem :
      (ks : List (ConversionWorkPacket U)) (w : Shared UQ W)
      → ((emitted packets on_rest ks w).rest ≡ emit_all emit (map pair_of ks) w.rest)
        × ((emitted packets on_rest ks w).buffers ≡ w.buffers)
        × ((emitted packets on_rest ks w).sid ≡ w.sid)
  emitted_lem [] w = (refl, refl, refl)
  emitted_lem (k ∷ ks) w = emitted_lem ks (on_rest k.path k.update w)

  -- What is specified of a round: the streams in turn, from the one after the last that was served.
  abbrev pub round : ℕ → ℕ → (ℕ → List (Option U)) → Turn (Abstract U)
  round max_size sid buffers =
      let first = start_sid (visit updates packets size paths emit) size (max_size % word32) sid in
      serve size (max_size % word32) (hand_over paths) (turns size first) first 0
        (record { buffers = buffers; taken = [] })

  pub record Round (others : ℕ → ℕ) (w : W) (t : Turn (Abstract U))
      (s : State updates packets size paths emit) : Type 0 where
    pub buffers : (j : ℕ) → updates.contents (s.world.buffers j) ≡ t.state.buffers j
    pub sid : s.world.sid ≡ t.sid
    pub rest : s.world.rest ≡ emit_all emit t.state.taken w
    pub sound : Sound packets others [] s.queue s.heap

  drain-Round :
      (others : ℕ → ℕ) (w : W) (t : Turn (Abstract U)) (s : State updates packets size paths emit)
      (k : ℕ)
      → Abstracts others w s t.state
      → k ≡ t.sid
      → (n : ℕ) × ((fuel : ℕ)
          → n < fuel
          → (s' : State updates packets size paths emit) × (drain packets on_rest fuel
                (record s { world = record s.world { sid = k } })
              ≡ done s')
            × Round others w t s')
  drain-Round others w t s k h e = (
    length h.packets_there,
    λ fuel lt.
        let s1 : State updates packets size paths emit = record s {
          world = record s.world { sid = k };
        } in
        let (s', ends, world, empty) =
          drain-Sound packets on_rest others h.packets_there fuel s1 h.sound lt in
        let (rest, buffers, sid) = emitted_lem h.packets_there s1.world in
        (
          s',
          ends,
          record {
            buffers = λ j.
                ap (λ x. updates.contents (x.buffers j)) world
                ∙ ap (λ b. updates.contents (b j)) buffers
                ∙ h.buffers j;
            sid = ap (λ x. x.sid) world ∙ sid ∙ e;
            rest =
                ap (λ x. x.rest) world
                ∙ rest
                ∙ ap (λ l. emit_all emit l s.world.rest) h.taken
                ∙ ap (emit_all emit t.state.taken) h.rest;
            sound = empty;
          },
        ),
  )

  -- A round of a worker whose queue is empty does what is specified without queue and packets: the
  -- streams hand over in turn, each what fits into the room that is left, until there is none; and
  -- everything that was taken is emitted to its path, once and in order. While memory lasts and with
  -- fuel above some number it ends so, with the queue empty again and the counters exact.
  pub worker_round-Round :
      (others : ℕ → ℕ) (max_size : ℕ) (s : State updates packets size paths emit)
      → HasMemory packets
      → Sound packets others [] s.queue s.heap
      → 0 < size
      → let t = round max_size s.world.sid (λ j. updates.contents (s.world.buffers j)) in
        (n : ℕ) × ((fuel : ℕ)
          → n < fuel
          → (s' : State updates packets size paths emit) × (worker_round updates packets size paths
                emit max_size fuel s
              ≡ done s')
            × Round others s.world.rest t s')
  unfolding worker_round run_round fill_worker
  worker_round-Round others max_size s memory h some_there =
      let nfm = max_size % word32 in
      let start : Abstracts others s.world.rest s
          (record { buffers = λ j. updates.contents (s.world.buffers j); taken = [] }) =
        record { packets_there = []; sound = h; taken = refl; buffers = λ j. refl; rest = refl } in
      let (r, ends, sid, _, follows) =
        fill-serve (visit updates packets size paths emit) size nfm (hand_over paths)
          (Abstracts others s.world.rest) s.world.sid s _
          (visit-hand_over nfm others s.world.rest memory) some_there (omega arith) start in
      let idle : packets.size_approx s.queue ≡ 0 =
        packets.size_approx_lem s.queue
        ∙ ap length (map-eq-nil s.heap.packet (packets.contents s.queue) h.alive) in
      let (n, drained) =
        drain-Round others s.world.rest
          (round max_size s.world.sid (λ j. updates.contents (s.world.buffers j))) r.state r.sid
          follows sid in
      (
        n,
        λ fuel lt.
            let (s', over, round_done) = drained fuel lt in
            (s', rw (idle, run_round) (rw (ends, run_round, fill_worker) over), round_done),
      )
