-- ===== src/ConversionWorker/Drain.antt =====
-- The worker's queue and the `transit` counters: what a filling and a draining keep.
use forward_epics_to_kafka.Base.{
  ℕ, zero, suc, ◌+◌, ◌%◌, ◌<◌, ◌≡◌, refl, sym, ap, ◌∙◌, subst, Option, none, some, List, [], ◌∷◌,
  ◌++◌, map, length, All, Ascending, arith, cons_inj, map-eq-nil, map-eq-cons,
}
use mathlib.Core.List.{map-append}
use forward_epics_to_kafka.Queue.{QueueApi, try_dequeue_cons, try_dequeue_nil}
use forward_epics_to_kafka.Stream.Fill.{
  ConversionWorkPacket, Heap, Filled, update_at_ne, destroy_packet, without, word32,
}
use forward_epics_to_kafka.Stream.Fill.Batches.{batches, map_agree, All-implies}
use forward_epics_to_kafka.Stream.Fill.Mark.{counted_up_lem}
use forward_epics_to_kafka.Stream.Fill.Refines.{Fills, waiting, transit_after}
use forward_epics_to_kafka.ConversionWorker.{WorkerState, done, drain}
use forward_epics_to_kafka.ConversionWorker.Transit.{
  tagged, of_path, LastTagged, tagged-append, tagged-batches, LastTagged-append, batches-LastTagged,
  of_path_untagged,
}

module _ {PQ U : Type 0} (packets : QueueApi PQ ℕ) where
  -- `ks` wait in the queue, every one alive and at an address of its own, and `transit` counts, for
  -- each path, those that name their stream here and the `others`, in the queues of other workers.
  pub record Sound (others : ℕ → ℕ) (ks : List (ConversionWorkPacket U)) (q : PQ) (h : Heap U)
      : Type 0 where
    pub alive : waiting packets h q ≡ map some ks
    pub fresh : All (λ a. a < h.next) (packets.contents q)
    pub ascending : Ascending (packets.contents q)
    pub last : LastTagged ks
    pub transit : (p : ℕ) → h.transit p ≡ (tagged p ks + others p) % word32

  transit_after_lem :
      (this : ℕ) (ps : List ℕ) (us : List U) (t : ℕ → ℕ) (p n : ℕ)
      → t p ≡ n % word32
      → transit_after ps us t p ≡ (n + tagged p (batches this ps us)) % word32
  transit_after_lem this ps [] t p n e = omega (arith, e)
  transit_after_lem this ps (u ∷ us) t p n e =
      omega (arith, e, counted_up_lem ps t p (omega (arith, e)), tagged-batches this p ps u us)

  -- A filling keeps the queue sound.
  pub Fills-Sound :
      {UQ : Type 0} (others : ℕ → ℕ) (ks : List (ConversionWorkPacket U)) (this : ℕ) (ps : List ℕ)
      (us : List U) (q : PQ) (h : Heap U) (r : Filled UQ PQ U)
      → Sound others ks q h
      → Fills packets this ps us (waiting packets h q) h.transit r
      → Sound others (ks ++ batches this ps us) r.queue r.heap
  Fills-Sound others ks this ps us q h r s f = record {
    alive =
        f.queued
        ∙ ap (λ l. l ++ map some (batches this ps us)) s.alive
        ∙ sym (map-append {B = Option (ConversionWorkPacket U)} some ks (batches this ps us));
    fresh = f.fresh;
    ascending = f.ascending;
    last = LastTagged-append ks (batches this ps us) s.last (batches-LastTagged this ps us);
    transit = λ p.
        ap (λ t. t p) f.transit
        ∙ transit_after_lem this ps us h.transit p _ (s.transit p)
        ∙ omega (arith, tagged-append p ks (batches this ps us));
  }

  without-Sound :
      (others : ℕ → ℕ) (k : ConversionWorkPacket U) (ks : List (ConversionWorkPacket U)) (q q' : PQ)
      (id : ℕ) (h : Heap U)
      → Sound others (k ∷ ks) q h
      → packets.contents q ≡ id ∷ packets.contents q'
      → Sound others ks q' (without k id h)
  without-Sound others k ks q q' id h s c =
      let below = subst (All (λ a. a < h.next)) c s.fresh in
      let rising = subst Ascending c s.ascending in
      record {
        alive =
            map_agree (without k id h).packet h.packet (packets.contents q') (
              All-implies (packets.contents q')
                (λ a lt. update_at_ne h.packet id none a (omega arith)) rising.0)
            ∙ (cons_inj _ _ _ _ (ap (map h.packet) (sym c) ∙ s.alive)).1;
        fresh = below.1;
        ascending = rising.1;
        last = s.last.1;
        transit = λ p. ground (arith, s.transit p, s.transit k.path);
      }

  -- The oldest packet is alive, and its destruction keeps the queue sound.
  pub destroy_packet-Sound :
      (others : ℕ → ℕ) (k : ConversionWorkPacket U) (ks : List (ConversionWorkPacket U)) (q q' : PQ)
      (id : ℕ) (h : Heap U)
      → Sound others (k ∷ ks) q h
      → packets.contents q ≡ id ∷ packets.contents q'
      → (h.packet id ≡ some k)
        × (destroy_packet id h ≡ some (without k id h))
        × Sound others ks q' (without k id h)
  unfolding destroy_packet
  destroy_packet-Sound others k ks q q' id h s c =
      let here = (cons_inj _ _ _ _ (ap (map h.packet) (sym c) ∙ s.alive)).0 in
      (here, rw (here, destroy_packet), without-Sound others k ks q q' id h s c)

  module _ {W : Type 0} (emit : ℕ → U → W → W) where
    -- Every packet emitted, oldest first.
    abbrev pub emitted : List (ConversionWorkPacket U) → W → W
    emitted [] w = w
    emitted (k ∷ ks) w = emitted ks (emit k.path k.update w)

    -- With more fuel than packets wait the inner loop ends. Every packet was emitted once, oldest first,
    -- none is left, and the counters count just what waits elsewhere.
    pub drain-Sound :
        (others : ℕ → ℕ) (ks : List (ConversionWorkPacket U)) (fuel : ℕ) (s : WorkerState PQ U W)
        → Sound others ks s.queue s.heap
        → length ks < fuel
        → (s' : WorkerState PQ U W) × (drain packets emit fuel s ≡ done s')
          × (s'.world ≡ emitted ks s.world)
          × Sound others [] s'.queue s'.heap
    unfolding drain
    drain-Sound others ks zero s h lt = elim lt [ ]
    drain-Sound others [] (suc f) s h lt =
        let e =
          try_dequeue_nil packets s.queue
            (map-eq-nil s.heap.packet (packets.contents s.queue) h.alive) in
        (s, rw (e, drain), refl, h)
    drain-Sound others (k ∷ ks) (suc f) s h lt =
        let (id, rest, c) = map-eq-cons s.heap.packet (packets.contents s.queue) _ _ h.alive in
        let (q', e, c') = try_dequeue_cons packets s.queue id rest c in
        let (here, gone, left) =
          destroy_packet-Sound others k ks s.queue q' id s.heap h (c ∙ ap (◌∷◌ id) (sym c')) in
        let next : WorkerState PQ U W = record {
          queue = q';
          heap = without k id s.heap;
          world = emit k.path k.update s.world;
        } in
        let (s', ends, world, sound) = drain-Sound others ks f next left (omega arith) in
        (s', rw (e, drain) (rw (here, drain) (rw (gone, drain) ends)), world, sound)

  -- The wait of `~ConversionPath` is enough: where the counter of a path is zero, none of its packets
  -- waits. The counters do not wrap.
  pub transit_zero :
      (others : ℕ → ℕ) (ks : List (ConversionWorkPacket U)) (q : PQ) (h : Heap U) (p : ℕ)
      → Sound others ks q h
      → tagged p ks + others p < word32
      → h.transit p ≡ 0
      → (of_path p ks ≡ 0) × (others p ≡ 0)
  transit_zero others ks q h p s small z =
      (of_path_untagged p ks s.last (omega (arith, s.transit p)), omega (arith, s.transit p))
