-- ===== src/Stream/Fill/Refines.antt =====
-- The whole filling against its description by lists.
use forward_epics_to_kafka.Base.{
  ℕ, ◌*◌, ◌<◌, ◌≤◌, ◌≡◌, refl, sym, ap, subst, ◌∙◌, inl, inr, Option, none, some, List, [], ◌∷◌,
  ◌++◌, map, length, length-append, length-replicate, append-nil, append_assoc, All, Ascending,
  arith, ltb, true, false,
}
use mathlib.Core.List.{map-append}
use forward_epics_to_kafka.Queue.{QueueApi, HasMemory}
use forward_epics_to_kafka.Stream.Fill.{
  ConversionWorkPacket, Heap, FillState, Filled, filled, fill_start, fill_end, fill_loop,
  fill_conversion_queue, word32,
}
use forward_epics_to_kafka.Stream.Fill.Batches.{
  batch, batches, plain_batches, batches_last, batches_no_path, plain_batches_no_path, accepted,
  left_over, length-accepted-le, map_agree, All-implies,
}
use forward_epics_to_kafka.Stream.Fill.Loop.{Holds, Tail, Runs, fill_loop-Runs}
use forward_epics_to_kafka.Stream.Fill.Mark.{Marks, mark_last-Marks, counted_up}

-- The counters after a filling that queued the updates `us`.
abbrev pub transit_after : {U : Type 0} → List ℕ → List U → (ℕ → ℕ) → ℕ → ℕ
transit_after ps [] t = t
transit_after ps (u ∷ us) t = counted_up ps t

transit_after_last :
    {U : Type 0} (ps : List ℕ) (us : List U) (u : U) (t : ℕ → ℕ)
    → transit_after ps (us ++ u ∷ []) t ≡ counted_up ps t
transit_after_last ps [] u t = refl
transit_after_last ps (v ∷ us) u t = refl

transit_after_no_path : {U : Type 0} (us : List U) (t : ℕ → ℕ) → transit_after [] us t ≡ t
transit_after_no_path [] t = refl
transit_after_no_path (u ∷ us) t = refl

-- The packets that wait in a queue, oldest first.
abbrev pub waiting :
    {PQ U : Type 0} → QueueApi PQ ℕ → Heap U → PQ → List (Option (ConversionWorkPacket U))
waiting packets h q = map h.packet (packets.contents q)

module _ {UQ PQ U : Type 0} (packets : QueueApi PQ ℕ) where
  -- A filling that queued the updates `us`, where `v` waited and the counters were `t`.
  pub record Fills (this : ℕ) (ps : List ℕ) (us : List U)
      (v : List (Option (ConversionWorkPacket U))) (t : ℕ → ℕ) (r : Filled UQ PQ U) : Type 0 where
    pub queued : waiting packets r.heap r.queue ≡ v ++ map some (batches this ps us)
    pub fresh : All (λ a. a < r.heap.next) (packets.contents r.queue)
    pub ascending : Ascending (packets.contents r.queue)
    pub transit : r.heap.transit ≡ transit_after ps us t
    pub num_queued : r.num_queued ≡ length us * length ps

  marked_view :
      (this : ℕ) (ps : List ℕ) (v : List (Option (ConversionWorkPacket U))) (us : List U) (u : U)
      (s : FillState UQ PQ U) (h' : Heap U) (c : Tail packets ps v us u s)
      → Marks this u c.base ps s.heap h'
      → waiting packets h' s.queue ≡ v ++ map some (batches this ps (us ++ u ∷ []))
  marked_view this ps v us u s h' c k =
      let kept =
        map_agree h'.packet s.heap.packet c.front (All-implies c.front k.old c.front_below) in
      rw (c.queue, map-append)
        (cc (
          kept,
          c.front_view,
          k.tagged,
          batches_last this ps us u,
          map-append {B = Option (ConversionWorkPacket U)} some (plain_batches ps us)
              (batch (some this) ps u),
          append_assoc v (map some (plain_batches ps us)) (map some (batch (some this) ps u)),
        ))

  module _ (this : ℕ) (v : List (Option (ConversionWorkPacket U))) (t : ℕ → ℕ) where
    abbrev Ends : List ℕ → List U → FillState UQ PQ U → Type 0
    Ends ps us s =
        (r : Filled UQ PQ U) × (fill_end this ps s ≡ some r)
        × (r.output_queue ≡ s.output_queue)
        × Fills this ps us v t r

    end_unmarked :
        (ps : List ℕ) (us : List U) (s : FillState UQ PQ U)
        → Holds packets ps v t us s
        → s.num_queued ≡ 0
        → plain_batches ps us ≡ batches this ps us
        → t ≡ transit_after ps us t
        → Ends ps us s
    end_unmarked ps us s h z b d =
        let idle : ltb 0 s.num_queued ≡ false = ground arith in
        (
          filled s s.heap,
          rw idle,
          refl,
          record {
            queued = h.view ∙ ap (λ l. v ++ map some l) b;
            fresh = h.below;
            ascending = h.ascending;
            transit = h.transit ∙ d;
            num_queued = h.num_queued;
          },
        )

    end_marked :
        (ps : List ℕ) (us us' : List U) (u : U) (s : FillState UQ PQ U)
        → Holds packets ps v t us s
        → 0 < s.num_queued
        → us ≡ us' ++ u ∷ []
        → Tail packets ps v us' u s
        → Ends ps us s
    end_marked ps us us' u s h z e c =
        let (h', ends, k) = mark_last-Marks this u c.base ps s.heap c.last_view in
        let busy : ltb 0 s.num_queued ≡ true = ground arith in
        (
          filled s h',
          rw busy (rw c.last (rw ends)),
          refl,
          record {
            queued = rw e (marked_view this ps v us' u s h' c k);
            fresh = rw k.next h.below;
            ascending = h.ascending;
            transit =
                k.transit
                ∙ ap (counted_up ps) h.transit
                ∙ sym (ap (λ l. transit_after ps l t) e ∙ transit_after_last ps us' u t);
            num_queued = h.num_queued;
          },
        )

    fill_end-Ends :
        (ps : List ℕ) (us : List U) (s : FillState UQ PQ U)
        → Holds packets ps v t us s
        → Ends ps us s
    fill_end-Ends [] us s h =
        end_unmarked [] us s h (omega (arith, h.num_queued))
          (plain_batches_no_path us ∙ sym (batches_no_path this us))
          (sym (transit_after_no_path us t))
    fill_end-Ends (p ∷ ps) us s h = elim h.tail [
      | inl e ↦
          end_unmarked (p ∷ ps) us s h
            (omega (arith, h.num_queued, ap (λ l. length l * length (p ∷ ps)) e)) (rw e) (rw e)
      | inr (us', u, e, c) ↦
          end_marked (p ∷ ps) us us' u s h
            (omega (
              arith,
              h.num_queued,
              ap (λ l. length l * length (p ∷ ps)) e,
              ap (λ n. n * length (p ∷ ps)) (length-append us' (u ∷ [])),
            ))
            e c
    ]

module _ {UQ PQ U : Type 0} (updates : QueueApi UQ (Option U)) (packets : QueueApi PQ ℕ) where
  fill_loop-Holds :
      (mem : HasMemory packets) (ps : List ℕ) (uq : UQ) (pq : PQ) (max : ℕ) (h : Heap U)
      (small : max < word32)
      → All (λ a. a < h.next) (packets.contents pq)
      → Ascending (packets.contents pq)
      → Runs packets ps mem
          (waiting packets h pq)
          h.transit
          updates
          max
          small
          []
          max
          (updates.contents uq)
          (fill_loop updates packets (length (updates.contents uq)) max ps (fill_start ps uq pq h))
  fill_loop-Holds mem ps uq pq max h small fresh rising =
      subst
        (λ n.
          Runs packets ps mem (waiting packets h pq) h.transit updates max small [] n
            (updates.contents uq)
            (fill_loop updates packets (length (updates.contents uq)) max ps
              (fill_start ps uq pq h)))
        (omega arith)
        (fill_loop-Runs packets ps mem (waiting packets h pq) h.transit updates max small
          (updates.contents uq) [] (fill_start ps uq pq h) refl (omega arith) start)
    where
      start : Holds packets ps (waiting packets h pq) h.transit [] (fill_start ps uq pq h)
      start = record {
        view = sym (append-nil _);
        below = fresh;
        ascending = rising;
        transit = refl;
        num_queued = omega arith;
        places = length-replicate (length ps) none;
        tail = inl refl;
      }

  -- While memory lasts, a filling makes no bad access. It queues, behind the packets that wait, one
  -- packet for each path and each update that `accepted` takes from the buffer, in that order; those
  -- of the last update name the stream, and each such packet is counted in the `transit` of its path.
  -- It takes from the buffer all but `left_over`, and the number it returns is at most `max`.
  pub fill_conversion_queue-Fills :
      (mem : HasMemory packets) (this : ℕ) (ps : List ℕ) (uq : UQ) (pq : PQ) (max : ℕ) (h : Heap U)
      → max < word32
      → All (λ a. a < h.next) (packets.contents pq)
      → Ascending (packets.contents pq)
      → (r : Filled UQ PQ U) × (fill_conversion_queue updates packets this ps uq pq max h ≡ some r)
        × Fills packets this ps
            (accepted (length ps) max (updates.contents uq))
            (waiting packets h pq)
            h.transit
            r
        × (updates.contents r.output_queue ≡ left_over (length ps) max (updates.contents uq))
        × (r.num_queued ≤ max)
  unfolding fill_conversion_queue
  fill_conversion_queue-Fills mem this ps uq pq max h small fresh rising =
      let us = accepted (length ps) max (updates.contents uq) in
      let run = fill_loop-Holds mem ps uq pq max h small fresh rising in
      let (r, ends, same, f) =
        fill_end-Ends packets this (waiting packets h pq) h.transit ps us _ run.holds in
      (
        r,
        subst
            (λ n.
              fill_end this ps (fill_loop updates packets n max ps (fill_start ps uq pq h))
              ≡ some r)
            (sym (updates.size_approx_lem uq)) ends,
        f,
        ap updates.contents same ∙ run.pending,
        omega (arith, f.num_queued, length-accepted-le (length ps) max (updates.contents uq)),
      )
