-- ===== src/Stream/Fill/Loop.antt =====
-- The `while` of the filling, by its invariant.
use forward_epics_to_kafka.Base.{
  ℕ, suc, ◌+◌, ◌-◌, ◌*◌, ◌%◌, ◌<◌, ◌≤◌, ◌≡◌, refl, sym, ap, subst, ◌∙◌, ◌⊎◌, inl, inr, Option, none,
  some, List, [], ◌∷◌, ◌++◌, map, length, length-append, append_assoc, append-nil, All, All-append,
  Ascending, Ascending-append, arith, leb, leb→le, Bool-cases, true,
}
use mathlib.Core.List.{map-append}
use forward_epics_to_kafka.Queue.{QueueApi, HasMemory, try_dequeue_cons}
use forward_epics_to_kafka.Stream.Fill.{
  ConversionWorkPacket, FillState, push_paths, fill_loop, word32,
}
use forward_epics_to_kafka.Stream.Fill.Batches.{
  addresses, batch, plain_batches, plain_batches-append, accepted, left_over, addresses_below,
  addresses_above, addresses-Ascending, map_agree, All-implies,
}
use forward_epics_to_kafka.Stream.Fill.Push.{Pushes, push_paths-Pushes, push_paths-cwp_last}

room_lem : (max n : ℕ) → n ≤ max → max < word32 → (max + word32 - n) % word32 ≡ max - n
room_lem max n h k = omega arith

length-some-addresses :
    {A : Type 0} (n : ℕ) (xs : List A)
    → length (map {B = Option ℕ} some (addresses n xs)) ≡ length xs
length-some-addresses n [] = refl
length-some-addresses n (x ∷ xs) = ap suc (length-some-addresses (suc n) xs)

module _ {UQ PQ U : Type 0} (packets : QueueApi PQ ℕ) (ps : List ℕ) where
  -- The last packets lie at the end of the queue, and `cwp_last` points to them.
  pub record Tail (v : List (Option (ConversionWorkPacket U))) (us : List U) (u : U)
      (s : FillState UQ PQ U) : Type 0 where
    pub base : ℕ
    pub front : List ℕ
    pub queue : packets.contents s.queue ≡ front ++ addresses base ps
    pub front_below : All (λ a. a < base) front
    pub front_view : map s.heap.packet front ≡ v ++ map some (plain_batches ps us)
    pub last_view : map s.heap.packet (addresses base ps) ≡ map some (batch none ps u)
    pub last : s.cwp_last ≡ map some (addresses base ps)

  -- `v` is what the queue held before, and `us` the updates queued since.
  pub record Holds (v : List (Option (ConversionWorkPacket U))) (t : ℕ → ℕ) (us : List U)
      (s : FillState UQ PQ U) : Type 0 where
    pub view : map s.heap.packet (packets.contents s.queue) ≡ v ++ map some (plain_batches ps us)
    pub below : All (λ a. a < s.heap.next) (packets.contents s.queue)
    pub ascending : Ascending (packets.contents s.queue)
    pub transit : s.heap.transit ≡ t
    pub num_queued : s.num_queued ≡ length us * length ps
    pub places : length s.cwp_last ≡ length ps
    pub tail : (us ≡ []) ⊎ ((us' : List U) × (u : U) × (us ≡ us' ++ u ∷ []) × Tail v us' u s)

  old_view :
      (u : U) (s s' : FillState UQ PQ U)
      → Pushes packets u ps s s'
      → All (λ a. a < s.heap.next) (packets.contents s.queue)
      → map s'.heap.packet (packets.contents s.queue) ≡ map s.heap.packet (packets.contents s.queue)
  old_view u s s' k b =
      map_agree s'.heap.packet s.heap.packet (packets.contents s.queue)
        (All-implies (packets.contents s.queue) k.old b)

  module _ (mem : HasMemory packets) (v : List (Option (ConversionWorkPacket U))) (t : ℕ → ℕ) where
    push_paths-Tail :
        (us : List U) (u : U) (s : FillState UQ PQ U)
        → Holds v t us s
        → s.num_queued + length ps < word32
        → Tail v us u (push_paths packets u ps 0 s)
    push_paths-Tail us u s h room =
        let k = push_paths-Pushes packets mem u ps 0 s room in
        record {
          base = s.heap.next;
          front = packets.contents s.queue;
          queue = k.queue;
          front_below = h.below;
          front_view = old_view u s (push_paths packets u ps 0 s) k h.below ∙ h.view;
          last_view = k.fresh;
          last = push_paths-cwp_last packets mem u ps [] s.cwp_last s refl h.places;
        }

    push_paths-Holds :
        (us : List U) (u : U) (s : FillState UQ PQ U)
        → Holds v t us s
        → s.num_queued + length ps < word32
        → Holds v t (us ++ u ∷ []) (push_paths packets u ps 0 s)
    push_paths-Holds us u s h room =
        let k = push_paths-Pushes packets mem u ps 0 s room in
        let c = push_paths-Tail us u s h room in
        record {
          view =
              rw (c.queue, map-append)
                (cc (
                  c.front_view,
                  c.last_view,
                  plain_batches-append ps us u,
                  map-append {B = Option (ConversionWorkPacket U)} some (plain_batches ps us)
                      (batch none ps u),
                  append_assoc v (map some (plain_batches ps us)) (map some (batch none ps u)),
                ));
          below = subst (All (λ a. a < (push_paths packets u ps 0 s).heap.next)) (sym k.queue) (
              All-append _ (packets.contents s.queue) (addresses s.heap.next ps)
                (All-implies (packets.contents s.queue) (λ a lt. omega (arith, k.next)) h.below)
                (addresses_below s.heap.next _ ps (omega (arith, k.next))));
          ascending = rw k.queue (
              Ascending-append s.heap.next (packets.contents s.queue) (addresses s.heap.next ps)
                h.below h.ascending (addresses_above s.heap.next s.heap.next ps (omega arith))
                (addresses-Ascending s.heap.next ps));
          transit = k.transit ∙ h.transit;
          num_queued = omega (
            arith,
            k.num_queued,
            h.num_queued,
            ap (λ n. n * length ps) (length-append us (u ∷ [])),
          );
          places = ap length c.last ∙ length-some-addresses c.base ps;
          tail = inr (us, u, refl, c);
        }

    Tail-output_queue :
        (us : List U) (u : U) (s : FillState UQ PQ U) (uq : UQ)
        → Tail v us u s
        → Tail v us u (record s { output_queue = uq })
    Tail-output_queue us u s uq h = record {
      base = h.base;
      front = h.front;
      queue = h.queue;
      front_below = h.front_below;
      front_view = h.front_view;
      last_view = h.last_view;
      last = h.last;
    }

    Holds-output_queue :
        (us : List U) (s : FillState UQ PQ U) (uq : UQ)
        → Holds v t us s
        → Holds v t us (record s { output_queue = uq })
    Holds-output_queue us s uq h = record {
      view = h.view;
      below = h.below;
      ascending = h.ascending;
      transit = h.transit;
      num_queued = h.num_queued;
      places = h.places;
      tail = elim h.tail [
        | inl e ↦ inl e
        | inr (us', u, e, c) ↦ inr (us', u, e, Tail-output_queue us' u s uq c)
      ];
    }

    module _ (updates : QueueApi UQ (Option U)) (max : ℕ) (small : max < word32) where
      -- The loop queues what `accepted` says, and leaves in the buffer what `left_over` says.
      pub record Runs (us : List U) (room : ℕ) (pend : List (Option U)) (s' : FillState UQ PQ U)
          : Type 0 where
        pub holds : Holds v t (us ++ accepted (length ps) room pend) s'
        pub pending : updates.contents s'.output_queue ≡ left_over (length ps) room pend

      Runs-stop :
          (us : List U) (room : ℕ) (pend : List (Option U)) (s : FillState UQ PQ U)
          → updates.contents s.output_queue ≡ pend
          → accepted (length ps) room pend ≡ []
          → left_over (length ps) room pend ≡ pend
          → Holds v t us s
          → Runs us room pend s
      Runs-stop us room pend s c a l h = record {
        holds = rw a (rw (append-nil us) h);
        pending = c ∙ sym l;
      }

      Runs-skip :
          (us : List U) (room : ℕ) (pend : List (Option U)) (s' : FillState UQ PQ U)
          → leb (length ps) room ≡ true
          → Runs us room pend s'
          → Runs us room (none ∷ pend) s'
      Runs-skip us room pend s' fits r = record {
        holds = rw fits r.holds;
        pending = rw fits r.pending;
      }

      Runs-take :
          (us : List U) (room : ℕ) (u : U) (pend : List (Option U)) (s' : FillState UQ PQ U)
          → leb (length ps) room ≡ true
          → Runs (us ++ u ∷ []) (room - length ps) pend s'
          → Runs us room (some u ∷ pend) s'
      Runs-take us room u pend s' fits r = record {
        holds = rw fits (
            subst (λ l. Holds v t l s')
              (append_assoc us (u ∷ []) (accepted (length ps) (room - length ps) pend)) r.holds);
        pending = rw fits r.pending;
      }

      pub fill_loop-Runs :
          (pend : List (Option U)) (us : List U) (s : FillState UQ PQ U)
          → updates.contents s.output_queue ≡ pend
          → s.num_queued ≤ max
          → Holds v t us s
          → Runs us (max - s.num_queued) pend (fill_loop updates packets (length pend) max ps s)
      unfolding fill_loop
      fill_loop-Runs [] us s c le h = Runs-stop us _ [] s c refl refl h
      fill_loop-Runs (none ∷ pend) us s c le h =
          elim (Bool-cases (leb (length ps) (max - s.num_queued))) [
            | inl fits ↦
                let (uq, e, c') = try_dequeue_cons updates s.output_queue none pend c in
                let r =
                  fill_loop-Runs pend us (record s { output_queue = uq }) c' le
                    (Holds-output_queue us s uq h) in
                rw (room_lem max s.num_queued le small, fill_loop)
                  (rw (fits, fill_loop)
                    (rw (e, fill_loop) (Runs-skip us (max - s.num_queued) pend _ fits r)))
            | inr full ↦
                rw (room_lem max s.num_queued le small, fill_loop)
                  (rw (full, fill_loop)
                    (Runs-stop us (max - s.num_queued) (none ∷ pend) s c (rw full) (rw full) h))
          ]
      fill_loop-Runs (some u ∷ pend) us s c le h =
          elim (Bool-cases (leb (length ps) (max - s.num_queued))) [
            | inl fits ↦
                let (uq, e, c') = try_dequeue_cons updates s.output_queue (some u) pend c in
                let fit = leb→le (length ps) (max - s.num_queued) fits in
                let s1 = record s { output_queue = uq } in
                let k = push_paths-Pushes packets mem u ps 0 s1 (omega (arith, fit)) in
                let s2 = push_paths packets u ps 0 s1 in
                let h2 =
                  push_paths-Holds us u s1 (Holds-output_queue us s uq h) (omega (arith, fit)) in
                let r =
                  fill_loop-Runs pend (us ++ u ∷ []) s2 (ap updates.contents k.output_queue ∙ c')
                    (omega (arith, k.num_queued, fit)) h2 in
                rw (room_lem max s.num_queued le small, fill_loop)
                  (rw (fits, fill_loop)
                    (rw (e, fill_loop)
                      (Runs-take us (max - s.num_queued) u pend _ fits (
                        subst
                          (λ n.
                            Runs (us ++ u ∷ []) n pend
                              (fill_loop updates packets (length pend) max ps s2))
                          (omega (arith, k.num_queued, fit)) r))))
            | inr full ↦
                rw (room_lem max s.num_queued le small, fill_loop)
                  (rw (full, fill_loop)
                    (Runs-stop us (max - s.num_queued) (some u ∷ pend) s c (rw full) (rw full) h))
          ]
