-- ===== src/Stream/Fill.antt =====
-- `Stream::fillConversionQueue` of src/Stream.cpp, and the destructor of `ConversionWorkPacket` of
-- src/ConversionWorker.cpp. Packets live on a heap: the queue holds their addresses, and the
-- function writes through the raw pointers of `cwp_last` to packets that it has queued already.
-- Paths and packets are named by numbers, and `U` is the type of pointers to updates.
pub mod Batches
pub mod Push
pub mod Loop
pub mod Mark
pub mod Refines
pub mod Frame
use forward_epics_to_kafka.Base.{
  ℕ, zero, suc, ◌+◌, ◌-◌, ◌%◌, ◌^◌, Option, none, some, List, [], ◌∷◌, true, false, length, ltb,
  leb, ◌≡◌, ◌≢◌, arith, ◌==◌, if◌then◌else◌, set, replicate,
}
use forward_epics_to_kafka.Queue.{QueueApi}

abbrev pub word32 : ℕ
word32 = 2 ^ 32

-- `stream` is null until the packet is the last one of its path in a filling.
pub record ConversionWorkPacket (U : Type 0) : Type 0 where
  pub update : U
  pub path : ℕ
  pub stream : Option ℕ

-- `packet` holds the packets that are alive, `transit` the counter of each conversion path.
pub record Heap (U : Type 0) : Type 0 where
  pub next : ℕ
  pub packet : ℕ → Option (ConversionWorkPacket U)
  pub transit : ℕ → ℕ

abbrev pub update_at {ℓ} : {A : Type ℓ} → (ℕ → A) → ℕ → A → ℕ → A
update_at f k v j = if j == k then v else f j

pub update_at_self {ℓ} : {A : Type ℓ} (f : ℕ → A) (k : ℕ) (v : A) → update_at f k v k ≡ v
update_at_self f k v = ground arith

pub update_at_ne {ℓ} :
    {A : Type ℓ} (f : ℕ → A) (k : ℕ) (v : A) (j : ℕ) → j ≢ k → update_at f k v j ≡ f j
update_at_ne f k v j h = ground arith

-- `std::make_unique<ConversionWorkPacket>()` with its `Path` and `Update`.
abbrev pub make_packet : {U : Type 0} → Heap U → ℕ → U → Heap U
make_packet h p u = record h {
  next = suc h.next;
  packet = update_at h.packet h.next (some (record { update = u; path = p; stream = none }));
}

-- The body of the destructor, and the end of the packet's life.
abbrev pub without : {U : Type 0} → ConversionWorkPacket U → ℕ → Heap U → Heap U
without k id h = record h {
  packet = update_at h.packet id none;
  transit = elim k.stream [
    | none ↦ h.transit
    | some _ ↦ update_at h.transit k.path ((h.transit k.path + word32 - 1) % word32)
  ];
}

-- `none` is a second destruction.
unfoldable pub destroy_packet : {U : Type 0} → ℕ → Heap U → Option (Heap U)
destroy_packet id h = elim (h.packet id) [ none ↦ none | some k ↦ some (without k id h) ]

-- The variables of the function, with the two queues that it works on.
pub record FillState (UQ PQ U : Type 0) : Type 0 where
  pub output_queue : UQ
  pub queue : PQ
  pub heap : Heap U
  pub cwp_last : List (Option ℕ)
  pub num_queued : ℕ

module _ {UQ PQ U : Type 0} (packets : QueueApi PQ ℕ) where
  abbrev pub pushed : U → ℕ → ℕ → PQ → FillState UQ PQ U → FillState UQ PQ U
  pushed u p i q s = record s {
    queue = q;
    heap = make_packet s.heap p u;
    cwp_last = set s.cwp_last i (some s.heap.next);
    num_queued = (s.num_queued + 1) % word32;
  }

  -- A packet that was not queued dies at the end of its scope; `cwp_last` still points to it.
  abbrev pub not_pushed : U → ℕ → ℕ → FillState UQ PQ U → FillState UQ PQ U
  not_pushed u p i s = record s {
    heap = record s.heap {
      next = suc s.heap.next;
      packet = update_at s.heap.packet s.heap.next none;
    };
    cwp_last = set s.cwp_last i (some s.heap.next);
  }

  -- The loop over `ConversionPaths`, left by the `break` of a failed `enqueue`.
  unfoldable pub push_paths : U → List ℕ → ℕ → FillState UQ PQ U → FillState UQ PQ U
  push_paths u [] i s = s
  push_paths u (p ∷ ps) i s = elim (packets.enqueue s.queue s.heap.next) [
    | none ↦ not_pushed u p i s
    | some q ↦ push_paths u ps (suc i) (pushed u p i q s)
  ]

module _ {UQ PQ U : Type 0} (updates : QueueApi UQ (Option U)) (packets : QueueApi PQ ℕ) where
  -- The `while`; the first argument is `BufferSize - NumDequeued`.
  unfoldable pub fill_loop : ℕ → ℕ → List ℕ → FillState UQ PQ U → FillState UQ PQ U
  fill_loop zero max ps s = s
  fill_loop (suc n) max ps s = elim (leb (length ps) ((max + word32 - s.num_queued) % word32)) [
    | false ↦ s
    | true ↦ elim (updates.try_dequeue s.output_queue) [
      | none ↦ s
      | some (none, uq) ↦ fill_loop n max ps (record s { output_queue = uq })
      | some (some u, uq) ↦
          fill_loop n max ps (push_paths packets u ps 0 (record s { output_queue = uq }))
    ]
  ]

-- The last loop: `cwp_last[i1]->stream = this; ConversionPaths[i1]->transit++`. `none` is an access
-- through a null or dangling pointer.
unfoldable pub mark_last : {U : Type 0} → ℕ → List ℕ → List (Option ℕ) → Heap U → Option (Heap U)
mark_last this [] last h = some h
mark_last this (p ∷ ps) [] h = none
mark_last this (p ∷ ps) (none ∷ last) h = none
mark_last this (p ∷ ps) (some id ∷ last) h = elim (h.packet id) [
  | none ↦ none
  | some k ↦ mark_last this ps last (record h {
    packet = update_at h.packet id (some (record k { stream = some this }));
    transit = update_at h.transit p ((h.transit p + 1) % word32);
  })
]

-- What a filling leaves: the queues, the heap and the number of packets queued.
pub record Filled (UQ PQ U : Type 0) : Type 0 where
  pub output_queue : UQ
  pub queue : PQ
  pub heap : Heap U
  pub num_queued : ℕ

abbrev filled : {UQ PQ U : Type 0} → FillState UQ PQ U → Heap U → Filled UQ PQ U
filled s h = record {
  output_queue = s.output_queue;
  queue = s.queue;
  heap = h;
  num_queued = s.num_queued;
}

module _ {UQ PQ U : Type 0} where
  abbrev pub fill_start : List ℕ → UQ → PQ → Heap U → FillState UQ PQ U
  fill_start ps uq pq h = record {
    output_queue = uq;
    queue = pq;
    heap = h;
    cwp_last = replicate (length ps) none;
    num_queued = 0;
  }

  abbrev pub fill_end : ℕ → List ℕ → FillState UQ PQ U → Option (Filled UQ PQ U)
  fill_end this ps s =
      if ltb 0 s.num_queued
      then elim (mark_last this ps s.cwp_last s.heap) [ none ↦ none | some h ↦ some (filled s h) ]
      else some (filled s s.heap)

module _ {UQ PQ U : Type 0} (updates : QueueApi UQ (Option U)) (packets : QueueApi PQ ℕ) where
  -- `this` names the stream and `ps` its conversion paths.
  unfoldable pub fill_conversion_queue : ℕ → List ℕ → UQ → PQ → ℕ → Heap U → Option (Filled UQ PQ U)
  fill_conversion_queue this ps uq pq max h =
      fill_end this ps
        (fill_loop updates packets (updates.size_approx uq) max ps (fill_start ps uq pq h))
