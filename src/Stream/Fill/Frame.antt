-- ===== src/Stream/Fill/Frame.antt =====
-- What a filling leaves alone: the packets that were there, whether or not memory lasts.
use forward_epics_to_kafka.Base.{
  ℕ, zero, suc, ◌+◌, ◌-◌, ◌%◌, ◌<◌, ◌≤◌, ◌≡◌, refl, sym, ap, subst, ◌∙◌, inl, inr, Option, none,
  some, List, [], ◌∷◌, ◌++◌, All, All-append, arith, ltb, leb, set, replicate, length, append-nil,
  append_assoc, Option-cases, Bool-cases,
}
use mathlib.Core.Option.{some-injective, none-ne-some}
use forward_epics_to_kafka.Queue.{QueueApi}
use forward_epics_to_kafka.Stream.Fill.{
  Heap, FillState, Filled, filled, fill_start, fill_end, fill_loop, push_paths, pushed, not_pushed,
  mark_last, fill_conversion_queue, update_at, update_at_ne, word32,
}

-- A place of `cwp_last` that is empty or points to an address from `m` on.
abbrev From : ℕ → Option ℕ → Type 0
From m none = Unit
From m (some id) = m ≤ id

All-set :
    {A : Type 0} (P : A → Type 0) (xs : List A) (i : ℕ) (v : A)
    → All P xs
    → P v
    → All P (set xs i v)
All-set P [] i v h k = tt
All-set P (x ∷ xs) zero v h k = (k, h.1)
All-set P (x ∷ xs) (suc i) v h k = (h.0, All-set P xs i v h.1 k)

All-replicate-none : (m n : ℕ) → All (From m) (replicate n none)
All-replicate-none m zero = tt
All-replicate-none m (suc n) = (tt, All-replicate-none m n)

-- The heap keeps what it had below the address `m`.
pub record Keeps {U : Type 0} (m : ℕ) (h h' : Heap U) : Type 0 where
  pub grown : h.next ≤ h'.next
  pub old : (id : ℕ) → id < m → h'.packet id ≡ h.packet id

-- And the queue gets new addresses alone.
pub record Adds {PQ : Type 0} (packets : QueueApi PQ ℕ) (m : ℕ) (q q' : PQ) : Type 0 where
  pub news : List ℕ
  pub contents : packets.contents q' ≡ packets.contents q ++ news
  pub above : All (λ a. m ≤ a) news

module _ {UQ PQ U : Type 0} (packets : QueueApi PQ ℕ) (q0 : PQ) (h0 : Heap U) where
  record Framed (s : FillState UQ PQ U) : Type 0 where
    keeps : Keeps h0.next h0 s.heap
    adds : Adds packets h0.next q0 s.queue
    last : All (From h0.next) s.cwp_last

  pushed-Framed :
      (u : U) (p i : ℕ) (q : PQ) (s : FillState UQ PQ U)
      → packets.enqueue s.queue s.heap.next ≡ some q
      → Framed s
      → Framed (pushed packets u p i q s)
  pushed-Framed u p i q s e f = record {
    keeps = record {
      grown = omega (arith, f.keeps.grown);
      old = λ id lt.
          update_at_ne s.heap.packet s.heap.next _ id (omega (arith, f.keeps.grown))
          ∙ f.keeps.old id lt;
    };
    adds = record {
      news = f.adds.news ++ s.heap.next ∷ [];
      contents =
          packets.contents-enqueue _ _ q e
          ∙ ap (λ l. l ++ s.heap.next ∷ []) f.adds.contents
          ∙ append_assoc (packets.contents q0) f.adds.news (s.heap.next ∷ []);
      above =
          All-append (λ a. h0.next ≤ a) f.adds.news (s.heap.next ∷ []) f.adds.above
            (f.keeps.grown, tt);
    };
    last = All-set (From h0.next) s.cwp_last i (some s.heap.next) f.last f.keeps.grown;
  }

  not_pushed-Framed :
      (u : U) (p i : ℕ) (s : FillState UQ PQ U) → Framed s → Framed (not_pushed packets u p i s)
  not_pushed-Framed u p i s f = record {
    keeps = record {
      grown = omega (arith, f.keeps.grown);
      old = λ id lt.
          update_at_ne s.heap.packet s.heap.next _ id (omega (arith, f.keeps.grown))
          ∙ f.keeps.old id lt;
    };
    adds = f.adds;
    last = All-set (From h0.next) s.cwp_last i (some s.heap.next) f.last f.keeps.grown;
  }

  push_paths-Framed :
      (u : U) (ps : List ℕ) (i : ℕ) (s : FillState UQ PQ U)
      → Framed s
      → Framed (push_paths packets u ps i s)
  unfolding push_paths
  push_paths-Framed u [] i s f = f
  push_paths-Framed u (p ∷ ps) i s f = elim (Option-cases (packets.enqueue s.queue s.heap.next)) [
    | inl e ↦ rw (e, push_paths) (not_pushed-Framed u p i s f)
    | inr (q, e) ↦
        rw (e, push_paths)
          (push_paths-Framed u ps (suc i) (pushed packets u p i q s) (pushed-Framed u p i q s e f))
  ]

  module _ (updates : QueueApi UQ (Option U)) where
    fill_loop-Framed :
        (n max : ℕ) (ps : List ℕ) (s : FillState UQ PQ U)
        → Framed s
        → Framed (fill_loop updates packets n max ps s)
    unfolding fill_loop
    fill_loop-Framed zero max ps s f = f
    fill_loop-Framed (suc n) max ps s f =
        elim (Bool-cases (leb (length ps) ((max + word32 - s.num_queued) % word32))) [
          | inr e ↦ rw (e, fill_loop) f
          | inl e ↦ elim (Option-cases (updates.try_dequeue s.output_queue)) [
            | inl d ↦ rw (e, fill_loop) (rw (d, fill_loop) f)
            | inr ((none, uq), d) ↦
                rw (e, fill_loop)
                  (rw (d, fill_loop)
                    (fill_loop-Framed n max ps (record s { output_queue = uq })
                      (record { keeps = f.keeps; adds = f.adds; last = f.last })))
            | inr ((some u, uq), d) ↦
                rw (e, fill_loop)
                  (rw (d, fill_loop)
                    (fill_loop-Framed n max ps
                      (push_paths packets u ps 0 (record s { output_queue = uq }))
                      (push_paths-Framed u ps 0 (record s { output_queue = uq })
                        (record { keeps = f.keeps; adds = f.adds; last = f.last }))))
          ]
        ]

mark_last-Keeps :
    {U : Type 0} (m this : ℕ) (ps : List ℕ) (last : List (Option ℕ)) (h h' : Heap U)
    → All (From m) last
    → mark_last this ps last h ≡ some h'
    → Keeps m h h'
unfolding mark_last
mark_last-Keeps m this [] last h h' above e =
    subst (Keeps m h) (some-injective h h' e) (record { grown = omega arith; old = λ id lt. refl })
mark_last-Keeps m this (p ∷ ps) [] h h' above e = absurd (none-ne-some h' e)
mark_last-Keeps m this (p ∷ ps) (none ∷ last) h h' above e = absurd (none-ne-some h' e)
mark_last-Keeps m this (p ∷ ps) (some id ∷ last) h h' above e = elim (Option-cases (h.packet id)) [
  | inl gone ↦ absurd (none-ne-some h' (rw (gone, mark_last) at e))
  | inr (k, there) ↦
      let rest =
        mark_last-Keeps m this ps last
          (record h {
            packet = update_at h.packet id (some (record k { stream = some this }));
            transit = update_at h.transit p ((h.transit p + 1) % word32);
          })
          h' above.1 (rw (there, mark_last) at e) in
      record {
        grown = rest.grown;
        old = λ i lt. rest.old i lt ∙ update_at_ne h.packet id _ i (omega (arith, above.0));
      }
]

module _ {UQ PQ U : Type 0} (updates : QueueApi UQ (Option U)) (packets : QueueApi PQ ℕ) where
  fill_end-Framed :
      (this : ℕ) (ps : List ℕ) (q0 : PQ) (h0 : Heap U) (s : FillState UQ PQ U) (r : Filled UQ PQ U)
      → Framed packets q0 h0 s
      → fill_end this ps s ≡ some r
      → Keeps h0.next h0 r.heap × Adds packets h0.next q0 r.queue
  fill_end-Framed this ps q0 h0 s r f e = elim (Bool-cases (ltb 0 s.num_queued)) [
    | inr idle ↦
        let same : filled s s.heap ≡ r = some-injective _ _ (rw idle at e) in
        subst (λ x. Keeps h0.next h0 x.heap × Adds packets h0.next q0 x.queue) same
          (f.keeps, f.adds)
    | inl busy ↦ elim (Option-cases (mark_last this ps s.cwp_last s.heap)) [
      | inl bad ↦ absurd (none-ne-some r (rw bad at (rw busy at e)))
      | inr (h', ends) ↦
          let same : filled s h' ≡ r = some-injective _ _ (rw ends at (rw busy at e)) in
          let k = mark_last-Keeps h0.next this ps s.cwp_last s.heap h' f.last ends in
          subst (λ x. Keeps h0.next h0 x.heap × Adds packets h0.next q0 x.queue) same
            (
              record {
                grown = omega (arith, k.grown, f.keeps.grown);
                old = λ id lt. k.old id lt ∙ f.keeps.old id lt;
              },
              f.adds,
            )
    ]
  ]

  -- A filling changes no packet that was there, and queues addresses that were not used before, behind
  -- those that wait.
  pub fill_conversion_queue-Keeps :
      (this : ℕ) (ps : List ℕ) (uq : UQ) (pq : PQ) (max : ℕ) (h : Heap U) (r : Filled UQ PQ U)
      → fill_conversion_queue updates packets this ps uq pq max h ≡ some r
      → Keeps h.next h r.heap × Adds packets h.next pq r.queue
  unfolding fill_conversion_queue
  fill_conversion_queue-Keeps this ps uq pq max h r e =
      fill_end-Framed this ps pq h _ r
        (fill_loop-Framed packets pq h updates (updates.size_approx uq) max ps
          (fill_start ps uq pq h)
          (record {
            keeps = record { grown = omega arith; old = λ id lt. refl };
            adds = record {
              news = [];
              contents = sym (append-nil (packets.contents pq));
              above = tt;
            };
            last = All-replicate-none h.next (length ps);
          }))
        e
