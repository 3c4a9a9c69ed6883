-- ===== src/Stream/Fill/Push.antt =====
-- The loop over the conversion paths, while memory lasts.
use forward_epics_to_kafka.Base.{
  ℕ, suc, ◌+◌, ◌<◌, ◌≡◌, refl, sym, ap, ◌∙◌, Option, none, some, List, [], ◌∷◌, ◌++◌, map, length,
  set, append_assoc, append-nil, length-append, arith,
}
use forward_epics_to_kafka.Queue.{QueueApi, HasMemory}
use forward_epics_to_kafka.Stream.Fill.{
  FillState, update_at_self, update_at_ne, push_paths, pushed, word32,
}
use forward_epics_to_kafka.Stream.Fill.Batches.{addresses, batch, packet_of}

set_middle {ℓ} :
    {A : Type ℓ} (pre : List A) (x v : A) (old : List A)
    → set (pre ++ x ∷ old) (length pre) v ≡ pre ++ v ∷ old
set_middle [] x v old = refl
set_middle (y ∷ pre) x v old = ap (◌∷◌ y) (set_middle pre x v old)

module _ {UQ PQ U : Type 0} (packets : QueueApi PQ ℕ) where
  pub record Pushes (u : U) (ps : List ℕ) (s s' : FillState UQ PQ U) : Type 0 where
    pub output_queue : s'.output_queue ≡ s.output_queue
    pub queue : packets.contents s'.queue ≡ packets.contents s.queue ++ addresses s.heap.next ps
    pub next : s'.heap.next ≡ s.heap.next + length ps
    pub old : (id : ℕ) → id < s.heap.next → s'.heap.packet id ≡ s.heap.packet id
    pub fresh : map s'.heap.packet (addresses s.heap.next ps) ≡ map some (batch none ps u)
    pub transit : s'.heap.transit ≡ s.heap.transit
    pub num_queued : s'.num_queued ≡ s.num_queued + length ps

  Pushes-cons :
      (u : U) (p : ℕ) (ps : List ℕ) (i : ℕ) (q : PQ) (s s' : FillState UQ PQ U)
      → s.num_queued + length (p ∷ ps) < word32
      → packets.enqueue s.queue s.heap.next ≡ some q
      → Pushes u ps (pushed packets u p i q s) s'
      → Pushes u (p ∷ ps) s s'
  Pushes-cons u p ps i q s s' h e r = record {
    output_queue = r.output_queue;
    queue =
        r.queue
        ∙ ap (λ l. l ++ addresses (suc s.heap.next) ps) (packets.contents-enqueue _ _ q e)
        ∙ append_assoc (packets.contents s.queue) (s.heap.next ∷ [])
            (addresses (suc s.heap.next) ps);
    next = omega (arith, r.next);
    old =
        λ id lt. r.old id (omega arith) ∙ update_at_ne s.heap.packet s.heap.next _ id (omega arith);
    fresh = cc (
      r.old s.heap.next (omega arith),
      update_at_self s.heap.packet s.heap.next (some (packet_of none u p)),
      r.fresh,
    );
    transit = r.transit;
    num_queued = omega (arith, r.num_queued);
  }

  -- Every path gets a packet, at the next address, and a place in `cwp_last`.
  pub push_paths-Pushes :
      (mem : HasMemory packets) (u : U) (ps : List ℕ) (i : ℕ) (s : FillState UQ PQ U)
      → s.num_queued + length ps < word32
      → Pushes u ps s (push_paths packets u ps i s)
  unfolding push_paths
  push_paths-Pushes mem u [] i s h = record {
    output_queue = refl;
    queue = sym (append-nil _);
    next = omega arith;
    old = λ id _. refl;
    fresh = refl;
    transit = refl;
    num_queued = omega arith;
  }
  push_paths-Pushes mem u (p ∷ ps) i s h =
      let (q, e) = mem s.queue s.heap.next in
      rw (e, push_paths)
        (Pushes-cons u p ps i q s _ h e
          (push_paths-Pushes mem u ps (suc i) (pushed packets u p i q s) (omega arith)))

  pub push_paths-cwp_last :
      (mem : HasMemory packets) (u : U) (ps : List ℕ) (pre old : List (Option ℕ))
      (s : FillState UQ PQ U)
      → s.cwp_last ≡ pre ++ old
      → length old ≡ length ps
      → (push_paths packets u ps (length pre) s).cwp_last
        ≡ pre ++ map some (addresses s.heap.next ps)
  unfolding push_paths
  push_paths-cwp_last mem u [] pre [] s c h = c
  push_paths-cwp_last mem u [] pre (x ∷ old) s c h = absurd (omega arith)
  push_paths-cwp_last mem u (p ∷ ps) pre [] s c h = absurd (omega arith)
  push_paths-cwp_last mem u (p ∷ ps) pre (x ∷ old) s c h =
      let (q, e) = mem s.queue s.heap.next in
      let front = pre ++ some s.heap.next ∷ [] in
      let placed : set s.cwp_last (length pre) (some s.heap.next) ≡ front ++ old =
        ap (λ l. set l (length pre) (some s.heap.next)) c
        ∙ set_middle pre x (some s.heap.next) old
        ∙ sym (append_assoc pre (some s.heap.next ∷ []) old) in
      let counted : length front ≡ suc (length pre) =
        omega (arith, length-append pre (some s.heap.next ∷ [])) in
      let rest =
        push_paths-cwp_last mem u ps front old (pushed packets u p (length pre) q s) placed
          (omega arith) in
      rw (e, push_paths)
        (ap (λ i. (push_paths packets u ps i (pushed packets u p (length pre) q s)).cwp_last)
            (sym counted)
          ∙ rest
          ∙ append_assoc pre (some s.heap.next ∷ []) _)
