-- ===== src/Stream/Fill/Mark.antt =====
-- The loop that names the stream in the last packets and counts them in `transit`.
use forward_epics_to_kafka.Base.{
  cons_inj, ℕ, suc, ◌+◌, ◌%◌, ◌<◌, ◌≡◌, refl, ◌∙◌, none, some, List, [], ◌∷◌, map, arith, ◌==◌,
  if◌then◌else◌,
}
use forward_epics_to_kafka.Stream.Fill.{
  Heap, word32, update_at, update_at_self, update_at_ne, mark_last,
}
use forward_epics_to_kafka.Stream.Fill.Batches.{
  addresses, batch, packet_of, addresses_above, map_agree, All-implies,
}

-- One more for every path of the list.
abbrev pub counted_up : List ℕ → (ℕ → ℕ) → ℕ → ℕ
counted_up [] t = t
counted_up (p ∷ ps) t = counted_up ps (update_at t p ((t p + 1) % word32))

abbrev pub times : ℕ → List ℕ → ℕ
times p [] = 0
times p (q ∷ ps) = if p == q then suc (times p ps) else times p ps

pub counted_up_lem :
    (ps : List ℕ) (t : ℕ → ℕ) (p : ℕ)
    → t p < word32
    → counted_up ps t p ≡ (t p + times p ps) % word32
counted_up_lem [] t p h = omega arith
counted_up_lem (q ∷ ps) t p h =
    ground (arith, counted_up_lem ps (update_at t q ((t q + 1) % word32)) p)

module _ {U : Type 0} (this : ℕ) (u : U) where
  pub record Marks (m : ℕ) (ps : List ℕ) (h h' : Heap U) : Type 0 where
    pub next : h'.next ≡ h.next
    pub old : (id : ℕ) → id < m → h'.packet id ≡ h.packet id
    pub tagged : map h'.packet (addresses m ps) ≡ map some (batch (some this) ps u)
    pub transit : h'.transit ≡ counted_up ps h.transit

  abbrev marked : ℕ → ℕ → Heap U → Heap U
  marked m p h = record h {
    packet = update_at h.packet m (some (packet_of (some this) u p));
    transit = update_at h.transit p ((h.transit p + 1) % word32);
  }

  after_marked :
      (m p : ℕ) (ps : List ℕ) (h : Heap U)
      → map (marked m p h).packet (addresses (suc m) ps) ≡ map h.packet (addresses (suc m) ps)
  after_marked m p ps h = map_agree (marked m p h).packet h.packet (addresses (suc m) ps) (
      All-implies (addresses (suc m) ps) (λ a above. update_at_ne h.packet m _ a (omega arith))
        (addresses_above (suc m) (suc m) ps (omega arith)))

  -- The packets at `m`, `m + 1` and so on get the name, and no access goes wrong.
  pub mark_last-Marks :
      (m : ℕ) (ps : List ℕ) (h : Heap U)
      → map h.packet (addresses m ps) ≡ map some (batch none ps u)
      → (h' : Heap U) × (mark_last this ps (map some (addresses m ps)) h ≡ some h')
        × Marks m ps h h'
  unfolding mark_last
  mark_last-Marks m [] h e =
      (h, refl, record { next = refl; old = λ id _. refl; tagged = refl; transit = refl })
  mark_last-Marks m (p ∷ ps) h e =
      let (here, later) = cons_inj _ _ _ _ e in
      let (h', ends, k) =
        mark_last-Marks (suc m) ps (marked m p h) (after_marked m p ps h ∙ later) in
      (
        h',
        rw (here, mark_last) ends,
        record {
          next = k.next;
          old = λ id lt. k.old id (omega arith) ∙ update_at_ne h.packet m _ id (omega arith);
          tagged = cc (
            k.old m (omega arith),
            update_at_self h.packet m (some (packet_of (some this) u p)),
            k.tagged,
          );
          transit = k.transit;
        },
      )
