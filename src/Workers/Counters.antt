-- ===== src/Workers/Counters.antt =====
-- However the workers take turns, they meet no dead packet, and the counters count what waits.
use forward_epics_to_kafka.Base.{
  ℕ, zero, suc, ◌+◌, ◌%◌, ◌<◌, ◌≤◌, ◌≡◌, ◌≢◌, refl, sym, ap, ◌∙◌, subst, some, List, [], ◌∷◌, map,
  All, Ascending, arith, inl, inr, Bool-cases, ◌==◌, if◌then◌else◌,
}
use forward_epics_to_kafka.Queue.{QueueApi}
use forward_epics_to_kafka.Stream.Fill.{
  ConversionWorkPacket, Heap, update_at, update_at_self, word32,
}
use forward_epics_to_kafka.Stream.Fill.Batches.{map_agree, All-implies}
use forward_epics_to_kafka.Stream.Fill.Refines.{waiting}
use forward_epics_to_kafka.ConversionWorker.Transit.{tagged, of_path, LastTagged, of_path_untagged}
use forward_epics_to_kafka.ConversionWorker.Drain.{Sound}

abbrev pub total : ℕ → (ℕ → ℕ) → ℕ
total zero g = 0
total (suc n) g = total n g + g n

-- All but the i-th.
abbrev pub except : ℕ → (ℕ → ℕ) → ℕ → ℕ
except i g j = if j == i then 0 else g j

total_agree : (n : ℕ) (g h : ℕ → ℕ) → ((j : ℕ) → g j ≡ h j) → total n g ≡ total n h
total_agree zero g h e = refl
total_agree (suc n) g h e = omega (arith, total_agree n g h e, e n)

total-except_of_le : (n i : ℕ) (g : ℕ → ℕ) → n ≤ i → total n (except i g) ≡ total n g
total-except_of_le zero i g le = refl
total-except_of_le (suc n) i g le = ground (arith, total-except_of_le n i g)

total-except : (n i : ℕ) (g : ℕ → ℕ) → i < n → total n g ≡ g i + total n (except i g)
total-except zero i g lt = absurd (omega arith)
total-except (suc n) i g lt = elim (Bool-cases (n == i)) [
  | inl e ↦
      let same : n ≡ i = ground (arith, e) in
      ground (arith, total-except_of_le n i g (omega arith), ap g same)
  | inr e ↦ ground (arith, total-except n i g (ground (arith, e)))
]

pub term-le-total : (n i : ℕ) (g : ℕ → ℕ) → i < n → g i ≤ total n g
term-le-total n i g lt = omega (arith, total-except n i g lt)

-- The sum after one of the terms changed.
pub total-update_at :
    {A : Type 0} (w : A → ℕ) (n i : ℕ) (f : ℕ → A) (a : A)
    → i < n
    → total n (λ j. w (update_at f i a j)) + w (f i) ≡ total n (λ j. w (f j)) + w a
total-update_at w n i f a lt =
    let new = λ (j : ℕ). w (update_at f i a j) in
    let old = λ (j : ℕ). w (f j) in
    let here : new i ≡ w a = ap w (update_at_self f i a) in
    let same : total n (except i new) ≡ total n (except i old) =
      total_agree n (except i new) (except i old)
        (λ j. elim (Bool-cases (j == i)) [ inl e ↦ rw e refl | inr e ↦ rw e refl ]) in
    omega (arith, total-except n i new lt, total-except n i old lt, here, same)

pub All-both :
    (P Q R : ℕ → Type 0) (as' : List ℕ)
    → ((a : ℕ) → P a → Q a → R a)
    → All P as'
    → All Q as'
    → All R as'
All-both P Q R [] f p q = tt
All-both P Q R (a ∷ as') f p q = (f a p.0 q.0, All-both P Q R as' f p.1 q.1)

module _ {PQ U : Type 0} (packets : QueueApi PQ ℕ) where
  -- The queue of a worker: its packets are alive, at addresses that it owns.
  pub record One (owner : ℕ → ℕ) (h : Heap U) (i : ℕ) (ks : List (ConversionWorkPacket U)) (q : PQ)
      : Type 0 where
    pub alive : waiting packets h q ≡ map some ks
    pub fresh : All (λ a. a < h.next) (packets.contents q)
    pub ascending : Ascending (packets.contents q)
    pub last : LastTagged ks
    pub belong : All (λ a. owner a ≡ i) (packets.contents q)

  abbrev pub tags : (ℕ → List (ConversionWorkPacket U)) → ℕ → ℕ → ℕ
  tags ks p i = tagged p (ks i)

  abbrev pub rest : ℕ → ℕ → (ℕ → List (ConversionWorkPacket U)) → ℕ → ℕ
  rest n i ks p = total n (except i (tags ks p))

  -- `n` workers: a counter counts the packets of its path that name their stream, in all queues.
  pub record AllSound (n : ℕ) (owner : ℕ → ℕ) (ks : ℕ → List (ConversionWorkPacket U)) (h : Heap U)
      (queues : ℕ → PQ) : Type 0 where
    pub each : (i : ℕ) → One owner h i (ks i) (queues i)
    pub transit : (p : ℕ) → h.transit p ≡ total n (λ i. tagged p (ks i)) % word32

  pub One-Sound :
      (n i : ℕ) (owner : ℕ → ℕ) (ks : ℕ → List (ConversionWorkPacket U)) (h : Heap U)
      (queues : ℕ → PQ)
      → i < n
      → AllSound n owner ks h queues
      → Sound packets (rest n i ks) (ks i) (queues i) h
  One-Sound n i owner ks h queues lt s =
      let o = s.each i in
      record {
        alive = o.alive;
        fresh = o.fresh;
        ascending = o.ascending;
        last = o.last;
        transit = λ p. s.transit p ∙ ap (λ t. t % word32) (total-except n i (tags ks p) lt);
      }

  -- A step of the i-th worker, which leaves alone what others own.
  pub record Step (i : ℕ) (owner owner' : ℕ → ℕ) (h h' : Heap U) (q' : PQ) : Type 0 where
    pub grown : h.next ≤ h'.next
    pub owners : (a : ℕ) → a < h.next → owner' a ≡ owner a
    pub others : (a : ℕ) → a < h.next → owner a ≢ i → h'.packet a ≡ h.packet a
    pub mine : All (λ a. owner' a ≡ i) (packets.contents q')

  other_One :
      (i j : ℕ) (owner owner' : ℕ → ℕ) (h h' : Heap U) (q q' : PQ)
      (k : List (ConversionWorkPacket U))
      → Step i owner owner' h h' q'
      → j ≢ i
      → One owner h j k q
      → One owner' h' j k q
  other_One i j owner owner' h h' q q' k st ne o = record {
    alive =
        map_agree h'.packet h.packet (packets.contents q) (
          All-both (λ a. a < h.next) (λ a. owner a ≡ j) (λ a. h'.packet a ≡ h.packet a)
            (packets.contents q) (λ a lt e. st.others a lt (λ e'. ne (sym e ∙ e'))) o.fresh
            o.belong)
        ∙ o.alive;
    fresh = All-implies (packets.contents q) (λ a lt. omega (arith, st.grown)) o.fresh;
    ascending = o.ascending;
    last = o.last;
    belong =
        All-both (λ a. a < h.next) (λ a. owner a ≡ j) (λ a. owner' a ≡ j) (packets.contents q)
          (λ a lt e. st.owners a lt ∙ e) o.fresh o.belong;
  }

  total-updated :
      (n i : ℕ) (ks : ℕ → List (ConversionWorkPacket U)) (ls : List (ConversionWorkPacket U))
      (p : ℕ)
      → i < n
      → total n (λ j. tagged p (update_at ks i ls j)) ≡ tagged p ls + rest n i ks p
  total-updated n i ks ls p lt =
      omega (arith, total-update_at (tagged p) n i ks ls lt, total-except n i (tags ks p) lt)

  -- The parts put together again.
  pub Step-AllSound :
      (n i : ℕ) (owner owner' : ℕ → ℕ) (ks : ℕ → List (ConversionWorkPacket U)) (h h' : Heap U)
      (queues : ℕ → PQ) (q' : PQ) (ls : List (ConversionWorkPacket U))
      → i < n
      → AllSound n owner ks h queues
      → Step i owner owner' h h' q'
      → Sound packets (rest n i ks) ls q' h'
      → AllSound n owner' (update_at ks i ls) h' (update_at queues i q')
  Step-AllSound n i owner owner' ks h h' queues q' ls lt s st f = record {
    each = λ j. elim (Bool-cases (j == i)) [
      | inl e ↦
          let same : i ≡ j = ground (arith, e) in
          rw e (record {
            alive = f.alive;
            fresh = f.fresh;
            ascending = f.ascending;
            last = f.last;
            belong = subst (λ k. All (λ a. owner' a ≡ k) (packets.contents q')) same st.mine;
          })
      | inr e ↦
          rw e
            (other_One i j owner owner' h h' (queues j) q' (ks j) st (ground (arith, e)) (s.each j))
    ];
    transit = λ p. f.transit p ∙ ap (λ t. t % word32) (sym (total-updated n i ks ls p lt));
  }

  -- Where the counter of a path is zero, and the packets that name their stream are less than 2^32, no
  -- worker has a packet of the path.
  pub none_of_path :
      (n : ℕ) (owner : ℕ → ℕ) (ks : ℕ → List (ConversionWorkPacket U)) (h : Heap U)
      (queues : ℕ → PQ) (p i : ℕ)
      → AllSound n owner ks h queues
      → total n (λ j. tagged p (ks j)) < word32
      → h.transit p ≡ 0
      → i < n
      → of_path p (ks i) ≡ 0
  none_of_path n owner ks h queues p i s small z lt =
      let none_tagged : tagged p (ks i) ≡ 0 =
        omega (arith, s.transit p, term-le-total n i (tags ks p) lt) in
      of_path_untagged p (ks i) (s.each i).last none_tagged
