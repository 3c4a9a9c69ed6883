-- ===== src/Workers/Clears.antt =====
-- What a counter that is zero says of the queues of all workers.
use forward_epics_to_kafka.Base.{
  ℕ, zero, suc, ◌<◌, ◌≤◌, ◌≡◌, ◌≢◌, refl, ap, subst, Option, some, List, [], ◌∷◌, map, length, All,
  arith,
}
use forward_epics_to_kafka.Queue.{QueueApi, HasMemory}
use forward_epics_to_kafka.Stream.Fill.{ConversionWorkPacket, Heap, word32}
use forward_epics_to_kafka.ConversionWorker.{done}
use forward_epics_to_kafka.ConversionWorker.Transit.{tagged, of_path}
use forward_epics_to_kafka.Workers.{System, Action, acts}
use forward_epics_to_kafka.Workers.Counters.{AllSound, total, none_of_path}
use forward_epics_to_kafka.Workers.Runs.{Acts, moved, act-AllSound}

pub total-le : (n : ℕ) (f g : ℕ → ℕ) → ((i : ℕ) → f i ≤ g i) → total n f ≤ total n g
total-le zero f g h = omega arith
total-le (suc n) f g h = omega (arith, total-le n f g h, h n)

pub total_zero : (m : ℕ) → total m (λ i. 0) ≡ 0
total_zero zero = refl
total_zero (suc m) = omega (arith, total_zero m)

module _ {U : Type 0} where
  tagged-le-length : (p : ℕ) (ks : List (ConversionWorkPacket U)) → tagged p ks ≤ length ks
  tagged-le-length p [] = omega arith
  tagged-le-length p (k ∷ ks) = ground (arith, tagged-le-length p ks)

  -- The packet at an address is there and of another path.
  abbrev pub IsOther : (Heap U) → ℕ → ℕ → Type 0
  IsOther h p a = (k : ConversionWorkPacket U) × (h.packet a ≡ some k) × (k.path ≢ p)

  All-IsOther :
      (h : Heap U) (p : ℕ) (as' : List ℕ) (ks : List (ConversionWorkPacket U))
      → map h.packet as' ≡ map some ks
      → of_path p ks ≡ 0
      → All (IsOther h p) as'
  All-IsOther h p [] ks e z = tt
  All-IsOther h p (a ∷ as') [] e z = cc
  All-IsOther h p (a ∷ as') (k ∷ ks) e z = (
    (k, ground (arith, e), λ same. ground (arith, z, same)),
    All-IsOther h p as' ks (ground (arith, e)) (ground (arith, z)),
  )

  length_packets :
      (f : ℕ → Option (ConversionWorkPacket U)) (as' : List ℕ) (ks : List (ConversionWorkPacket U))
      → map f as' ≡ map some ks
      → length ks ≡ length as'
  length_packets f [] [] e = refl
  length_packets f [] (k ∷ ks) e = cc
  length_packets f (a ∷ as') [] e = cc
  length_packets f (a ∷ as') (k ∷ ks) e = ap suc (length_packets f as' ks (ground (arith, e)))

module _ {UQ PQ U W : Type 0} (updates : QueueApi UQ (Option U)) (packets : QueueApi PQ ℕ)
    (paths : ℕ → List ℕ) (emit : ℕ → U → W → W) (n : ℕ) where
  acts-AllSound :
      (as' : List (Action UQ)) (s : System UQ PQ U W) (ks : ℕ → List (ConversionWorkPacket U))
      (owner : ℕ → ℕ)
      → HasMemory packets
      → All (Acts updates packets paths emit n) as'
      → AllSound packets n owner ks s.heap s.queues
      → (s' : System UQ PQ U W) × (ks' : ℕ → List (ConversionWorkPacket U)) × (owner' : ℕ → ℕ)
        × (acts updates packets paths emit as' s ≡ done s')
        × AllSound packets n owner' ks' s'.heap s'.queues
  unfolding acts
  acts-AllSound [] s ks owner memory lt c = (s, ks, owner, refl, c)
  acts-AllSound (a ∷ as') s ks owner memory lt c =
      let (s1, owner1, e1, c1, _) =
        act-AllSound updates packets paths emit n a s ks owner memory lt.0 c in
      let (s2, ks2, owner2, e2, c2) =
        acts-AllSound as' s1 (moved updates packets paths emit n a s ks) owner1 memory lt.1 c1 in
      (s2, ks2, owner2, rw (e1, acts) e2, c2)

  pub empty_queues :
      (s : System UQ PQ U W)
      → ((i : ℕ) → packets.contents (s.queues i) ≡ [])
      → ((p : ℕ) → s.heap.transit p ≡ 0)
      → AllSound packets n (λ a. 0) (λ i. []) s.heap s.queues
  empty_queues s empty zeros = record {
    each = λ i. record {
      alive = rw (empty i) refl;
      fresh = rw (empty i) tt;
      ascending = rw (empty i) tt;
      last = tt;
      belong = rw (empty i) tt;
    };
    transit = λ p. omega (arith, zeros p, total_zero n);
  }

  -- The wait of `~ConversionPath` is enough, whichever workers there are: however `n` workers have taken
  -- turns from empty queues on, while memory lasts, if a path's counter is zero then, and less than 2^32
  -- packets wait, every packet in a queue of theirs is alive and of another path.
  pub no_packet_left :
      (as' : List (Action UQ)) (s s' : System UQ PQ U W) (p i : ℕ)
      → HasMemory packets
      → All (Acts updates packets paths emit n) as'
      → ((j : ℕ) → packets.contents (s.queues j) ≡ [])
      → ((q : ℕ) → s.heap.transit q ≡ 0)
      → acts updates packets paths emit as' s ≡ done s'
      → s'.heap.transit p ≡ 0
      → total n (λ j. length (packets.contents (s'.queues j))) < word32
      → i < n
      → All (IsOther s'.heap p) (packets.contents (s'.queues i))
  no_packet_left as' s s' p i memory lt empty zeros ends zero_there few here =
      let (s1, ks, owner, e, c) =
        acts-AllSound as' s (λ j. []) (λ a. 0) memory lt (empty_queues s empty zeros) in
      let same : s1 ≡ s' = cc (e, ends) in
      let c' : AllSound packets n owner ks s'.heap s'.queues =
        subst (λ t. AllSound packets n owner ks t.heap t.queues) same c in
      let bound =
        total-le n (λ j. tagged p (ks j)) (λ j. length (packets.contents (s'.queues j)))
          (λ j. omega (
            arith,
            tagged-le-length p (ks j),
            length_packets s'.heap.packet (packets.contents (s'.queues j)) (ks j) (c'.each j).alive,
          )) in
      All-IsOther s'.heap p (packets.contents (s'.queues i)) (ks i) (c'.each i).alive (
        none_of_path packets n owner ks s'.heap s'.queues p i c' (omega (arith, bound, few))
          zero_there here)
