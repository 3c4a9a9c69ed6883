-- ===== src/Workers/Destroy.antt =====
-- `~ConversionPath` of src/Stream.cpp beside the workers, which still have packets of the path: it sleeps
-- while the path's counter `transit` is not zero.
use forward_epics_to_kafka.Base.{
  ℕ, zero, suc, ◌+◌, ◌-◌, ◌<◌, ◌≤◌, ◌≡◌, ◌≢◌, refl, sym, ap, ◌∙◌, Option, List, [], ◌∷◌, ◌++◌, map,
  length, All, arith, ◌==◌, true, false, Bool-cases, inl, inr, if◌then◌else◌,
}
use forward_epics_to_kafka.Queue.{QueueApi}
use forward_epics_to_kafka.Stream.Fill.{ConversionWorkPacket, update_at, word32}
use forward_epics_to_kafka.ConversionWorker.{Outcome, done, fault, out_of_fuel}
use forward_epics_to_kafka.ConversionWorker.Transit.{tagged, of_path, of_path_untagged}
use forward_epics_to_kafka.Workers.{System, emits, acts}
use forward_epics_to_kafka.Workers.Counters.{
  AllSound, total, total-update_at, none_of_path, term-le-total,
}
use forward_epics_to_kafka.Workers.Runs.{tail_of, emits-AllSound}

-- How often a number is in a list.
abbrev pub times : ℕ → List ℕ → ℕ
times i [] = 0
times i (j ∷ js) = if i == j then suc (times i js) else times i js

abbrev pub times_all : ℕ → List (List ℕ) → ℕ
times_all i [] = 0
times_all i (js ∷ sleeps) = times i js + times_all i sleeps

module _ {UQ PQ U W : Type 0} (updates : QueueApi UQ (Option U)) (packets : QueueApi PQ ℕ)
    (paths : ℕ → List ℕ) (emit : ℕ → U → W → W) where
  -- The loop of the destructor of path `p`: in each sleep the workers of a list emit a packet each, if
  -- they have one, in this order. The length of the list of sleeps is the fuel.
  unfoldable pub destroy_path : ℕ → List (List ℕ) → System UQ PQ U W → Outcome (System UQ PQ U W)
  unfolding acts
  destroy_path p [] s = out_of_fuel
  destroy_path p (js ∷ sleeps) s = elim (s.heap.transit p == 0) [
    | true ↦ done s
    | false ↦ elim (acts updates packets paths emit (map emits js) s) [
      | done s' ↦ destroy_path p sleeps s'
      | fault ↦ fault
      | out_of_fuel ↦ out_of_fuel
    ]
  ]

  module _ (n : ℕ) where
    abbrev Packets : Type 0
    Packets = ℕ → List (ConversionWorkPacket U)

    abbrev drained : List ℕ → Packets → Packets
    drained [] ks = ks
    drained (j ∷ js) ks = drained js (update_at ks j (tail_of packets emit (ks j)))

    length-drained :
        (i : ℕ) (js : List ℕ) (ks : Packets) → length (drained js ks i) ≡ length (ks i) - times i js
    length-drained i [] ks = omega arith
    length-drained i (j ∷ js) ks =
        let rest = length-drained i js (update_at ks j (tail_of packets emit (ks j))) in
        elim (Bool-cases (i == j)) [
          | inl e ↦
              let same : i ≡ j = ground (arith, e) in
              rw e (rest ∙ rw e (omega (arith, shorter (ks j), ap (λ k. length (ks k)) same)))
          | inr e ↦ rw e (rest ∙ rw e refl)
        ]
      where
        shorter :
            (l : List (ConversionWorkPacket U)) → length (tail_of packets emit l) ≡ length l - 1
        shorter [] = omega arith
        shorter (k ∷ l) = omega arith

    drained_other :
        (i : ℕ) (js : List ℕ) (ks : Packets) → All (λ j. j ≢ i) js → drained js ks i ≡ ks i
    drained_other i [] ks ne = refl
    drained_other i (j ∷ js) ks ne =
        let other : (i == j) ≡ false = ground (arith, ne.0) in
        drained_other i js (update_at ks j (tail_of packets emit (ks j))) ne.1 ∙ rw other refl

    tagged_tail :
        (p : ℕ) (l : List (ConversionWorkPacket U)) → tagged p (tail_of packets emit l) ≤ tagged p l
    tagged_tail p [] = omega arith
    tagged_tail p (k ∷ l) = ground arith

    total-drained :
        (p : ℕ) (js : List ℕ) (ks : Packets)
        → All (λ j. j < n) js
        → total n (λ i. tagged p (drained js ks i)) ≤ total n (λ i. tagged p (ks i))
    total-drained p [] ks lt = omega arith
    total-drained p (j ∷ js) ks lt = omega (
      arith,
      total-drained p js (update_at ks j (tail_of packets emit (ks j))) lt.1,
      total-update_at (tagged p) n j ks (tail_of packets emit (ks j)) lt.0,
      tagged_tail p (ks j),
    )

    abbrev Sound : Packets → System UQ PQ U W → Type 0
    Sound ks s = (owner : ℕ → ℕ) × AllSound packets n owner ks s.heap s.queues

    emitted :
        (js : List ℕ) (s : System UQ PQ U W) (ks : Packets)
        → All (λ j. j < n) js
        → Sound ks s
        → (s' : System UQ PQ U W) × (acts updates packets paths emit (map emits js) s ≡ done s')
          × Sound (drained js ks) s'
    unfolding acts
    emitted [] s ks lt c = (s, refl, c)
    emitted (j ∷ js) s ks lt (owner, c) =
        let (s1, owner1, e1, c1, _) =
          emits-AllSound updates packets paths emit n j s ks owner lt.0 c in
        let (s2, e2, c2) =
          emitted js s1 (update_at ks j (tail_of packets emit (ks j))) lt.1 (owner1, c1) in
        (s2, rw (e1, acts) e2, c2)

    -- No packet of the path is left, in any queue, and the queues are sound.
    abbrev pub Clear : ℕ → Outcome (System UQ PQ U W) → Type 0
    Clear p r =
        (s : System UQ PQ U W) × (ks : ℕ → List (ConversionWorkPacket U)) × (owner : ℕ → ℕ) × (r
          ≡ done s)
        × AllSound packets n owner ks s.heap s.queues
        × ((i : ℕ) → i < n → of_path p (ks i) ≡ 0)

    all_empty :
        (m p : ℕ) (ks : Packets)
        → ((i : ℕ) → i < m → length (ks i) ≤ 0)
        → total m (λ i. tagged p (ks i)) ≡ 0
    all_empty zero p ks h = refl
    all_empty (suc m) p ks h =
        omega
          (arith, all_empty m p ks (λ i lt. h i (omega arith)), nothing (ks m) (h m (omega arith)))
      where
        nothing : (l : List (ConversionWorkPacket U)) → length l ≤ 0 → tagged p l ≡ 0
        nothing [] le = refl
        nothing (k ∷ l) le = absurd (omega arith)

    at_zero :
        (p : ℕ) (js : List ℕ) (sleeps : List (List ℕ)) (s : System UQ PQ U W) (ks : Packets)
        → Sound ks s
        → total n (λ i. tagged p (ks i)) < word32
        → (s.heap.transit p == 0) ≡ true
        → Clear p (destroy_path p (js ∷ sleeps) s)
    unfolding destroy_path
    at_zero p js sleeps s ks (owner, c) small e = (
      s,
      ks,
      owner,
      rw (e, destroy_path) refl,
      c,
      λ i lt. none_of_path packets n owner ks s.heap s.queues p i c small (ground (arith, e)) lt,
    )

    -- The destructor of a path ends as soon as each worker has emitted what waited in its queue, if not
    -- before, where no stream is visited meanwhile and the packets of the path that name their stream
    -- are less than 2^32. It meets no bad access, the queues are sound behind it, and no worker has a
    -- packet of the path.
    pub destroy_path-Clear :
        (p : ℕ) (sleeps : List (List ℕ)) (s : System UQ PQ U W)
        (ks : ℕ → List (ConversionWorkPacket U)) (owner : ℕ → ℕ)
        → AllSound packets n owner ks s.heap s.queues
        → total n (λ i. tagged p (ks i)) < word32
        → All (All (λ j. j < n)) sleeps
        → ((i : ℕ) → i < n → length (ks i) ≤ times_all i sleeps)
        → Clear p (destroy_path p (sleeps ++ [] ∷ []) s)
    unfolding destroy_path
    destroy_path-Clear p [] s ks owner c small lt enough =
        let none_there = all_empty n p ks enough in
        at_zero p [] [] s ks (owner, c) small (ground (arith, c.transit p, none_there))
    destroy_path-Clear p (js ∷ sleeps) s ks owner c small lt enough =
        elim (Bool-cases (s.heap.transit p == 0)) [
          | inl e ↦ at_zero p js (sleeps ++ [] ∷ []) s ks (owner, c) small e
          | inr e ↦
              let (s1, e1, (owner1, c1)) = emitted js s ks lt.0 (owner, c) in
              let (s2, ks2, owner2, ends, c2, clear) =
                destroy_path-Clear p sleeps s1 (drained js ks) owner1 c1
                  (omega (arith, total-drained p js ks lt.0, small)) lt.1
                  (λ i here. omega (arith, length-drained i js ks, enough i here)) in
              (s2, ks2, owner2, rw (e, destroy_path) (rw (e1, destroy_path) ends), c2, clear)
        ]

    -- Where it is a worker that destroys the path, while its own queue has a packet of the path, the
    -- destructor never ends, however often the other workers emit: the worker is at the destructor and
    -- emits nothing.
    pub destroy_path-never :
        (p i : ℕ) (sleeps : List (List ℕ)) (s : System UQ PQ U W)
        (ks : ℕ → List (ConversionWorkPacket U)) (owner : ℕ → ℕ)
        → AllSound packets n owner ks s.heap s.queues
        → total n (λ j. tagged p (ks j)) < word32
        → i < n
        → of_path p (ks i) ≢ 0
        → All (All (λ j. j < n)) sleeps
        → All (All (λ j. j ≢ i)) sleeps
        → destroy_path p sleeps s ≡ out_of_fuel
    unfolding destroy_path
    destroy_path-never p i [] s ks owner c small here waits lt others = refl
    destroy_path-never p i (js ∷ sleeps) s ks owner c small here waits lt others =
        let counted : tagged p (ks i) ≢ 0 =
          λ z. waits (of_path_untagged p (ks i) (c.each i).last z) in
        let busy : (s.heap.transit p == 0) ≡ false =
          ground (arith, c.transit p, term-le-total n i (λ j. tagged p (ks j)) here, counted) in
        let (s1, e1, (owner1, c1)) = emitted js s ks lt.0 (owner, c) in
        rw (busy, destroy_path)
          (rw (e1, destroy_path)
            (destroy_path-never p i sleeps s1 (drained js ks) owner1 c1
              (omega (arith, total-drained p js ks lt.0, small)) here
              (λ z. waits (ap (of_path p) (sym (drained_other i js ks others.0)) ∙ z)) lt.1
              others.1))
