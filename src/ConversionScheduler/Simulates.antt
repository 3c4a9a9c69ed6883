-- ===== src/ConversionScheduler/Simulates.antt =====
-- The scheduler over visits that a specification follows: a forward simulation.
use forward_epics_to_kafka.Base.{
  ℕ, ◌+◌, ◌-◌, ◌%◌, ◌<◌, ◌≤◌, ◌≡◌, refl, ap, ◌∙◌, List, [], ◌∷◌, arith, ltb, inl, inr, Bool-cases,
  All, ltb→lt, if◌then◌else◌,
}
use forward_epics_to_kafka.Stream.Fill.{word32}
use forward_epics_to_kafka.ConversionWorker.{Outcome, done}
use forward_epics_to_kafka.ConversionScheduler.{Served, Visited, next_sid, served, start_sid, fill}
use forward_epics_to_kafka.ConversionScheduler.Turns.{
  turns, turn_list, fill-turn_list, turn_full, turn-visit, turns_below, start_lt,
}

-- What is specified of a call: the next stream, the number of packets, and the state.
pub record Turn (A : Type 0) : Type 0 where
  pub sid : ℕ
  pub nfc : ℕ
  pub state : A

module _ {A : Type 0} (size nfm : ℕ) (visited : ℕ → ℕ → A → ℕ × A) where
  -- The streams of a list in order, each with the room that is left, until there is none.
  abbrev pub serve : List ℕ → ℕ → ℕ → A → Turn A
  serve [] sid nfc a = record { sid = sid; nfc = nfc; state = a }
  serve (i ∷ is) sid nfc a =
      let (n, a') = visited i (nfm - nfc) a in
      let rest = serve is (next_sid size i) (nfc + n) a' in
      if ltb nfc nfm then rest else record { sid = i; nfc = nfc; state = a }

module _ {S A : Type 0} (visit : ℕ → ℕ → S → Outcome (Visited S)) (size nfm : ℕ)
    (visited : ℕ → ℕ → A → ℕ × A) where
  -- A visit ends well, queues as many packets as specified and no more than it may, and keeps `R`.
  pub record Simulates (R : S → A → Type 0) : Type 0 where
    pub visits :
        (i room : ℕ) (s : S) (a : A)
        → i < size
        → room < word32
        → R s a
        → (v : Visited S) × (visit i room s ≡ done v)
          × (v.count ≡ (visited i room a).0)
          × (v.count ≤ room)
          × R v.state (visited i room a).1

  abbrev pub Follows : (S → A → Type 0) → Outcome (Served S) → Turn A → Type 0
  Follows R o t =
      (r : Served S) × (o ≡ done r) × (r.sid ≡ t.sid) × (r.nfc ≡ t.nfc) × R r.state t.state

  turn_list-serve :
      (R : S → A → Type 0)
      → Simulates R
      → nfm < word32
      → (is : List ℕ) (sid nfc : ℕ) (s : S) (a : A) → All (λ i. i < size) is
      → nfc ≤ nfm
      → R s a
      → Follows R (turn_list visit size nfm is sid nfc s) (serve size nfm visited is sid nfc a)
  unfolding turn_list
  turn_list-serve R sim small [] sid nfc s a b le r = (served sid nfc s, refl, refl, refl, r)
  turn_list-serve R sim small (i ∷ is) sid nfc s a b le r = elim (Bool-cases (ltb nfc nfm)) [
    | inr full ↦ rw full (served i nfc s, turn_full visit size nfm _ i nfc s full, refl, refl, r)
    | inl more ↦
        let lt = ltb→lt nfc nfm more in
        let (v, e, count, few, q) = sim.visits i (nfm - nfc) s a b.0 (omega arith) r in
        let sum : (nfc + v.count) % word32 ≡ nfc + (visited i (nfm - nfc) a).0 =
          omega (arith, lt, count, few) in
        let (t, ends, next, number, kept) =
          turn_list-serve R sim small is (next_sid size i) (nfc + (visited i (nfm - nfc) a).0)
            v.state (visited i (nfm - nfc) a).1 b.1 (omega (arith, lt, count, few)) q in
        rw more (
          t,
          turn-visit visit size nfm _ i nfc s v small more e
              ∙ ap (λ n. turn_list visit size nfm is (next_sid size i) n v.state) sum
              ∙ ends,
          next,
          number,
          kept,
        )
  ]

  -- A call of the scheduler does what is specified of the visits, in the order of the turns.
  pub fill-serve :
      (R : S → A → Type 0) (sid : ℕ) (s : S) (a : A)
      → Simulates R
      → 0 < size
      → nfm < word32
      → R s a
      → let first = start_sid visit size nfm sid in
        Follows R (fill visit size nfm sid s) (serve size nfm visited (turns size first) first 0 a)
  fill-serve R sid s a sim h small r =
      let first = start_sid visit size nfm sid in
      rw (fill-turn_list visit size nfm sid s h) (
        turn_list-serve R sim small (turns size first) first 0 s a
          (turns_below visit size nfm first (start_lt visit size nfm sid h)) (omega arith) r)
