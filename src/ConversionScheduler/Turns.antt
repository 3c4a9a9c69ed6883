-- ===== src/ConversionScheduler/Turns.antt =====
-- The order in which the streams are served.
use forward_epics_to_kafka.Base.{
  ℕ, zero, suc, ◌+◌, ◌-◌, ◌%◌, ◌<◌, ◌≤◌, ◌≡◌, refl, sym, ap, ◌∙◌, List, [], ◌∷◌, ◌++◌, arith, ltb,
  ◌==◌, leb, true, false, inl, inr, Bool-cases, All, All-append, ltb→lt,
}
use mathlib.Core.Path.{fun_ext}
use forward_epics_to_kafka.Stream.Fill.{word32}
use forward_epics_to_kafka.ConversionWorker.{Outcome, done, fault, out_of_fuel}
use forward_epics_to_kafka.ConversionScheduler.{
  Served, Visited, next_sid, served, serve_rounds, start_sid, fill, turn,
}

-- `i`, `i + 1`, and so on, `k` of them.
abbrev pub upto : ℕ → ℕ → List ℕ
upto i zero = []
upto i (suc k) = i ∷ upto (suc i) k

-- Each stream once, from `i` to the last and then from the first to the one before `i`.
abbrev pub turns : ℕ → ℕ → List ℕ
turns size i = upto i (size - i) ++ upto 0 i

module _ {S : Type 0} (visit : ℕ → ℕ → S → Outcome (Visited S)) (size nfm : ℕ) where
  -- The rounds of the code over a list of streams.
  unfoldable pub turn_list : List ℕ → ℕ → ℕ → S → Outcome (Served S)
  turn_list [] sid nfc s = done (served sid nfc s)
  turn_list (i ∷ is) sid nfc s =
      turn visit size nfm (λ v. turn_list is (next_sid size i) ((nfc + v.count) % word32) v.state) i
        nfc s

  -- The part of the round before `sid0`, where the index only rises.
  serve_rising :
      (sid0 : ℕ)
      → sid0 < size
      → (k f sid nfc : ℕ) (s : S) → sid + suc k ≡ sid0
      → k < f
      → serve_rounds visit size nfm f sid0 sid nfc s ≡ turn_list (upto sid (suc k)) sid nfc s
  unfolding serve_rounds turn_list
  serve_rising sid0 lt k zero sid nfc s e h = elim h [ ]
  serve_rising sid0 lt zero (suc f) sid nfc s e h =
      let stop : (next_sid size sid == sid0) ≡ true = ground arith in rw stop
  serve_rising sid0 lt (suc k) (suc f) sid nfc s e h =
      let go : (next_sid size sid == sid0) ≡ false = ground arith in
      let step : next_sid size sid ≡ suc sid = ground arith in
      rw go (
        ap (λ rest. turn visit size nfm rest sid nfc s)
          (fun_ext (λ v. rw step (
            serve_rising sid0 lt k f (suc sid) ((nfc + v.count) % word32) v.state (omega arith)
              (omega arith)))))

  -- The part from `sid0` on, with what follows the last stream.
  serve_wrapping :
      (sid0 : ℕ)
      → (k f sid nfc : ℕ) (s : S) → sid0 ≤ sid
      → sid + suc k ≡ size
      → k + sid0 < f
      → serve_rounds visit size nfm f sid0 sid nfc s
        ≡ turn_list (upto sid (suc k) ++ upto 0 sid0) sid nfc s
  unfolding serve_rounds turn_list
  serve_wrapping sid0 k zero sid nfc s le e h = elim h [ ]
  serve_wrapping zero zero (suc f) sid nfc s le e h =
      let stop : (next_sid size sid == 0) ≡ true = ground arith in rw stop
  serve_wrapping (suc sid0) zero (suc f) sid nfc s le e h =
      let go : (next_sid size sid == suc sid0) ≡ false = ground arith in
      let step : next_sid size sid ≡ 0 = ground arith in
      rw go (
        ap (λ rest. turn visit size nfm rest sid nfc s)
          (fun_ext (λ v. rw step (
            serve_rising (suc sid0) (omega arith) sid0 f 0 ((nfc + v.count) % word32) v.state
              (omega arith) (omega arith)))))
  serve_wrapping sid0 (suc k) (suc f) sid nfc s le e h =
      let go : (next_sid size sid == sid0) ≡ false = ground arith in
      let step : next_sid size sid ≡ suc sid = ground arith in
      rw go (
        ap (λ rest. turn visit size nfm rest sid nfc s)
          (fun_ext (λ v. rw step (
            serve_wrapping sid0 k f (suc sid) ((nfc + v.count) % word32) v.state (omega arith)
              (omega arith) (omega arith)))))

  pub start_lt : (sid : ℕ) → 0 < size → start_sid visit size nfm sid < size
  start_lt sid h = ground arith

  pub fill-turn_list :
      (sid : ℕ) (s : S)
      → 0 < size
      → let first = start_sid visit size nfm sid in
        fill visit size nfm sid s ≡ turn_list (turns size first) first 0 s
  unfolding fill
  fill-turn_list sid s h =
      let first = start_sid visit size nfm sid in
      let busy : (size == 0) ≡ false = ground arith in
      let e : size - first ≡ suc (size - first - 1) = omega (arith, start_lt sid h) in
      rw (busy, fill)
        (serve_wrapping first (size - first - 1) size first 0 s (omega arith)
            (omega (arith, start_lt sid h)) (omega (arith, start_lt sid h))
          ∙ ap (λ k. turn_list (upto first k ++ upto 0 first) first 0 s) (sym e))

  -- What the scheduler relies on: a visit ends well, queues no more than it may, and keeps `P`.
  pub record IsFiller (P : S → Type 0) : Type 0 where
    pub visits :
        (i room : ℕ) (s : S)
        → i < size
        → room < word32
        → P s
        → (v : Visited S) × (visit i room s ≡ done v) × (v.count ≤ room) × P v.state

  abbrev pub Serves : (P : S → Type 0) → Outcome (Served S) → Type 0
  Serves P o = (r : Served S) × (o ≡ done r) × (r.nfc ≤ nfm) × (r.sid < size) × P r.state

  pub turn_full :
      (rest : Visited S → Outcome (Served S)) (sid nfc : ℕ) (s : S)
      → ltb nfc nfm ≡ false
      → turn visit size nfm rest sid nfc s ≡ done (served sid nfc s)
  turn_full rest sid nfc s full = rw (full, turn)

  pub turn-visit :
      (rest : Visited S → Outcome (Served S)) (sid nfc : ℕ) (s : S) (v : Visited S)
      → nfm < word32
      → ltb nfc nfm ≡ true
      → visit sid (nfm - nfc) s ≡ done v
      → turn visit size nfm rest sid nfc s ≡ rest v
  turn-visit rest sid nfc s v small more e =
      let room : (nfm + word32 - nfc) % word32 ≡ nfm - nfc = omega (arith, ltb→lt nfc nfm more) in
      rw (more, turn) (rw (room, turn) (rw (e, turn)))

  turn_list-Serves :
      (P : S → Type 0)
      → IsFiller P
      → nfm < word32
      → (is : List ℕ) (sid nfc : ℕ) (s : S) → All (λ i. i < size) is
      → sid < size
      → nfc ≤ nfm
      → P s
      → Serves P (turn_list is sid nfc s)
  unfolding turn_list
  turn_list-Serves P filler small [] sid nfc s b lt le p = (served sid nfc s, refl, le, lt, p)
  turn_list-Serves P filler small (i ∷ is) sid nfc s b lt le p = elim (Bool-cases (ltb nfc nfm)) [
    | inr full ↦ (served i nfc s, turn_full _ i nfc s full, le, b.0, p)
    | inl more ↦
        let lt' = ltb→lt nfc nfm more in
        let (v, e, count, q) = filler.visits i (nfm - nfc) s b.0 (omega arith) p in
        let sum : (nfc + v.count) % word32 ≡ nfc + v.count = omega (arith, lt') in
        let (r, ends, good, near, kept) =
          turn_list-Serves P filler small is (next_sid size i) (nfc + v.count) v.state b.1
            (ground (arith, b.0)) (omega (arith, lt')) q in
        (
          r,
          turn-visit _ i nfc s v small more e
              ∙ ap (λ n. turn_list is (next_sid size i) n v.state) sum
              ∙ ends,
          good,
          near,
          kept,
        )
  ]

  upto_below : (i k n : ℕ) → i + k ≤ n → All (λ j. j < n) (upto i k)
  upto_below i zero n h = tt
  upto_below i (suc k) n h = (omega arith, upto_below (suc i) k n (omega arith))

  pub turns_below : (i : ℕ) → i < size → All (λ j. j < size) (turns size i)
  turns_below i h =
      All-append (λ j. j < size) (upto i (size - i)) (upto 0 i)
        (upto_below i (size - i) size (omega arith)) (upto_below 0 i size (omega arith))

  -- The streams of a list in order, each with the room that is left of `nfm`, and none once there is no
  -- room left.
  unfoldable pub serve_list : List ℕ → ℕ → ℕ → S → Outcome (Served S)
  serve_list [] sid nfc s = done (served sid nfc s)
  serve_list (i ∷ is) sid nfc s = elim (leb nfm nfc) [
    | true ↦ done (served i nfc s)
    | false ↦ elim (visit i (nfm - nfc) s) [
      | fault ↦ fault
      | out_of_fuel ↦ out_of_fuel
      | done v ↦ serve_list is (next_sid size i) ((nfc + v.count) % word32) v.state
    ]
  ]

  abbrev visited : Outcome (Visited S) → (Visited S → Outcome (Served S)) → Outcome (Served S)
  visited o rest = elim o [ fault ↦ fault | out_of_fuel ↦ out_of_fuel | done v ↦ rest v ]

  turn_more :
      (rest : Visited S → Outcome (Served S)) (sid nfc : ℕ) (s : S)
      → nfm < word32
      → ltb nfc nfm ≡ true
      → turn visit size nfm rest sid nfc s ≡ visited (visit sid (nfm - nfc) s) rest
  turn_more rest sid nfc s small more =
      let room : (nfm + word32 - nfc) % word32 ≡ nfm - nfc = omega (arith, ltb→lt nfc nfm more) in
      rw (more, turn) (rw (room, turn) refl)

  turn_list-serve_list :
      nfm < word32
      → (is : List ℕ) (sid nfc : ℕ) (s : S) → turn_list is sid nfc s ≡ serve_list is sid nfc s
  unfolding turn_list serve_list
  turn_list-serve_list small [] sid nfc s = refl
  turn_list-serve_list small (i ∷ is) sid nfc s = elim (Bool-cases (ltb nfc nfm)) [
    | inr full ↦
        let over : leb nfm nfc ≡ true = ground (arith, full) in
        turn_full _ i nfc s full ∙ rw (over, serve_list) refl
    | inl more ↦
        let left : leb nfm nfc ≡ false = ground (arith, more) in
        turn_more _ i nfc s small more
        ∙ ap (visited (visit i (nfm - nfc) s)) (
            fun_ext (λ v.
              turn_list-serve_list small is (next_sid size i) ((nfc + v.count) % word32) v.state))
        ∙ rw (left, serve_list) refl
  ]

  -- With a budget of 32 bits a call serves each stream at most once and in turn, from the stream after
  -- the last one served, or from the first one if streams have gone; each may queue as much as is left
  -- of the budget, and the call stops where nothing is left of it.
  pub fill-serve_list :
      (sid : ℕ) (s : S)
      → 0 < size
      → nfm < word32
      → let first = start_sid visit size nfm sid in
        fill visit size nfm sid s ≡ serve_list (turns size first) first 0 s
  fill-serve_list sid s h small =
      fill-turn_list sid s h
      ∙ turn_list-serve_list small (turns size (start_sid visit size nfm sid)) _ 0 s

  -- With streams that keep to their budget, a call ends, queues at most `nfm` packets and leaves the
  -- next turn with a stream that is there.
  pub fill-Serves :
      (P : S → Type 0) (sid : ℕ) (s : S)
      → IsFiller P
      → 0 < size
      → nfm < word32
      → P s
      → Serves P (fill visit size nfm sid s)
  fill-Serves P sid s filler h small p = rw (fill-turn_list sid s h) (
      turn_list-Serves P filler small (turns size (start_sid visit size nfm sid)) _ 0 s
        (turns_below (start_sid visit size nfm sid) (start_lt sid h)) (start_lt sid h) (omega arith)
        p)
