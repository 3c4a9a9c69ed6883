-- ===== src/ConversionWorker/Thread.antt =====
-- The thread of a worker: start, stop and the outer loop of run in src/ConversionWorker.cpp, beside the
-- thread that stops it. A round of the loop takes steps on the state that the workers share, and need
-- not end; its sleep changes nothing.
use forward_epics_to_kafka.Base.{
  ℕ, suc, ◌+◌, ◌==◌, ◌<◌, ◌≤◌, ◌≡◌, ◌≢◌, refl, ◌∙◌, Bool, true, false, Bool-cases, inl, inr, Option,
  none, some, List, [], ◌∷◌, All, length, if◌then◌else◌, arith,
}

-- Not started, at the test of `do_run`, in a round, or at the end of `run`.
pub data Phase : Type 0 where
  idle testing in_round finished : Phase

-- `rounds` counts the rounds that ended.
pub record Worker (W : Type 0) : Type 0 where
  pub do_run : ℕ
  pub phase : Phase
  pub world : W
  pub rounds : ℕ

-- `round` is a step of a round, and says whether it was the last.
module _ {W : Type 0} (round : W → W × Bool) where
  abbrev pub step_of : Phase → Worker W → Worker W
  step_of idle w = w
  step_of testing w = record w { phase = if w.do_run == 0 then finished else in_round }
  step_of in_round w =
      let (v, over) = round w.world in
      record w {
        phase = if over then testing else in_round;
        world = v;
        rounds = if over then suc w.rounds else w.rounds;
      }
  step_of finished w = w

  -- What the thread does next.
  unfoldable pub step : Worker W → Worker W
  step w = step_of w.phase w

  -- `start` of a worker that was not started.
  unfoldable pub start : Worker W → Worker W
  start w = record w { do_run = 1; phase = testing }

  unfoldable pub clear_do_run : Worker W → Worker W
  clear_do_run w = record w { do_run = 0 }

  abbrev pub is_finished : Phase → Bool
  is_finished finished = true
  is_finished _ = false

  -- `join`: the thread goes on until it is done. Before each of its steps others change what the workers
  -- share; `none` means that it is not done after all these steps.
  unfoldable pub join : List (W → W) → Worker W → Option (Worker W)
  unfolding step
  join [] w = none
  join (f ∷ others) w = elim (is_finished w.phase) [
    | true ↦ some w
    | false ↦ join others (step (record w { world = f w.world }))
  ]

  abbrev pub joinable : Phase → Bool
  joinable idle = false
  joinable _ = true

  unfoldable pub stop : List (W → W) → Worker W → Option (Worker W)
  unfolding clear_do_run join
  stop others w = let w' = clear_do_run w in if joinable w.phase then join others w' else some w'

  -- The round that is under way.
  abbrev pub under_way : Phase → ℕ
  under_way in_round = 1
  under_way _ = 0

  -- A round ends whatever others do: each step but the last one lowers `measure`, which others do not
  -- raise.
  module _ (measure : W → ℕ) where
    abbrev pub Falls : Type 0
    Falls = (v : W) → (round v).1 ≡ false → measure (round v).0 < measure v

    abbrev pub Calm : (W → W) → Type 0
    Calm f = (v : W) → measure (f v) ≤ measure v

    -- A bound of the steps up to the end.
    abbrev steps_left : Phase → ℕ → ℕ
    steps_left in_round m = suc (suc m)
    steps_left testing m = 1
    steps_left _ m = 0

    step_of_stopped :
        (p : Phase) (w : Worker W)
        → Falls
        → w.do_run ≡ 0
        → p ≢ idle
        → is_finished p ≡ false
        → ((step_of p w).do_run ≡ 0)
          × ((step_of p w).phase ≢ idle)
          × ((step_of p w).rounds + under_way (step_of p w).phase ≡ w.rounds + under_way p)
          × (steps_left (step_of p w).phase (measure (step_of p w).world)
              < steps_left p (measure w.world))
    step_of_stopped idle w falls h n m = absurd (n refl)
    step_of_stopped testing w falls h n m = rw h (refl, λ q. cc, omega arith, omega arith)
    step_of_stopped in_round w falls h n m = elim (Bool-cases (round w.world).1) [
      | inl e ↦ rw e (h, λ q. cc, omega arith, omega arith)
      | inr e ↦ let less = falls w.world e in rw e (h, λ q. cc, omega arith, omega (arith, less))
    ]
    step_of_stopped finished w falls h n m = cc

    is_finished_lem : (p : Phase) → is_finished p ≡ true → (p ≡ finished) × (under_way p ≡ 0)
    is_finished_lem finished e = (refl, refl)
    is_finished_lem idle e = cc
    is_finished_lem testing e = cc
    is_finished_lem in_round e = cc

    calm_lem : (p : Phase) (m m' : ℕ) → m' ≤ m → steps_left p m' ≤ steps_left p m
    calm_lem idle m m' h = omega arith
    calm_lem testing m m' h = omega arith
    calm_lem in_round m m' h = omega arith
    calm_lem finished m m' h = omega arith

    join_stopped :
        (others : List (W → W)) (w : Worker W)
        → Falls
        → All Calm others
        → w.do_run ≡ 0
        → w.phase ≢ idle
        → steps_left w.phase (measure w.world) < length others
        → (v : Worker W) × (join others w ≡ some v)
          × (v.phase ≡ finished)
          × (v.rounds ≡ w.rounds + under_way w.phase)
    unfolding join step
    join_stopped [] w falls calm h n lt = absurd (omega arith)
    join_stopped (f ∷ others) w falls calm h n lt = elim (Bool-cases (is_finished w.phase)) [
      | inl e ↦
          let (ended, none_there) = is_finished_lem w.phase e in
          (w, rw (e, join) refl, ended, omega (arith, none_there))
      | inr e ↦
          let w' : Worker W = record w { world = f w.world } in
          let (h', n', same, fewer) = step_of_stopped w.phase w' falls h n e in
          let calmer = calm_lem w.phase (measure w.world) (measure (f w.world)) (calm.0 w.world) in
          let (v, ends, done, rounds) =
            join_stopped others (step w') falls calm.1 h' n' (omega (arith, fewer, lt, calmer)) in
          (v, rw (e, join) ends, done, rounds ∙ same)
    ]

    few : (p : Phase) (m n : ℕ) → m + 2 < n → steps_left p m < n
    few idle m n h = omega arith
    few testing m n h = omega arith
    few in_round m n h = omega arith
    few finished m n h = omega arith

    joinable_lem : (p : Phase) → p ≢ idle → joinable p ≡ true
    joinable_lem idle n = absurd (n refl)
    joinable_lem testing n = refl
    joinable_lem in_round n = refl
    joinable_lem finished n = refl

    -- Where a round ends whatever others do to what the workers share, `stop` of a worker that was
    -- started returns once the thread has ended the round that is under way: the thread is at its end,
    -- and no round was begun since.
    pub stop_lem :
        (others : List (W → W)) (w : Worker W)
        → Falls
        → All Calm others
        → w.phase ≢ idle
        → measure w.world + 2 < length others
        → (v : Worker W) × (stop others w ≡ some v)
          × (v.phase ≡ finished)
          × (v.rounds ≡ w.rounds + under_way w.phase)
    unfolding stop clear_do_run
    stop_lem others w falls calm n lt =
        rw (joinable_lem w.phase n, stop)
          (join_stopped others (clear_do_run w) falls calm refl n
            (few w.phase (measure w.world) (length others) lt))
