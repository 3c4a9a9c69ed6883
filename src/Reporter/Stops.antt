-- ===== src/Reporter/Stops.antt =====
-- The end of a reporter of src/MetricsReporter.cpp or src/StatusReporter.cpp.
use forward_epics_to_kafka.Base.{
  ℕ, suc, ◌+◌, ◌<◌, ◌≡◌, refl, Bool, true, false, Bool-cases, inl, inr, some, List, [], ◌∷◌, length,
  ◌∙◌, arith,
}
use forward_epics_to_kafka.Reporter.{
  Phase, waiting, reporting, finished, Reporter, turn_of, turn, stop, join, destroy, is_finished,
}

-- The steps up to the end: the rest of a report, and the end of `run`.
abbrev steps_left : Phase → ℕ
steps_left reporting = 2
steps_left waiting = 1
steps_left finished = 0

module _ {W : Type 0} (period : ℕ) (report : W → W × Bool) where
  turn_of_stopped :
      (p : Phase) (r : Reporter W)
      → r.stopped ≡ true
      → r.phase ≡ p
      → is_finished period report p ≡ false
      → ((turn_of period report p r).stopped ≡ true)
        × ((turn_of period report p r).times ≡ r.times)
        × (suc (steps_left (turn_of period report p r).phase) ≡ steps_left p)
  turn_of_stopped waiting r h e m = rw h (refl, refl, refl)
  turn_of_stopped reporting r h e m = (h, refl, refl)
  turn_of_stopped finished r h e m = cc

  turn_stopped :
      (r : Reporter W)
      → r.stopped ≡ true
      → is_finished period report r.phase ≡ false
      → ((turn period report r).stopped ≡ true)
        × ((turn period report r).times ≡ r.times)
        × (suc (steps_left (turn period report r).phase) ≡ steps_left r.phase)
  unfolding turn
  turn_stopped r h m = turn_of_stopped r.phase r h refl m

  is_finished_lem : (p : Phase) → is_finished period report p ≡ true → p ≡ finished
  is_finished_lem finished e = refl
  is_finished_lem waiting e = cc
  is_finished_lem reporting e = cc

  join_stopped :
      (others : List (ℕ × (W → W))) (r : Reporter W)
      → r.stopped ≡ true
      → steps_left r.phase < length others
      → (s : Reporter W) × (join period report others r ≡ some s)
        × (s.phase ≡ finished)
        × (s.times ≡ r.times)
  unfolding join
  join_stopped [] r h lt = absurd (omega arith)
  join_stopped ((d, f) ∷ others) r h lt = elim (Bool-cases (is_finished period report r.phase)) [
    | inl e ↦ (r, rw (e, join) refl, is_finished_lem r.phase e, refl)
    | inr e ↦
        let later : Reporter W = record r { now = r.now + d; world = f r.world } in
        let (h', same, fewer) = turn_stopped later h e in
        let (s, ends, done, times) =
          join_stopped others (turn period report later) h' (omega (arith, fewer, lt)) in
        (s, rw (e, join) ends, done, times ∙ same)
  ]

  few : (p : Phase) (n : ℕ) → 2 < n → steps_left p < n
  few waiting n h = omega arith
  few reporting n h = omega arith
  few finished n h = omega arith

  -- The destructor of a reporter, wherever its thread is, returns within two steps of the thread, and
  -- whatever the clock and the other threads do meanwhile: the thread is at its end, and no report
  -- began after `stop`, even where its time had come. A report that is under way returns.
  pub destroy_lem :
      (others : List (ℕ × (W → W))) (r : Reporter W)
      → 2 < length others
      → (s : Reporter W) × (destroy period report others r ≡ some s)
        × (s.phase ≡ finished)
        × (s.times ≡ r.times)
  unfolding destroy stop
  destroy_lem others r lt =
      join_stopped others (stop period report r) refl (few r.phase (length others) lt)
