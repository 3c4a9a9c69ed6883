-- ===== src/Timer/Stops.antt =====
-- How a timer ends that is told to stop.
use forward_epics_to_kafka.Base.{
  ℕ, suc, ◌+◌, ◌<◌, ◌≡◌, ◌≢◌, refl, sym, ◌∙◌, ap, subst, true, false, Bool-cases, inl, inr, some,
  List, [], ◌∷◌, ◌++◌, length, append-nil, append_assoc, arith, if◌then◌else◌,
}
use forward_epics_to_kafka.Timer.{
  Phase, idle, waiting, executing, finished, Timer, turn_of, turn, remaining, add_callback, add_all,
  locked, is_finished, join, wait_for_stop, stop_running,
}

-- What was called, with what is left of the loop.
abbrev due : Timer → List ℕ
due t = t.log ++ remaining t.phase

-- The steps up to the end: the rest of the loop, the next wait, and its end.
abbrev steps_left : Phase → ℕ
steps_left (executing cs) = suc (suc (length cs))
steps_left waiting = 1
steps_left _ = 0

add_all_frame :
    (cs : List ℕ) (t : Timer)
    → ((add_all cs t).running ≡ t.running)
      × ((add_all cs t).phase ≡ t.phase)
      × ((add_all cs t).log ≡ t.log)
unfolding add_callback
add_all_frame [] t = (refl, refl, refl)
add_all_frame (c ∷ cs) t =
    ground (arith, add_all_frame cs (if locked t.phase then t else add_callback c t))

-- A step of a timer that does not run.
turn_of_stopped :
    (p : Phase) (t : Timer)
    → t.running ≡ false
    → t.phase ≡ p
    → p ≢ idle
    → p ≢ finished
    → ((turn_of p t).running ≡ false)
      × ((turn_of p t).phase ≢ idle)
      × (due (turn_of p t) ≡ t.log ++ remaining p)
      × (suc (steps_left (turn_of p t).phase) ≡ steps_left p)
turn_of_stopped idle t h e n m = absurd (n refl)
turn_of_stopped waiting t h e n m = rw h (refl, λ q. cc, refl, refl)
turn_of_stopped (executing []) t h e n m = (h, λ q. cc, refl, refl)
turn_of_stopped (executing (c ∷ cs)) t h e n m = (h, λ q. cc, append_assoc t.log (c ∷ []) cs, refl)
turn_of_stopped finished t h e n m = absurd (m refl)

turn_stopped :
    (t : Timer)
    → t.running ≡ false
    → t.phase ≢ idle
    → t.phase ≢ finished
    → ((turn t).running ≡ false)
      × ((turn t).phase ≢ idle)
      × (due (turn t) ≡ due t)
      × (suc (steps_left (turn t).phase) ≡ steps_left t.phase)
unfolding turn
turn_stopped t h n m = turn_of_stopped t.phase t h refl n m

is_finished_lem : (p : Phase) → is_finished p ≡ true → p ≡ finished
is_finished_lem finished e = refl
is_finished_lem idle e = cc
is_finished_lem waiting e = cc
is_finished_lem (executing cs) e = cc

finished_log : (t : Timer) → t.phase ≡ finished → t.log ≡ due t
finished_log t e =
    sym (append-nil t.log) ∙ subst (λ p. t.log ++ [] ≡ t.log ++ remaining p) (sym e) refl

join_stopped :
    (others : List (List ℕ)) (t : Timer)
    → t.running ≡ false
    → t.phase ≢ idle
    → steps_left t.phase < length others
    → (u : Timer) × (join others t ≡ some u) × (u.phase ≡ finished) × (u.log ≡ due t)
unfolding join
join_stopped [] t h n lt = absurd (omega arith)
join_stopped (cs ∷ others) t h n lt = elim (Bool-cases (is_finished t.phase)) [
  | inl e ↦
      let ended = is_finished_lem t.phase e in (t, rw (e, join) refl, ended, finished_log t ended)
  | inr e ↦
      let (r, same, log) = add_all_frame cs t in
      let s = add_all cs t in
      let goes_on : (add_all cs t).phase ≢ finished = λ q. cc (e, ap is_finished (sym same ∙ q)) in
      let (h', n', d, fewer) = turn_stopped s (r ∙ h) (λ i. n (sym same ∙ i)) goes_on in
      let (v, ends, done, calls) =
        join_stopped others (turn s) h' n' (omega (arith, fewer, lt, ap steps_left same)) in
      (
        v,
        rw (e, join) ends,
        done,
        calls ∙ d ∙ ap (λ l. l ++ remaining s.phase) log ∙ ap (λ q. t.log ++ remaining q) same,
      )
]

-- `waitForStop` of a timer whose thread was started, running or told to stop before, returns as soon as
-- the thread has taken the steps that are left, whatever callbacks other threads add meanwhile: the
-- thread is at its end, and just the rest of the loop that was under way was called, in order, and
-- nothing else.
pub wait_for_stop_lem :
    (others : List (List ℕ)) (t : Timer)
    → t.phase ≢ idle
    → length (remaining t.phase) + 2 < length others
    → (u : Timer) × (wait_for_stop others t ≡ some u)
      × (u.phase ≡ finished)
      × (u.log ≡ t.log ++ remaining t.phase)
unfolding wait_for_stop stop_running
wait_for_stop_lem others t n lt = join_stopped others (stop_running t) refl n (few t.phase lt)
  where
    few : (p : Phase) → length (remaining p) + 2 < length others → steps_left p < length others
    few idle lt' = omega arith
    few waiting lt' = omega arith
    few (executing cs) lt' = omega arith
    few finished lt' = omega arith
