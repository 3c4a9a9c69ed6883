-- ===== src/Reporter/Schedule.antt =====
-- When the reports of src/MetricsReporter.cpp and src/StatusReporter.cpp begin.
use forward_epics_to_kafka.Base.{
  ℕ, zero, suc, ◌+◌, ◌≤◌, ◌≡◌, refl, Bool, true, false, List, [], ◌∷◌, ◌++◌, length, length-append,
  arith, leb, if◌then◌else◌, subst,
}
use forward_epics_to_kafka.Reporter.{
  Phase, waiting, reporting, finished, Reporter, construct, fire, finish_report, turn_of, turn,
  stop, ◌⟶◌, thread, passed, changed, stopping, ◌⟶*◌, here, next,
}

module _ {W : Type 0} (period : ℕ) (report : W → W × Bool) (start : ℕ) where
  -- `k` periods after the start.
  abbrev pub deadline : ℕ → ℕ
  deadline zero = start
  deadline (suc k) = deadline k + period

  -- The reports after the k-th began at their deadlines or later.
  abbrev pub OnTime : ℕ → List ℕ → Type 0
  OnTime k [] = Unit
  OnTime k (t ∷ ts) = (deadline (suc k) ≤ t) × OnTime (suc k) ts

  OnTime-append :
      (k t : ℕ) (ts : List ℕ)
      → OnTime k ts
      → deadline (suc (k + length ts)) ≤ t
      → OnTime k (ts ++ t ∷ [])
  OnTime-append k t [] h late = (subst (λ n. deadline (suc n) ≤ t) (omega arith) late, tt)
  OnTime-append k t (u ∷ ts) h late =
      (h.0, OnTime-append (suc k) t ts h.1 (subst (λ n. deadline (suc n) ≤ t) (omega arith) late))

  -- The timer does not drift: the next report is due one period after the last deadline, however late
  -- that report was and however long it took.
  pub record IsScheduled (r : Reporter W) : Type 0 where
    pub on_time : OnTime 0 r.times
    pub elapsed : deadline (length r.times) ≤ r.now
    pub due : r.pending ≡ true → r.expiry ≡ deadline (suc (length r.times))
    pub under_way : r.phase ≡ reporting → r.expiry ≡ deadline (length r.times)
    pub free : r.phase ≡ reporting → r.pending ≡ false

  construct-IsScheduled : (w : W) → IsScheduled (construct period report start w)
  unfolding construct
  construct-IsScheduled w = record {
    on_time = tt;
    elapsed = omega arith;
    due = λ e. refl;
    under_way = λ e. cc;
    free = λ e. cc;
  }

  ended : (r : Reporter W) → IsScheduled r → IsScheduled (record r { phase = finished })
  ended r h = record {
    on_time = h.on_time;
    elapsed = h.elapsed;
    due = h.due;
    under_way = λ e. cc;
    free = λ e. cc;
  }

  fire-IsScheduled :
      (r : Reporter W)
      → IsScheduled r
      → r.pending ≡ true
      → r.expiry ≤ r.now
      → IsScheduled (fire period report r)
  fire-IsScheduled r h p late =
      let one_more : length (r.times ++ r.now ∷ []) ≡ suc (length r.times) =
        omega (arith, length-append r.times (r.now ∷ [])) in
      let at = h.due p in
      let past : deadline (suc (length r.times)) ≤ r.now = omega (arith, at, late) in
      record {
        on_time =
            OnTime-append 0 r.now r.times h.on_time
              (subst (λ n. deadline (suc n) ≤ r.now) (omega arith) past);
        elapsed = rw one_more (omega (arith, at, late));
        due = λ e. cc;
        under_way = λ e. rw one_more at;
        free = λ e. refl;
      }

  finish_report-IsScheduled :
      (r : Reporter W)
      → IsScheduled r
      → r.phase ≡ reporting
      → IsScheduled (finish_report period report r)
  finish_report-IsScheduled r h e = record {
    on_time = h.on_time;
    elapsed = h.elapsed;
    due = λ again. rw again (omega (arith, h.under_way e));
    under_way = λ e'. cc;
    free = λ e'. cc;
  }

  wait_ends :
      (stopped pending over : Bool) (r : Reporter W)
      → r.pending ≡ pending
      → leb r.expiry r.now ≡ over
      → IsScheduled r
      → IsScheduled (
          if stopped
          then record r { phase = finished }
          else if pending
          then (if over then fire period report r else r)
          else record r { phase = finished })
  wait_ends true pending over r p o h = ended r h
  wait_ends false false over r p o h = ended r h
  wait_ends false true false r p o h = h
  wait_ends false true true r p o h = fire-IsScheduled r h p (ground (arith, o))

  turn_of-IsScheduled :
      (p : Phase) (r : Reporter W)
      → r.phase ≡ p
      → IsScheduled r
      → IsScheduled (turn_of period report p r)
  turn_of-IsScheduled finished r e h = h
  turn_of-IsScheduled reporting r e h = finish_report-IsScheduled r h e
  turn_of-IsScheduled waiting r e h = wait_ends r.stopped r.pending _ r refl refl h

  step-IsScheduled : (r s : Reporter W) → ◌⟶◌ period report r s → IsScheduled r → IsScheduled s
  unfolding turn stop
  step-IsScheduled r s thread h = turn_of-IsScheduled r.phase r refl h
  step-IsScheduled r s (passed d) h = record {
    on_time = h.on_time;
    elapsed = omega (arith, h.elapsed);
    due = h.due;
    under_way = h.under_way;
    free = h.free;
  }
  step-IsScheduled r s (changed f) h = record {
    on_time = h.on_time;
    elapsed = h.elapsed;
    due = h.due;
    under_way = h.under_way;
    free = h.free;
  }
  step-IsScheduled r s stopping h = record {
    on_time = h.on_time;
    elapsed = h.elapsed;
    due = h.due;
    under_way = h.under_way;
    free = h.free;
  }

  steps-IsScheduled : (r s : Reporter W) → ◌⟶*◌ period report r s → IsScheduled r → IsScheduled s
  steps-IsScheduled r s here h = h
  steps-IsScheduled r s (next {s = t} step rest) h =
      steps-IsScheduled t s rest (step-IsScheduled r t step h)

  -- Whatever the thread, the clock and the other threads did since a reporter was constructed: the
  -- k-th report began at the k-th deadline or later, a period apart from the start on, so that no more
  -- reports began than periods have passed. The next one is due at the deadline behind, however late
  -- the last one was and however long it took.
  pub construct-IsScheduled_later :
      (w : W) (r : Reporter W)
      → ◌⟶*◌ period report (construct period report start w) r
      → IsScheduled r
  construct-IsScheduled_later w r s =
      steps-IsScheduled (construct period report start w) r s (construct-IsScheduled w)
