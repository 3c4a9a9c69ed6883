-- ===== src/Reporter/Status.antt =====
-- `reportStatus` of src/StatusReporter.cpp, the report of its timer.
use forward_epics_to_kafka.Base.{
  ℕ, ◌+◌, ◌≤◌, ◌≡◌, refl, String, Bool, true, false, List, [], ◌∷◌, ◌++◌, length, length-append,
  arith, leb, if◌then◌else◌,
}
use forward_epics_to_kafka.Json.{Json, string, object, end, member}
use forward_epics_to_kafka.Stream.{ClientApi}
use forward_epics_to_kafka.Streams.{Streams, get_stream_statuses, check_stream_status}
use forward_epics_to_kafka.Reporter.{
  Phase, waiting, reporting, finished, Reporter, construct, fire, turn_of, turn, stop, thread,
  passed, changed, stopping, ◌⟶*◌, here, next,
}

-- The streams, and what was handed to the producer of the status, in order.
pub record Reported (C : Type 0) : Type 0 where
  pub streams : Streams C
  pub sent : List String

-- `given` says whether there is a producer for the status.
module _ {C : Type 0} (api : ClientApi C) (show : ℕ → String) (dump : Json → String)
    (service_id : String) (given : Bool) where
  unfoldable pub status : Streams C → Json
  unfolding get_stream_statuses
  status st = object (
      member "service_id" (string service_id)
        (member "streams" (get_stream_statuses api show st) end))

  unfoldable pub report_status : Reported C → Reported C × Bool
  unfolding status
  report_status w =
      if given
      then (
        record {
          streams = check_stream_status api w.streams;
          sent = w.sent ++ dump (status w.streams) ∷ [];
        },
        true,
      )
      else (w, false)

module _ {W : Type 0} (period : ℕ) (report : W → W × Bool) where
  abbrev one_if : Bool → ℕ
  one_if true = 1
  one_if false = 0

  abbrev Once : Reporter W → Type 0
  Once r = length r.times + one_if r.pending ≤ 1

  wait_ends :
      (stopped pending over : Bool) (r : Reporter W)
      → r.pending ≡ pending
      → Once r
      → Once (
          if stopped
          then record r { phase = finished }
          else if pending
          then (if over then fire period report r else r)
          else record r { phase = finished })
  wait_ends true pending over r p h = h
  wait_ends false false over r p h = h
  wait_ends false true false r p h = h
  wait_ends false true true r p h =
      let one : one_if r.pending ≡ 1 = rw p refl in
      omega (arith, h, one, length-append r.times (r.now ∷ []))

  step-Once :
      (p : Phase) (r : Reporter W)
      → ((w : W) → (report w).1 ≡ false)
      → Once r
      → Once (turn_of period report p r)
  step-Once waiting r never h = wait_ends r.stopped r.pending (leb r.expiry r.now) r refl h
  step-Once reporting r never h = rw (never r.world) (omega (arith, h))
  step-Once finished r never h = h

  steps-Once :
      (r s : Reporter W)
      → ◌⟶*◌ period report r s
      → ((w : W) → (report w).1 ≡ false)
      → Once r
      → Once s
  unfolding turn stop
  steps-Once r s here never h = h
  steps-Once r s (next thread rest) never h =
      steps-Once (turn period report r) s rest never (step-Once r.phase r never h)
  steps-Once r s (next (passed d) rest) never h =
      steps-Once (record r { now = r.now + d }) s rest never h
  steps-Once r s (next (changed f) rest) never h =
      steps-Once (record r { world = f r.world }) s rest never h
  steps-Once r s (next stopping rest) never h = steps-Once (stop period report r) s rest never h

-- Without a status topic the first report sets no other: whatever the thread, the clock and the other
-- threads did since the reporter was constructed, no second report has begun.
pub status_once :
    {C : Type 0} (api : ClientApi C) (show : ℕ → String) (dump : Json → String)
    (service_id : String) (period start : ℕ) (w : Reported C) (r : Reporter (Reported C))
    → (let report = report_status api show dump service_id false in
        ◌⟶*◌ period report (construct period report start w) r)
    → length r.times ≤ 1
unfolding report_status construct
status_once api show dump service_id period start w r steps =
    let report = report_status api show dump service_id false in
    let once : Once period report r =
      steps-Once period report (construct period report start w) r steps (λ w. refl)
        (omega arith) in
    omega (arith, once)
