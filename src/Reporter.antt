-- ===== src/Reporter.antt =====
-- The timers of src/MetricsReporter.cpp and src/StatusReporter.cpp: the constructors, the end of
-- `reportMetrics` and `reportStatus`, and the destructors, step by step, beside the clock and the other
-- threads. Of asio the model uses that a wait which is pending calls its handler at or after its time
-- and not after `stop`, and that `run` returns when it is stopped or no wait is pending.
pub mod Schedule
pub mod Stops
pub mod Status
use forward_epics_to_kafka.Base.{
  ℕ, ◌+◌, Bool, true, false, Option, none, some, List, [], ◌∷◌, ◌++◌, if◌then◌else◌, leb,
}

-- Where the thread is: in a wait, in a report, or done with `run`.
pub data Phase : Type 0 where
  waiting reporting finished : Phase

-- `times` has when the reports began, and `world` what they read and write.
pub record Reporter (W : Type 0) : Type 0 where
  pub expiry : ℕ
  pub pending : Bool
  pub stopped : Bool
  pub phase : Phase
  pub now : ℕ
  pub times : List ℕ
  pub world : W

-- `report` says also whether the timer is set again.
module _ {W : Type 0} (period : ℕ) (report : W → W × Bool) where
  unfoldable pub construct : ℕ → W → Reporter W
  construct now w = record {
    expiry = now + period;
    pending = true;
    stopped = false;
    phase = waiting;
    now = now;
    times = [];
    world = w;
  }

  -- The handler is called.
  abbrev pub fire : Reporter W → Reporter W
  fire r = record r { phase = reporting; pending = false; times = r.times ++ r.now ∷ [] }

  -- The report, and the next wait.
  abbrev pub finish_report : Reporter W → Reporter W
  finish_report r =
      let (w, again) = report r.world in
      record r {
        phase = waiting;
        world = w;
        expiry = if again then r.expiry + period else r.expiry;
        pending = again;
      }

  abbrev pub turn_of : Phase → Reporter W → Reporter W
  turn_of waiting r =
      if r.stopped
      then record r { phase = finished }
      else if r.pending
      then (if leb r.expiry r.now then fire r else r)
      else record r { phase = finished }
  turn_of reporting r = finish_report r
  turn_of finished r = r

  -- A step of the thread in `run`.
  unfoldable pub turn : Reporter W → Reporter W
  turn r = turn_of r.phase r

  -- `IO.stop()`.
  unfoldable pub stop : Reporter W → Reporter W
  stop r = record r { stopped = true }

  abbrev pub is_finished : Phase → Bool
  is_finished finished = true
  is_finished _ = false

  -- `join`: the thread goes on until it is done. Before each of its steps the clock goes on and other
  -- threads change what it reads; `none` means that it is not done after all these steps.
  unfoldable pub join : List (ℕ × (W → W)) → Reporter W → Option (Reporter W)
  unfolding turn
  join [] r = none
  join ((d, f) ∷ others) r = elim (is_finished r.phase) [
    | true ↦ some r
    | false ↦ join others (turn (record r { now = r.now + d; world = f r.world }))
  ]

  -- The destructor; a report that is under way is taken to return.
  unfoldable pub destroy : List (ℕ × (W → W)) → Reporter W → Option (Reporter W)
  unfolding stop join
  destroy others r = join others (stop r)

  -- What the thread, the clock and the others do next.
  infix 40 ◌⟶◌ ◌⟶*◌
  pub data ◌⟶◌ : Reporter W → Reporter W → Type 0 where
    thread : {r : Reporter W} → r ⟶ turn r
    passed : {r : Reporter W} (d : ℕ) → r ⟶ record r { now = r.now + d }
    changed : {r : Reporter W} (f : W → W) → r ⟶ record r { world = f r.world }
    stopping : {r : Reporter W} → r ⟶ stop r

  pub data ◌⟶*◌ : Reporter W → Reporter W → Type 0 where
    here : {r : Reporter W} → r ⟶* r
    next : {r s t : Reporter W} → r ⟶ s → s ⟶* t → r ⟶* t
