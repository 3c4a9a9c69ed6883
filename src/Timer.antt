-- ===== src/Timer.antt =====
-- src/Timer.h and src/Timer.cpp: the timer's thread beside the thread that adds callbacks and stops it.
-- A callback is a number. Of asio the model uses that a wait which is pending ends, by its time or by
-- `cancel`, and then calls its handler; and that `run` returns when no wait is pending.
pub mod Stops
use forward_epics_to_kafka.Base.{
  ℕ, Bool, true, false, Option, none, some, List, [], ◌∷◌, ◌++◌, if◌then◌else◌,
}

-- Where the thread is: not started, in a wait, in `executeCallbacks` with the callbacks that are left
-- of the loop, whose lock it holds, or done with `run`.
pub data Phase : Type 0 where
  idle waiting finished : Phase
  executing : List ℕ → Phase

-- `log` has the callbacks that were called, in order.
pub record Timer : Type 0 where
  pub running : Bool
  pub callbacks : List ℕ
  pub phase : Phase
  pub log : List ℕ

unfoldable pub new_timer : Timer
new_timer = record { running = false; callbacks = []; phase = idle; log = [] }

abbrev pub turn_of : Phase → Timer → Timer
turn_of idle t = t
turn_of waiting t = record t { phase = if t.running then executing t.callbacks else finished }
turn_of (executing []) t = record t { phase = waiting }
turn_of (executing (c ∷ cs)) t = record t { phase = executing cs; log = t.log ++ c ∷ [] }
turn_of finished t = t

-- One step of the thread in `executeCallbacks`: the test of `Running` when a wait ends, a call of a
-- callback, or the next wait.
unfoldable pub turn : Timer → Timer
turn t = turn_of t.phase t

unfoldable pub start : Timer → Timer
start t = record t { running = true; phase = waiting }

-- The first two lines of `waitForStop`: a wait that is canceled ends as others do.
unfoldable pub stop_running : Timer → Timer
stop_running t = record t { running = false }

-- `addCallback`, whose lock is free unless callbacks are being called.
unfoldable pub add_callback : ℕ → Timer → Timer
add_callback c t = record t { callbacks = t.callbacks ++ c ∷ [] }

-- What is left of the loop over the callbacks.
abbrev pub remaining : Phase → List ℕ
remaining (executing cs) = cs
remaining _ = []

abbrev pub locked : Phase → Bool
locked (executing cs) = true
locked _ = false

-- Other threads add callbacks where the lock is free; where it is not they wait for it.
abbrev pub add_all : List ℕ → Timer → Timer
add_all [] t = t
add_all (c ∷ cs) t = add_all cs (if locked t.phase then t else add_callback c t)

abbrev pub is_finished : Phase → Bool
is_finished finished = true
is_finished _ = false

-- `join`: the thread goes on until it is done, and before each of its steps other threads add callbacks.
-- `none` means that it is not done after all these steps.
unfoldable pub join : List (List ℕ) → Timer → Option Timer
unfolding turn
join [] t = none
join (cs ∷ others) t = elim (is_finished t.phase) [
  | true ↦ some t
  | false ↦ join others (turn (add_all cs t))
]

unfoldable pub wait_for_stop : List (List ℕ) → Timer → Option Timer
unfolding stop_running join
wait_for_stop others t = join others (stop_running t)
