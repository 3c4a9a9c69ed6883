-- ===== src/MainLoop/Shutdown.antt =====
-- How the main loop ends, and what is left then.
use forward_epics_to_kafka.Base.{
  ◌==◌, ◌≡◌, refl, sym, ◌∙◌, ap, Bool, true, false, ◌&&◌, some, List, [], ◌∷◌, ◌++◌, ok, arith,
}
use forward_epics_to_kafka.Streams.{clear_streams}
use forward_epics_to_kafka.Forwarder.{ForwarderState}
use forward_epics_to_kafka.Forwarder.Flag.{
  ForwardingRunState, is_stop_due_to_signal, raise_all, raise_all_lem, all_run, any_signal,
}
use forward_epics_to_kafka.Kafka.Consumer.{
  PollStatus, status_message, status_empty, status_end_of_partition, status_error, listen,
}
use forward_epics_to_kafka.CommandHandler.{Event, message, on_message, event, events}
use forward_epics_to_kafka.CommandHandler.Events.{raised_by_events, all_raises}
use forward_epics_to_kafka.MainOpt.{MainOpt}
use forward_epics_to_kafka.MainLoop.{
  MainState, Environment, Round, stopped, conversion_workers_clear, start_threads, turn, main_loop,
  shut_down, ended, status_topic, loop_behind, forward,
}

module _ {C K : Type 0} (env : Environment C K) where
  abbrev polled_events : PollStatus → List Event
  polled_events (status_message text) = message text ∷ []
  polled_events _ = []

  -- The events of a turn, in order, and what they raise.
  abbrev pub events_of : Round → List Event
  events_of r = r.before ++ polled_events r.polled ++ r.after

  abbrev pub raised : Round → List ForwardingRunState
  raised r = all_raises env.setup env.json env.auto_name (events_of r)

  -- Nothing is raised but RUN.
  abbrev pub quiet : Round → Bool
  quiet r = all_run (raised r)

  abbrev pub all_quiet : List Round → Bool
  all_quiet [] = true
  all_quiet (r ∷ rs) = quiet r && all_quiet rs

  events-append :
      (xs ys : List Event) (s : ForwarderState C K)
      → events env.setup env.json env.auto_name (xs ++ ys) s
        ≡ events env.setup env.json env.auto_name ys (events env.setup env.json env.auto_name xs s)
  unfolding events
  events-append [] ys s = refl
  events-append (x ∷ xs) ys s = events-append xs ys (event env.setup env.json env.auto_name x s)

  listen-events :
      (p : PollStatus) (s : ForwarderState C K)
      → listen (on_message env.setup env.json env.auto_name) p s
        ≡ events env.setup env.json env.auto_name (polled_events p) s
  unfolding listen events event
  listen-events (status_message text) s = refl
  listen-events status_empty s = refl
  listen-events status_end_of_partition s = refl
  listen-events status_error s = refl

  turn-events :
      (r : Round) (m : MainState C K)
      → (turn env r m).forwarder ≡ events env.setup env.json env.auto_name (events_of r) m.forwarder
  unfolding turn
  turn-events r m =
      let run = events env.setup env.json env.auto_name in
      ap (run r.after) (listen-events r.polled (run r.before m.forwarder))
      ∙ ap (run r.after) (sym (events-append r.before (polled_events r.polled) m.forwarder))
      ∙ sym (events-append (r.before ++ polled_events r.polled) r.after m.forwarder)

  turn_flag :
      (r : Round) (m : MainState C K)
      → m.forwarder.flag ≡ 0
      → (turn env r m).forwarder.flag ≡ raise_all (raised r) 0
  turn_flag r m z =
      ap (λ s. s.flag) (turn-events r m)
      ∙ raised_by_events env.setup env.json env.auto_name (events_of r) m.forwarder
      ∙ ap (raise_all (raised r)) z

  abbrev pub turn_all : List Round → MainState C K → MainState C K
  turn_all [] m = m
  turn_all (r ∷ rs) m = turn_all rs (turn env r m)

  loop_stopped :
      (qs : List Round) (m : MainState C K)
      → (m.forwarder.flag == 0) ≡ false
      → main_loop env qs m ≡ (m, true)
  unfolding main_loop
  loop_stopped [] m h = rw h refl
  loop_stopped (q ∷ qs) m h = rw h refl

  -- The loop ends before the turn after the one in which something is raised.
  main_loop_lem :
      (rs : List Round) (r : Round) (qs : List Round) (m : MainState C K)
      → m.forwarder.flag ≡ 0
      → all_quiet rs ≡ true
      → quiet r ≡ false
      → (main_loop env (rs ++ r ∷ qs) m ≡ (turn_all (rs ++ r ∷ []) m, true))
        × (is_stop_due_to_signal (turn_all (rs ++ r ∷ []) m).forwarder.flag ≡ any_signal (raised r))
  unfolding main_loop
  main_loop_lem [] r qs m z h q =
      let flag = turn_flag r m z in
      let (halts, signal) = raise_all_lem (raised r) in
      let running : (m.forwarder.flag == 0) ≡ true = ground (arith, z) in
      (
        rw running (loop_stopped qs (turn env r m) (ap (λ f. f == 0) flag ∙ halts ∙ q)),
        ap is_stop_due_to_signal flag ∙ signal,
      )
  main_loop_lem (p ∷ ps) r qs m z h q =
      let flag = turn_flag p m z in
      let (halts, signal) = raise_all_lem (raised p) in
      let quiet_p : quiet p ≡ true = ground (arith, h) in
      let goes_on : (turn env p m).forwarder.flag ≡ 0 = ground (arith, flag, halts, quiet_p) in
      let running : (m.forwarder.flag == 0) ≡ true = ground (arith, z) in
      let (same, last) = main_loop_lem ps r qs (turn env p m) goes_on (ground (arith, h)) q in
      (rw running same, last)

  -- What is left when the main loop ended: no worker, no stream, no timer that runs; and the reason is
  -- told.
  pub record Stopped (r : Round) (m : MainState C K) : Type 0 where
    pub workers : m.conversion_workers ≡ []
    pub streams : m.forwarder.streams.stream_pointers ≡ []
    pub timers : (m.pv_running ≡ false) × (m.fake_running ≡ false)
    pub status : m.forwarding_status ≡ stopped
    pub reason : m.stopped_by_signal ≡ any_signal (raised r)

  shut_down-Stopped :
      (r : Round) (m : MainState C K)
      → is_stop_due_to_signal m.forwarder.flag ≡ any_signal (raised r)
      → Stopped r (shut_down env m)
  unfolding shut_down conversion_workers_clear clear_streams
  shut_down-Stopped r m e = record {
    workers = refl;
    streams = refl;
    timers = (refl, refl);
    status = refl;
    reason = e;
  }

  -- A forwarder whose status topic, if any, can be made runs through the turns in which nothing is
  -- raised, and returns after the first in which an exit command or a signal is, whatever would come
  -- then. It leaves no worker and no stream and says whether a signal was the reason.
  pub forward-Stopped :
      (o : MainOpt) (rs : List Round) (r : Round) (qs : List Round) (m : MainState C K)
      → m.forwarder.flag ≡ 0
      → status_topic env o m ≡ ok tt
      → all_quiet rs ≡ true
      → quiet r ≡ false
      → (m' : MainState C K) × (forward env o (rs ++ r ∷ qs) m ≡ some (m', ok tt)) × Stopped r m'
  unfolding forward start_threads
  forward-Stopped o rs r qs m z t h q =
      let (same, reason) = main_loop_lem rs r qs (start_threads env m) z h q in
      let last = turn_all (rs ++ r ∷ []) (start_threads env m) in
      (
        shut_down env last,
        ap (λ x. loop_behind env x (rs ++ r ∷ qs) (start_threads env m)) t ∙ ap (ended env) same,
        shut_down-Stopped r last reason,
      )
