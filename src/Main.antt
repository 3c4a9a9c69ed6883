-- ===== src/Main.antt =====
-- src/Main.cpp: how the process ends.
pub mod Exits
pub mod Signals
use forward_epics_to_kafka.Base.{
  ℕ, ◌==◌, ◌≡◌, String, Bool, true, false, Option, none, some, List, [], ◌∷◌, ◌++◌, map, replicate,
  Void, ◌||◌, Result, ok, err, ◌>>=◌, Exception, runtime_error, is_empty, ltb, if◌then◌else◌,
}
use forward_epics_to_kafka.ConfigParser.{StreamSettings}
use forward_epics_to_kafka.Streams.{Streams, clear_streams}
use forward_epics_to_kafka.Forwarder.{Setup, ForwarderState, add_mapping}
use forward_epics_to_kafka.Forwarder.Flag.{is_stop_due_to_signal}
use forward_epics_to_kafka.Kafka.Consumer.{
  TopicMetadata, PollStatus, add_topic, make_listener, listen,
}
use forward_epics_to_kafka.CommandHandler.{JsonLibrary, Event, on_message, events}
use forward_epics_to_kafka.MainOpt.{MainOpt, ParseOptRet, success, version_requested, error}
use forward_epics_to_kafka.MainLoop.{MainState, Environment, Round, construct, forward, destroy}

-- How the process ends: with a code, or by `std::terminate`, for an exception that nobody catches or
-- for the thread of a timer that is destroyed before it was joined.
pub data Exit : Type 0 where
  exit_code : ℕ → Exit
  uncaught : Exception → Exit
  thread_not_joined : Exit

module _ {C K : Type 0} (env : Environment C K) where
  -- `return n`, which destroys the forwarder and its timers.
  abbrev pub return_code : ℕ → MainState C K → Exit
  return_code n m =
      let m' = destroy env m in
      if m'.pv_running || m'.fake_running then thread_not_joined else exit_code n

  -- The `try` block and its handlers.
  abbrev pub returned : MainState C K × Result Void → Exit
  returned (m, ok u) = return_code 0 m
  returned (m, err e) = return_code 1 m

  abbrev pub run_forwarder : MainOpt → List Round → Result (MainState C K) → Option Exit
  run_forwarder o rs (err e) = some (uncaught e)
  run_forwarder o rs (ok m) = elim (forward env o rs m) [ none ↦ none | some r ↦ some (returned r) ]

  -- `main` behind `parse_opt`; `none` is a process that still runs.
  unfoldable pub main : Result (ParseOptRet × MainOpt) → List Round → Option Exit
  unfolding construct forward destroy
  main (err e) rs = some (uncaught e)
  main (ok (version_requested, o)) rs = some (exit_code 0)
  main (ok (error, o)) rs = some (exit_code 1)
  main (ok (success, o)) rs = run_forwarder o rs (construct env o)
