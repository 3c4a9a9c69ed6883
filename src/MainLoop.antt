-- ===== src/MainLoop.antt =====
-- The constructor, the destructor and forward_epics_to_kafka of src/Forwarder.cpp. The
-- mappings are those of Forwarder, the commands those of CommandHandler, and a timer's own steps are in
-- Timer. What librdkafka answers, and what other threads do meanwhile, are arguments.
pub mod Mapped
pub mod Startup
pub mod Shutdown
use forward_epics_to_kafka.Base.{
  ℕ, ◌==◌, ◌≡◌, String, Bool, true, false, Option, none, some, List, [], ◌∷◌, ◌++◌, map, replicate,
  Void, ◌||◌, Result, ok, err, ◌>>=◌, Exception, runtime_error, is_empty, ltb, if◌then◌else◌,
}
use forward_epics_to_kafka.ConfigParser.{StreamSettings}
use forward_epics_to_kafka.Streams.{Streams, clear_streams}
use forward_epics_to_kafka.Forwarder.{Setup, ForwarderState, add_mapping}
use forward_epics_to_kafka.Forwarder.Flag.{is_stop_due_to_signal}
use forward_epics_to_kafka.Kafka.Consumer.{
  TopicMetadata, PollStatus, add_topic, make_listener, listen,
}
use forward_epics_to_kafka.CommandHandler.{JsonLibrary, Event, on_message, events}
use forward_epics_to_kafka.MainOpt.{MainOpt, ParseOptRet, success, version_requested, error}

pub data ForwardingStatus : Type 0 where
  normal stopped : ForwardingStatus

-- A `Forwarder` with its threads: of a worker whether it runs, of a timer whether it is `Running`.
pub record MainState (C K : Type 0) : Type 0 where
  pub forwarder : ForwarderState C K
  pub conversion_workers : List Bool
  pub config_partitions : List (ℕ × ℕ)
  pub pv_running : Bool
  pub fake_running : Bool
  pub status_producer : Option String
  pub forwarding_status : ForwardingStatus
  -- The lines that the end of the main loop logs: whether a signal was the reason.
  pub stopped_by_signal : Bool

-- What a forwarder is made with: the clients' store and the producers before it, what the broker tells
-- of the command topic, and whether the consumer, the producer and the topic can be made (Kafka).
pub record Environment (C K : Type 0) : Type 0 where
  pub setup : Setup C K
  pub json : JsonLibrary
  pub auto_name : ℕ → String
  pub clients : ℕ → C
  pub kafka : K
  pub metadata : Option (List TopicMetadata)
  pub high : ℕ → ℕ
  pub assigned : Bool
  pub makes_consumer : String → Bool
  pub makes_producer : String → Bool
  pub makes_topic : String → String → Bool

-- One turn of the main loop: what the listener's poll gives, and the events of other threads before
-- and after it.
pub record Round : Type 0 where
  pub before : List Event
  pub polled : PollStatus
  pub after : List Event

module _ {C K : Type 0} (env : Environment C K) where
  -- The loop of the constructor: every exception is caught.
  unfoldable pub add_streams : List StreamSettings → ForwarderState C K → ForwarderState C K
  add_streams [] s = s
  add_streams (i ∷ is) s = add_streams is (add_mapping env.setup i s).0

  abbrev pub timer_if : {A : Type 0} → ℕ → Option (List A)
  timer_if period = if ltb 0 period then some [] else none

  unfoldable pub new_forwarder : MainOpt → ForwarderState C K
  new_forwarder o = record {
    streams = record { stream_pointers = []; clients = env.clients };
    next_client = 0;
    converters = [];
    next_converter = 0;
    kafka = env.kafka;
    pv_update_timer = timer_if o.period_ms;
    fake_pv_timer = timer_if o.fake_pv_period_ms;
    flag = 0;
  }

  unfoldable pub create_config_listener : MainOpt → Result (List (ℕ × ℕ))
  unfolding add_topic make_listener
  create_config_listener o =
      if env.makes_consumer o.broker_config.host_port
      then make_listener (add_topic env.metadata env.high env.assigned o.broker_config.topic)
      else err (runtime_error "can not create Kafka consumer")

  unfoldable pub make_status_producer : MainOpt → Result (Option String)
  make_status_producer o =
      let host = o.status_report_uri.host_port in
      if is_empty host
      then ok none
      else (if env.makes_producer host
          then ok (some host)
          else err (runtime_error "can not create Kafka handle"))

  abbrev pub new_main : MainOpt → List (ℕ × ℕ) → Option String → MainState C K
  new_main o partitions producer = record {
    forwarder = add_streams o.streams_info (new_forwarder o);
    conversion_workers = replicate o.conversion_threads false;
    config_partitions = partitions;
    pv_running = false;
    fake_running = false;
    status_producer = producer;
    forwarding_status = normal;
    stopped_by_signal = false;
  }

  -- The constructor.
  unfoldable pub construct : MainOpt → Result (MainState C K)
  unfolding new_forwarder create_config_listener make_status_producer add_streams
  construct o = create_config_listener o >>= λ partitions.
      make_status_producer o >>= λ producer. ok (new_main o partitions producer)

  -- All workers are stopped and destroyed.
  unfoldable pub conversion_workers_clear : MainState C K → MainState C K
  conversion_workers_clear m = record m { conversion_workers = [] }

  -- It is the list of workers that is tested and cleared.
  unfoldable pub converters_clear : MainState C K → MainState C K
  converters_clear m = record m { conversion_workers = [] }

  abbrev pub clear : MainState C K → MainState C K
  clear m = record m {
    forwarder = record m.forwarder { streams = clear_streams env.setup.api m.forwarder.streams };
  }

  -- `~Forwarder`.
  unfoldable pub destroy : MainState C K → MainState C K
  unfolding conversion_workers_clear converters_clear
  destroy m = converters_clear (conversion_workers_clear (clear m))

  abbrev pub is_timer : {A : Type 0} → Option A → Bool
  is_timer none = false
  is_timer (some a) = true

  -- The workers and the timers are started.
  unfoldable pub start_threads : MainState C K → MainState C K
  start_threads m = record m {
    conversion_workers = map (λ w. true) m.conversion_workers;
    pv_running = is_timer m.forwarder.pv_update_timer;
    fake_running = is_timer m.forwarder.fake_pv_timer;
  }

  abbrev pub on_forwarder :
      (ForwarderState C K → ForwarderState C K) → MainState C K → MainState C K
  on_forwarder f m = record m { forwarder = f m.forwarder }

  -- The body of the loop; the polls of the producers are events of Kafka.
  unfoldable pub turn : Round → MainState C K → MainState C K
  unfolding events listen
  turn r m =
      on_forwarder
        (λ s. events env.setup env.json env.auto_name r.after (
          listen (on_message env.setup env.json env.auto_name) r.polled
            (events env.setup env.json env.auto_name r.before s)))
        m

  -- The loop, over what happens in its turns; the flag says whether it ended.
  unfoldable pub main_loop : List Round → MainState C K → MainState C K × Bool
  unfolding turn
  main_loop [] m = (m, if m.forwarder.flag == 0 then false else true)
  main_loop (r ∷ rs) m =
      let rest = main_loop rs (turn r m) in if m.forwarder.flag == 0 then rest else (m, true)

  -- What follows the loop. `waitForStop` leaves a timer that does not run.
  unfoldable pub shut_down : MainState C K → MainState C K
  unfolding conversion_workers_clear
  shut_down m =
      record (clear (
        conversion_workers_clear
          (record m { stopped_by_signal = is_stop_due_to_signal m.forwarder.flag }))) {
            pv_running = false;
            fake_running = false;
            forwarding_status = stopped;
          }

  -- `none`: the loop does not end with these turns.
  abbrev pub ended : MainState C K × Bool → Option (MainState C K × Result Void)
  ended (m, true) = some (shut_down m, ok tt)
  ended (m, false) = none

  -- The topic of the status is made when the threads run already.
  abbrev pub status_topic : MainOpt → MainState C K → Result Void
  status_topic o m = elim m.status_producer [
    | none ↦ ok tt
    | some broker ↦
        if env.makes_topic broker o.status_report_uri.topic
        then ok tt
        else err (runtime_error "Can not create Kafka topic")
  ]

  abbrev pub loop_behind :
      Result Void → List Round → MainState C K → Option (MainState C K × Result Void)
  loop_behind (err e) rs m = some (m, err e)
  loop_behind (ok u) rs m = ended (main_loop rs m)

  -- `forward_epics_to_kafka`.
  unfoldable pub forward :
      MainOpt → List Round → MainState C K → Option (MainState C K × Result Void)
  unfolding start_threads main_loop shut_down
  forward o rs m = let m' = start_threads m in loop_behind (status_topic o m') rs m'
