-- ===== src/Tests/Program.antt =====
-- Options, timers and the main loop.
use forward_epics_to_kafka.Base.{
  ◌≡◌, refl, String, true, false, some, List, [], ◌∷◌, ok, str_eq, if◌then◌else◌, arith,
}
use forward_epics_to_kafka.Base.Int.{pos}
use forward_epics_to_kafka.MainOpt.{
  Number, integer, invalid_argument, out_of_range, MainOpt, OptLibrary, OptionCall, verbosity,
  pv_update_period, parsed, success, parse_opt,
}
use forward_epics_to_kafka.Timer.{Timer, finished, executing, wait_for_stop}
use forward_epics_to_kafka.Timer.Stops.{wait_for_stop_lem}
use forward_epics_to_kafka.Kafka.Consumer.{status_message, status_empty}
use forward_epics_to_kafka.CommandHandler.{signal}
use forward_epics_to_kafka.Json.{find_string, find_member, find}
use forward_epics_to_kafka.ConfigParser.{find_command}
use forward_epics_to_kafka.MainLoop.{
  add_streams, new_forwarder, MainState, Environment, Round, construct, new_main, forward,
}
use forward_epics_to_kafka.MainLoop.Shutdown.{Stopped, forward-Stopped}
use forward_epics_to_kafka.Main.{main, exit_code, thread_not_joined}
use forward_epics_to_kafka.Main.Exits.{main_exit, main_status_topic_refused}
use forward_epics_to_kafka.EpicsClient.Monitor.{MonitorClient}
use forward_epics_to_kafka.Tests.Sample.{
  new_client, setup, json_library, auto_name, add_document, uri_library,
}

abbrev stoi : String → Number
stoi s =
    if str_eq s "2"
    then integer (pos 2)
    else (if str_eq s "99999999999" then out_of_range else invalid_argument)

abbrev opt_library : OptLibrary
opt_library = record {
  uri = uri_library;
  stoi = stoi;
  read_file = λ path. path;
  json_parse = λ text. ok add_document;
  auto_name = auto_name;
  opens_log = λ path. true;
  have_graylog = false;
}

abbrev defaults : MainOpt
defaults = record {
  print_version = false;
  log_filename = "";
  streams_file = "";
  kafka_gelf_address = "";
  graylog_logger_address = "";
  influx_uri = "";
  log_level = 4;
  broker_config = record { host_port = "host"; port = 9092; topic = "commands" };
  status_report_uri = record { host_port = "host"; port = 9092; topic = "status" };
  period_ms = 0;
  fake_pv_period_ms = 0;
  conversion_threads = 2;
  conversion_worker_queue_size = 1024;
  main_poll_interval = pos 500;
  kafka_configuration = [];
  streams_info = [];
}

abbrev calls : List OptionCall
calls = verbosity ("Debug" ∷ []) ∷ pv_update_period 1000 ∷ []

abbrev chosen : MainOpt
chosen = record defaults { log_level = 1; period_ms = 1000 }

calls_parsed : parse_opt opt_library calls parsed defaults ≡ ok (success, chosen)
unfolding parse_opt
calls_parsed = refl

-- A timer whose thread has called the first of three callbacks.
abbrev in_loop : Timer
in_loop = record {
  running = true;
  callbacks = 1 ∷ 2 ∷ 3 ∷ [];
  phase = executing (2 ∷ 3 ∷ []);
  log = 1 ∷ [];
}

wait_for_stop_lem_example :
    (u : Timer) × (wait_for_stop ([] ∷ (4 ∷ []) ∷ [] ∷ (5 ∷ []) ∷ [] ∷ []) in_loop ≡ some u)
    × (u.phase ≡ finished)
    × (u.log ≡ 1 ∷ 2 ∷ 3 ∷ [])
wait_for_stop_lem_example =
    wait_for_stop_lem ([] ∷ (4 ∷ []) ∷ [] ∷ (5 ∷ []) ∷ [] ∷ []) in_loop (λ e. ground (arith, e))
      (omega arith)

abbrev env : Environment MonitorClient (List String)
env = record {
  setup = setup;
  json = json_library;
  auto_name = auto_name;
  clients = λ a. new_client;
  kafka = [];
  metadata = some (record { topic = "commands"; partitions = 0 ∷ [] } ∷ []);
  high = λ n. 7;
  assigned = true;
  makes_consumer = λ host. true;
  makes_producer = λ host. true;
  makes_topic = λ broker name. str_eq name "status";
}

-- The forwarder that the options give, with a timer.
abbrev constructed : MainState MonitorClient (List String)
constructed = new_main env chosen ((0, 7) ∷ []) (some "host")

constructed_lem : construct env chosen ≡ ok constructed
unfolding construct
constructed_lem = refl

abbrev silent : Round
silent = record { before = []; polled = status_empty; after = [] }

-- A command and then a signal.
abbrev interrupted : Round
interrupted = record { before = []; polled = status_message "add"; after = signal ∷ [] }

forward-Stopped_example :
    (m : MainState MonitorClient (List String)) × (forward env chosen
        (silent ∷ interrupted ∷ silent ∷ [])
        constructed
      ≡ some (m, ok tt))
    × Stopped env interrupted m
unfolding add_streams new_forwarder find_command find_string find_member find
forward-Stopped_example =
    forward-Stopped env chosen (silent ∷ []) interrupted (silent ∷ []) constructed refl refl refl
      refl

main_exit_example :
    main env (parse_opt opt_library calls parsed defaults) (silent ∷ interrupted ∷ silent ∷ [])
    ≡ some (exit_code 0)
unfolding find_command find_string find_member find
main_exit_example =
    main_exit env opt_library calls parsed defaults chosen (silent ∷ []) interrupted (silent ∷ [])
      constructed calls_parsed constructed_lem refl refl refl

abbrev refused_defaults : MainOpt
refused_defaults = record defaults {
  status_report_uri = record { host_port = "host"; port = 9092; topic = "refused" };
}

abbrev refused : MainOpt
refused = record refused_defaults { log_level = 1; period_ms = 1000 }

refused_parsed : parse_opt opt_library calls parsed refused_defaults ≡ ok (success, refused)
unfolding parse_opt
refused_parsed = refl

refused_constructed : construct env refused ≡ ok (new_main env refused ((0, 7) ∷ []) (some "host"))
unfolding construct
refused_constructed = refl

-- The updates are repeated by a timer.
main_status_topic_refused_example :
    main env (parse_opt opt_library calls parsed refused_defaults) (silent ∷ [])
    ≡ some thread_not_joined
unfolding add_streams new_forwarder
main_status_topic_refused_example =
    main_status_topic_refused env opt_library calls parsed refused_defaults refused (silent ∷ [])
      (new_main env refused ((0, 7) ∷ []) (some "host")) "host" refused_parsed refused_constructed
      refl refl
