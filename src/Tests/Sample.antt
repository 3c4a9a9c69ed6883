-- ===== src/Tests/Sample.antt =====
-- The clients, the libraries and the documents that the tests share.
use forward_epics_to_kafka.Base.{
  ℕ, String, true, false, none, some, List, [], length, ok, err, parse_error, str_eq, if◌then◌else◌,
  ◌==◌,
}
use forward_epics_to_kafka.Base.Int.{pos}
use forward_epics_to_kafka.Json.{Json, string, array, object, nil, cons, end, member}
use forward_epics_to_kafka.Uri.{UriLibrary}
use forward_epics_to_kafka.EpicsClient.{connected}
use forward_epics_to_kafka.EpicsClient.Monitor.{
  MonitorClient, stop_client, error_in_epics, get_connection_state, set_service_id, set_producer,
}
use forward_epics_to_kafka.EpicsClient.Impl.{new_impl}
use forward_epics_to_kafka.Stream.{ClientApi}
use forward_epics_to_kafka.Forwarder.{Setup}
use forward_epics_to_kafka.CommandHandler.{JsonLibrary}
use forward_epics_to_kafka.Kafka.Producers.{KafkaLibrary, create_producer_topic}
use forward_epics_to_kafka.Base.{not}

abbrev pub new_client : MonitorClient
new_client = record {
  channel_name = "pv";
  impl = new_impl;
  emit_queue = [];
  cached_update = none;
  status = pos 0;
  connection_state = connected;
  service_id = "";
  has_producer = false;
  produced = [];
}

-- The clients are `EpicsClientMonitor` objects.
abbrev pub monitor_api : ClientApi MonitorClient
monitor_api = record {
  stop = stop_client;
  status = λ c. c.status;
  error_in_epics = error_in_epics;
  get_connection_state = get_connection_state;
  set_service_id = set_service_id;
  set_producer = λ topic c. set_producer c;
  queue_size = λ c. length c.emit_queue;
}

abbrev pub uri_library : UriLibrary
uri_library = record {
  group = λ s n.
      if str_eq s "bad"
      then none
      else (if n == 6 then some "host" else (if n == 10 then some "9092" else some "topic"));
  stoi = λ s. ok 9092;
}

abbrev pub kafka_library : KafkaLibrary
kafka_library = record {
  makes_producer = λ host. true;
  makes_topic = λ host name. not (str_eq name "no");
}

abbrev pub setup : Setup MonitorClient (List String)
setup = record {
  api = monitor_api;
  new_monitor = λ provider name. some new_client;
  new_random = λ name. new_client;
  is_monitor = λ c. true;
  create_producer_topic = create_producer_topic kafka_library;
  uri = uri_library;
  brokers = [];
  service_id = "service";
}

abbrev pub element : Json
element = object (
    member "channel" (string "pv3") (
      member "converter"
        (object (member "schema" (string "f142") (member "topic" (string "//host/topic") end)))
        end))

abbrev pub add_document : Json
add_document =
    object (member "cmd" (string "add") (member "streams" (array (cons element nil)) end))

abbrev pub json_library : JsonLibrary
json_library = record {
  parse = λ s.
      if str_eq s "add"
      then ok add_document
      else (if str_eq s "exit"
          then ok (object (member "cmd" (string "exit") end))
          else err (parse_error s));
  dump = λ j. "add";
}

abbrev pub auto_name : ℕ → String
auto_name n = if n == 0 then "converter_0" else "converter_n"
