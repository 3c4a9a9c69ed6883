-- ===== src/Tests/Commands.antt =====
-- Settings, commands and streams.
use forward_epics_to_kafka.Base.{
  ◌%◌, ◌/◌, ℕ, ◌≡◌, ◌≢◌, ◌⊎◌, refl, ap, String, true, false, none, some, List, [], ◌∷◌, arith, err,
  mapping_add_exception, str_eq, if◌then◌else◌, All, ◌==◌,
}
use forward_epics_to_kafka.Base.Int.{negsuc}
use forward_epics_to_kafka.Json.{find_string, find_member}
use forward_epics_to_kafka.ConfigParser.{StreamSettings, ConfigSettings, find_command}
use forward_epics_to_kafka.ConfigParser.Split.{split, split-pieces}
use forward_epics_to_kafka.EpicsClient.Monitor.{MonitorClient, stop_client}
use forward_epics_to_kafka.Stream.{ConversionPath, Stream, add_converter}
use forward_epics_to_kafka.Stream.Outputs.{SameOutput, HasOutput, Unshared, add_converter-Unshared}
use forward_epics_to_kafka.Streams.{
  Streams, get_stream_by_channel_name, stop_channel, check_stream_status, has_name,
}
use forward_epics_to_kafka.Streams.Stops.{stop_channel_lem, check_stream_status_lem}
use forward_epics_to_kafka.Forwarder.{ForwarderState, add_mapping, make_client}
use forward_epics_to_kafka.Forwarder.Frame.{WellFormed, names}
use forward_epics_to_kafka.Forwarder.Retry.{add_mapping_retry}
use forward_epics_to_kafka.CommandHandler.{Event, message, status_report, signal, events}
use forward_epics_to_kafka.CommandHandler.Events.{events-WellFormed, events_flag}
use forward_epics_to_kafka.Tests.Sample.{auto_name, json_library, monitor_api, new_client, setup}

abbrev stream_at : ℕ → String → Stream
stream_at a name = record {
  provider_type = "pva";
  channel_name = name;
  conversion_paths = [];
  client = a;
}

abbrev two_streams : Streams MonitorClient
two_streams = record {
  stream_pointers = stream_at 0 "pv1" ∷ stream_at 1 "pv2" ∷ [];
  clients = λ a. if a == 1 then record new_client { status = negsuc 0 } else new_client;
}

abbrev state : ForwarderState MonitorClient (List String)
state = record {
  streams = two_streams;
  next_client = 2;
  converters = [];
  next_converter = 0;
  kafka = [];
  pv_update_timer = none;
  fake_pv_timer = none;
  flag = 0;
}

false_other : false ≢ true
false_other e = cc

abbrev pv1 : String
pv1 = "pv1"

abbrev pv2 : String
pv2 = "pv2"

pv2_other : pv2 ≢ pv1
pv2_other e = false_other (ap (λ s. str_eq s "pv1") e)

state-WellFormed : WellFormed state
state-WellFormed = record {
  channels = ((pv2_other, tt), (tt, tt));
  clients = ((omega arith, tt), (tt, tt));
  fresh = (omega arith, (omega arith, tt));
}

abbrev history : List Event
history = message "add" ∷ status_report true ∷ message "no json" ∷ signal ∷ message "exit" ∷ []

events-WellFormed_example : WellFormed (events setup json_library auto_name history state)
events-WellFormed_example =
    events-WellFormed setup json_library auto_name history state state-WellFormed

events_flag_example :
    let flag = (events setup json_library auto_name history state).flag in
    ((flag % 2 == 1) ≡ true) × (((flag / 2) % 2 == 1) ≡ true) × (flag / 4 ≡ 0)
unfolding find_command find_string find_member
events_flag_example = events_flag setup json_library auto_name history state

abbrev bad_settings : StreamSettings
bad_settings = record {
  name = "pv3";
  epics_protocol = "pva";
  converters = record { schema = "f142"; topic = "bad"; name = "c" } ∷ [];
}

add_mapping_retry_example :
    let s' = (add_mapping setup bad_settings state).0 in
    (names s'.streams.stream_pointers ≡ "pv1" ∷ "pv2" ∷ "pv3" ∷ [])
    × (add_mapping setup (record bad_settings { converters = [] }) s'
        ≡ (s', err (mapping_add_exception "Cannot add stream")))
unfolding get_stream_by_channel_name make_client
add_mapping_retry_example =
    add_mapping_retry setup bad_settings (record bad_settings { converters = [] }) state new_client
      refl refl refl

-- The stream of "pv2" has failed.
check_stream_status_lem_example :
    ((check_stream_status monitor_api two_streams).stream_pointers ≡ stream_at 0 "pv1" ∷ [])
    × ((check_stream_status monitor_api two_streams).clients 1
        ≡ stop_client (stop_client (two_streams.clients 1)))
check_stream_status_lem_example =
    check_stream_status_lem monitor_api two_streams 1 ((omega arith, tt), (tt, tt))

stop_channel_lem_example :
    (get_stream_by_channel_name "pv1" (stop_channel monitor_api "pv1" two_streams) ≡ none)
    × (get_stream_by_channel_name "pv2" (stop_channel monitor_api "pv1" two_streams)
        ≡ get_stream_by_channel_name "pv2" two_streams)
    × ((stop_channel monitor_api "pv1" two_streams).clients 0 ≡ stop_client (two_streams.clients 0))
unfolding has_name
stop_channel_lem_example =
    stop_channel_lem monitor_api "pv1" "pv2" two_streams 0 ((omega arith, tt), (tt, tt)) pv2_other

abbrev settings : ConfigSettings
settings = record {
  brokers = [];
  streams_info =
      record {
        name = "pv3";
        epics_protocol = "pva";
        converters = record { schema = "f142"; topic = "//host/topic"; name = "converter_0" } ∷ [];
      }
      ∷ [];
}

split-pieces_example : split "a,,b" ≡ some ("a" ∷ "b" ∷ [])
split-pieces_example = split-pieces "a,,b"

abbrev path : String → ConversionPath
path topic = record {
  converter = record { id = 0; schema = "f142" };
  broker = "host";
  topic = topic;
}

abbrev one_path : Stream
one_path = record (stream_at 0 "pv1") { conversion_paths = path "a" ∷ [] }

add_converter-Unshared_example :
    Unshared (add_converter (path "b") one_path).0.conversion_paths
    × (((add_converter (path "b") one_path).1 ≡ 0)
          × (All (λ q. ¬ SameOutput (path "b") q) one_path.conversion_paths)
          × ((add_converter (path "b") one_path).0.conversion_paths ≡ path "a" ∷ path "b" ∷ [])
        ⊎ (((add_converter (path "b") one_path).1 ≡ 1)
            × ((add_converter (path "b") one_path).0 ≡ one_path)
            × HasOutput (path "b") one_path.conversion_paths))
add_converter-Unshared_example = add_converter-Unshared (path "b") one_path (tt, tt)
