-- ===== src/CommandHandler.antt =====
-- src/CommandHandler.h and src/CommandHandler.cpp, and the events that reach the forwarder: a message
-- on the command topic, a report of its status (src/StatusReporter.cpp) and a signal (src/Main.cpp).
-- `nlohmann::json::parse` and `dump` are parameters.
pub mod Events
use forward_epics_to_kafka.Base.{
  ℕ, String, Bool, true, false, Option, none, some, List, [], ◌∷◌, Result, ok, err, Exception,
  runtime_error, Step, Void, ◌>>>◌, ◌>>=◌,
}
use forward_epics_to_kafka.Json.{Json, find_string}
use forward_epics_to_kafka.ConfigParser.{
  CommandType, stop_channel, stop_all, exit, unknown, ConfigSettings, StreamSettings, find_command,
  extract_stream_info,
}
use forward_epics_to_kafka.ConfigParser.{add as add_command}
use forward_epics_to_kafka.Streams.{clear_streams, check_stream_status}
use forward_epics_to_kafka.Streams.{stop_channel as stop_channel_of}
use forward_epics_to_kafka.Forwarder.{Setup, ForwarderState, add_mapping}
use forward_epics_to_kafka.Forwarder.Flag.{stop_forwarding, stop_forwarding_due_to_signal}

pub record JsonLibrary : Type 0 where
  pub parse : String → Result Json
  pub dump : Json → String

module _ {C K : Type 0} (setup : Setup C K) (json : JsonLibrary) (auto_name : ℕ → String) where
  -- The loop of `handleCommandAdd`, which an exception ends.
  unfoldable pub add_mappings : List StreamSettings → Step (ForwarderState C K) Void
  add_mappings [] s = (s, ok tt)
  add_mappings (i ∷ is) s = (add_mapping setup i >>> λ _. add_mappings is) s

  -- The constructor of `ConfigParser`, and `extractStreamInfo`.
  unfoldable pub settings_of : Json → Result ConfigSettings
  settings_of document = json.parse (json.dump document) >>= extract_stream_info auto_name

  abbrev pub add_settings : Result ConfigSettings → Step (ForwarderState C K) Void
  add_settings (err e) s = (s, err e)
  add_settings (ok c) s = add_mappings c.streams_info s

  unfoldable pub handle_command_add : Json → Step (ForwarderState C K) Void
  unfolding settings_of add_mappings
  handle_command_add document s = add_settings (settings_of document) s

  unfoldable pub handle_command_stop_channel : Json → Step (ForwarderState C K) Void
  handle_command_stop_channel document s = elim (find_string "channel" document) [
    | none ↦ (s, ok tt)
    | some name ↦ (record s { streams = stop_channel_of setup.api name s.streams }, ok tt)
  ]

  unfoldable pub handle_command_stop_all : Step (ForwarderState C K) Void
  handle_command_stop_all s = (record s { streams = clear_streams setup.api s.streams }, ok tt)

  unfoldable pub handle_command_exit : Step (ForwarderState C K) Void
  handle_command_exit s = (record s { flag = stop_forwarding s.flag }, ok tt)

  abbrev pub handle : CommandType → Json → Step (ForwarderState C K) Void
  handle add_command msg s = handle_command_add msg s
  handle stop_channel msg s = handle_command_stop_channel msg s
  handle stop_all msg s = handle_command_stop_all s
  handle exit msg s = handle_command_exit s
  handle unknown msg s = (s, err (runtime_error "Unknown command type received"))

  unfoldable pub handle_command : Json → Step (ForwarderState C K) Void
  handle_command msg s = handle (find_command msg) msg s

  abbrev pub on_parsed : Result Json → ForwarderState C K → ForwarderState C K
  on_parsed (err e) s = s
  on_parsed (ok msg) s = (handle_command msg s).0

  -- `ConfigCallback::operator()`: every exception is caught and logged.
  unfoldable pub on_message : String → ForwarderState C K → ForwarderState C K
  unfolding handle_command
  on_message raw s = on_parsed (json.parse raw) s

  -- What `reportStatus` does to the forwarder; `given` says whether there is a topic for the status.
  unfoldable pub report_status : Bool → ForwarderState C K → ForwarderState C K
  report_status false s = s
  report_status true s = record s { streams = check_stream_status setup.api s.streams }

pub data Event : Type 0 where
  message : String → Event
  status_report : Bool → Event
  signal : Event

module _ {C K : Type 0} (setup : Setup C K) (json : JsonLibrary) (auto_name : ℕ → String) where
  unfoldable pub event : Event → ForwarderState C K → ForwarderState C K
  unfolding on_message report_status
  event (message raw) s = on_message setup json auto_name raw s
  event (status_report given) s = report_status setup json auto_name given s
  event signal s = record s { flag = stop_forwarding_due_to_signal s.flag }

  -- Events in the order in which the locks let them through.
  unfoldable pub events : List Event → ForwarderState C K → ForwarderState C K
  unfolding event
  events [] s = s
  events (e ∷ es) s = events es (event e s)
