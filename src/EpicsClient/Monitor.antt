-- ===== src/EpicsClient/Monitor.antt =====
-- src/EpicsClient/EpicsClientMonitor.h and EpicsClientMonitor.cpp, and src/EpicsPVUpdate.h. Updates
-- are shared objects: they live in a store, and the client, the emit queue and the conversion packets
-- hold their addresses. The emit queue is the list of what was enqueued, oldest first.
pub mod Alarms
use forward_epics_to_kafka.Base.{
  ℕ, suc, ◌≡◌, String, Bool, true, false, not, Option, none, some, List, [], ◌∷◌, ◌++◌, ◌==◌,
  str_eq, if◌then◌else◌,
}
use forward_epics_to_kafka.Base.Int.{ℤ, pos, negsuc}
use forward_epics_to_kafka.EpicsClient.{
  ChannelConnectionState, unknown, never_connected, connected, disconnected, destroyed, to_string,
}
use forward_epics_to_kafka.EpicsClient.Impl.{
  Impl, new_impl, init, monitoring_start, monitoring_stop, stop,
}

-- `message` is the text of `alarm.message` in the structure, `none` where there is no field "alarm".
pub record EpicsPvUpdate : Type 0 where
  pub message : Option String
  pub alarm_status_changed : Bool

abbrev pub Updates : Type 0
Updates = ℕ → EpicsPvUpdate

abbrev pub set_changed : Updates → ℕ → Updates
set_changed m u v = if v == u then record (m u) { alarm_status_changed = true } else m v

abbrev pub flagged : Bool → Updates → ℕ → Updates
flagged flag m u = if flag then set_changed m u else m

-- The message that tells of a connection state: its type, with no type for UNKNOWN.
pub data EventType : Type 0 where
  event_never_connected event_connected event_disconnected event_destroyed : EventType

pub record EpicsConnectionInfo : Type 0 where
  pub source_name : String
  pub service_id : String
  pub event : Option EventType

pub record MonitorClient : Type 0 where
  pub channel_name : String
  pub impl : Impl
  pub emit_queue : List ℕ
  pub cached_update : Option ℕ
  pub status : ℤ
  pub connection_state : ChannelConnectionState
  pub service_id : String
  -- Whether `ConnectionStatusProducer` is set, and what it was given to produce, with its key.
  pub has_producer : Bool
  pub produced : List (String × EpicsConnectionInfo)

-- The constructor; `none` is its exception. `found` says that the provider exists.
unfoldable pub new_monitor_client : Bool → String → Option MonitorClient
unfolding init
new_monitor_client found name =
    if found
    then some (record {
      channel_name = name;
      impl = (init found new_impl).0;
      emit_queue = [];
      cached_update = none;
      status = pos 0;
      connection_state = never_connected;
      service_id = "";
      has_producer = false;
      produced = [];
    })
    else none

-- `getAlarmStringFromUpdate`; `none` is the access through a null pointer.
abbrev pub alarm_string : Updates → ℕ → Option String
alarm_string m u = (m u).message

-- `alarmMessageChanged`, for a cached update `c`.
unfoldable pub alarm_message_changed : Updates → ℕ → ℕ → Option Bool
alarm_message_changed m u c = elim (alarm_string m u) [
  | none ↦ some false
  | some current ↦ elim (alarm_string m c) [
    | none ↦ none
    | some cached ↦ some (not (str_eq current cached))
  ]
]

abbrev pub emit_without_caching : ℕ → MonitorClient → MonitorClient
emit_without_caching u c = record c { emit_queue = c.emit_queue ++ u ∷ [] }

abbrev pub with_cache : ℕ → MonitorClient → MonitorClient
with_cache u c = emit_without_caching u (record c { cached_update = some u })

-- Whether the flag is to be set; `none` is the access through a null pointer.
unfoldable pub to_be_flagged : ℕ → Updates → MonitorClient → Option Bool
unfolding alarm_message_changed
to_be_flagged u m c = elim c.cached_update [
  | none ↦ some true
  | some v ↦ alarm_message_changed m u v
]

unfoldable pub emit : ℕ → Updates × MonitorClient → Option (Updates × MonitorClient)
emit u (m, c) = elim (to_be_flagged u m c) [
  | none ↦ none
  | some flag ↦ some (flagged flag m u, with_cache u c)
]

unfoldable pub emit_cached_value : Updates × MonitorClient → Updates × MonitorClient
emit_cached_value (m, c) = elim c.cached_update [
  | none ↦ (m, c)
  | some u ↦ (set_changed m u, emit_without_caching u c)
]

unfoldable pub error_in_epics : MonitorClient → MonitorClient
error_in_epics c = record c { status = negsuc 0 }

unfoldable pub get_connection_state : MonitorClient → String
get_connection_state c = to_string c.connection_state

unfoldable pub stop_client : MonitorClient → MonitorClient
stop_client c = record c { impl = (stop c.impl).0 }

unfoldable pub event_type : ChannelConnectionState → Option EventType
event_type unknown = none
event_type never_connected = some event_never_connected
event_type connected = some event_connected
event_type disconnected = some event_disconnected
event_type destroyed = some event_destroyed

abbrev is_connected : ChannelConnectionState → Bool
is_connected connected = true
is_connected _ = false

-- `made` says whether `createMonitor` gives a monitor, if it is called.
unfoldable pub handle_connection_state_change :
    Bool → ChannelConnectionState → MonitorClient → MonitorClient
unfolding event_type
handle_connection_state_change made new c =
    let i =
      if is_connected new then (monitoring_start made c.impl).0 else (monitoring_stop c.impl).0 in
    let info : EpicsConnectionInfo = record {
      source_name = c.channel_name;
      service_id = c.service_id;
      event = event_type new;
    } in
    record c {
      connection_state = new;
      impl = i;
      produced = if c.has_producer then c.produced ++ (c.channel_name, info) ∷ [] else c.produced;
    }

unfoldable pub set_service_id : String → MonitorClient → MonitorClient
set_service_id id c = record c { service_id = id }

unfoldable pub set_producer : MonitorClient → MonitorClient
set_producer c = record c { has_producer = true }
