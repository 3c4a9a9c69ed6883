-- ===== src/EpicsClient.antt =====
-- src/EpicsClient: the clients that receive the updates of one EPICS channel.
-- This file: EpicsClientInterface.h, EpicsClientInterface.cpp and the translation of connection states
-- of ChannelRequester.cpp.
pub mod Random
pub mod Impl
pub mod Monitor
pub mod Factory
pub mod Requester
use forward_epics_to_kafka.Base.{String, ◌≡◌, refl, Option, none, some}

pub data ChannelConnectionState : Type 0 where
  unknown never_connected connected disconnected destroyed : ChannelConnectionState

unfoldable pub to_string : ChannelConnectionState → String
to_string unknown = "UNKNOWN"
to_string never_connected = "NEVER_CONNECTED"
to_string connected = "CONNECTED"
to_string disconnected = "DISCONNECTED"
to_string destroyed = "DESTROYED"

-- `epics::pvAccess::Channel::ConnectionState`; `other` is any value behind the four.
pub data EpicsConnectionState : Type 0 where
  epics_never_connected epics_connected epics_disconnected epics_destroyed other :
      EpicsConnectionState

unfoldable pub create_channel_connection_state : EpicsConnectionState → ChannelConnectionState
create_channel_connection_state epics_never_connected = never_connected
create_channel_connection_state epics_connected = connected
create_channel_connection_state epics_disconnected = disconnected
create_channel_connection_state epics_destroyed = destroyed
create_channel_connection_state other = unknown
