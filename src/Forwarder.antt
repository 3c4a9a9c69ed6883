-- ===== src/Forwarder.antt =====
-- src/Forwarder.h and src/Forwarder.cpp: the mapping of channels to streams, the timers that call
-- back into EPICS clients, and the flag that stops the main loop. EPICS clients are at the addresses
-- of the store in `Streams`, a stream is named by the address of its client.
mod State
pub mod Frame
pub mod Mappings
pub mod Retry
pub mod Flag
use forward_epics_to_kafka.Base.{
  ℕ, suc, ◌+◌, ◌/◌, ◌%◌, ◌==◌, String, Bool, true, false, ◌||◌, Option, none, some, List, [], ◌∷◌,
  ◌++◌, map, Result, ok, err, Exception, runtime_error, mapping_add_exception, metadata_exception,
  logic_error, parse_error, Step, Void, ◌>>>◌, is_empty, str_eq, find_if, ltb, if◌then◌else◌,
}
use forward_epics_to_kafka.Uri.{Uri, UriLibrary, empty_uri, parse, of_string}
use forward_epics_to_kafka.ConfigParser.{ConverterSettings, StreamSettings}
use forward_epics_to_kafka.Stream.{ClientApi, Converter, ConversionPath, Stream, add_converter}
use forward_epics_to_kafka.Stream.Fill.{update_at}
use forward_epics_to_kafka.Streams.{Streams, get_stream_by_channel_name, add}
use forward_epics_to_kafka.Base.{map}
unfoldable pub use State.*

module _ {C K : Type 0} (setup : Setup C K) where
  unfoldable pub first_broker : Uri
  first_broker = elim setup.brokers [ [] ↦ empty_uri | (b ∷ bs) ↦ b ]

  unfoldable pub create_topic_uri : ConverterSettings → Result Uri
  unfolding first_broker is_runtime_error
  create_topic_uri c =
      let start : Uri = record {
        host_port = if is_empty first_broker.host_port then "" else first_broker.host_port;
        port = if first_broker.port == 0 then 0 else first_broker.port;
        topic = "";
      } in
      let (u, thrown) = parse setup.uri c.topic start in
      elim thrown [
        | none ↦ ok u
        | some e ↦
            if is_runtime_error e
            then err (mapping_add_exception "Invalid topic in converter")
            else err e
      ]

  abbrev pub create_topic : Uri → Step (ForwarderState C K) ProducerTopic
  create_topic u s =
      let (k, r) = setup.create_producer_topic u s.kafka in (record s { kafka = k }, r)

  abbrev pub put_path : Converter → ℕ → ProducerTopic → Step (ForwarderState C K) Void
  put_path k a t s = (
    with_stream
        (λ x. (add_converter (record { converter = k; broker = t.broker; topic = t.name }) x).0) a
        s,
    ok tt,
  )

  unfoldable pub add_path : ConverterSettings → Uri → ℕ → Step (ForwarderState C K) Void
  unfolding obtain_converter add_converter
  add_path c u a s = let (k, s') = obtain_converter c s in (create_topic u >>> put_path k a) s'

  abbrev pub add_path_to : ℕ → ConverterSettings → Result Uri → Step (ForwarderState C K) Void
  add_path_to a c (err e) s = (s, err e)
  add_path_to a c (ok u) s = add_path c u a s

  unfoldable pub push_converter_to_stream : ℕ → ConverterSettings → Step (ForwarderState C K) Void
  unfolding is_registered create_topic_uri add_path
  push_converter_to_stream a c s =
      if is_registered c.schema
      then add_path_to a c (create_topic_uri c) s
      else (s, err (mapping_add_exception "Cannot handle flatbuffer schema id"))

  unfoldable pub make_client : Bool → StreamSettings → Option C
  make_client random info =
      if random
      then some (setup.new_random info.name)
      else setup.new_monitor info.epics_protocol info.name

  abbrev pub stream_of : StreamSettings → Option C → Step (ForwarderState C K) ℕ
  stream_of info none s = (s, err (runtime_error "Cannot create the EPICS client"))
  stream_of info (some c) s = (new_stream info c s, ok s.next_client)

  -- `addStream`; the argument says whether the client is a random one. The result is the stream.
  unfoldable pub add_stream : Bool → StreamSettings → Step (ForwarderState C K) ℕ
  unfolding get_stream_by_channel_name make_client
  add_stream random info s = elim (get_stream_by_channel_name info.name s.streams) [
    | some _ ↦ (s, err (mapping_add_exception "Stream already exists"))
    | none ↦ stream_of info (make_client random info) s
  ]

  -- The two callbacks. With a fake timer the client is a random one, and the cast to it succeeds.
  abbrev pub add_callbacks : ℕ → ForwarderState C K → ForwarderState C K
  add_callbacks a s = record s {
    fake_pv_timer = elim s.fake_pv_timer [ none ↦ none | some cs ↦ some (cs ++ a ∷ []) ];
    pv_update_timer = elim s.pv_update_timer [
      | none ↦ none
      | some cs ↦
          some (cs ++ (if setup.is_monitor (s.streams.clients a) then some a else none) ∷ [])
    ];
  }

  abbrev pub put_producer : ℕ → ProducerTopic → Step (ForwarderState C K) Void
  put_producer a t s = (on_client (setup.api.set_producer t.name) a s, ok tt)

  abbrev pub producer_to : ℕ → Result Uri → Step (ForwarderState C K) Void
  producer_to a (err e) s = (s, err e)
  producer_to a (ok u) s = (create_topic u >>> put_producer a) s

  unfoldable pub set_status_producer : ℕ → List ConverterSettings → Step (ForwarderState C K) Void
  set_status_producer a [] s = (s, ok tt)
  set_status_producer a (c ∷ cs) s = producer_to a (of_string setup.uri c.topic) s

  unfoldable pub push_converters : ℕ → List ConverterSettings → Step (ForwarderState C K) Void
  unfolding push_converter_to_stream
  push_converters a [] s = (s, ok tt)
  push_converters a (c ∷ cs) s = (push_converter_to_stream a c >>> λ _. push_converters a cs) s

  abbrev pub set_up_converters : ℕ → List ConverterSettings → Void → Step (ForwarderState C K) Void
  set_up_converters a cs _ s =
      push_converters a cs (on_client (setup.api.set_service_id setup.service_id) a s)

  abbrev pub set_up : StreamSettings → ℕ → Step (ForwarderState C K) Void
  set_up info a s =
      (set_status_producer a info.converters >>> set_up_converters a info.converters)
        (add_callbacks a s)

  -- The `try` block.
  unfoldable pub map_stream : StreamSettings → Step (ForwarderState C K) Void
  unfolding add_stream set_status_producer push_converters
  map_stream info s = (add_stream (is_some s.fake_pv_timer) info >>> set_up info) s

  -- What the handler makes of an exception.
  unfoldable pub rethrown : Result Void → Result Void
  unfolding is_runtime_error
  rethrown (ok u) = ok u
  rethrown (err e) =
      if is_runtime_error e then err (mapping_add_exception "Cannot add stream") else err e

  unfoldable pub add_mapping : StreamSettings → Step (ForwarderState C K) Void
  unfolding map_stream rethrown
  add_mapping info s = let (s', r) = map_stream info s in (s', rethrown r)
