-- ===== src/Forwarder/State.antt =====
-- The state of src/Forwarder.h, and the converters and streams of src/Forwarder.cpp that are in it.
use forward_epics_to_kafka.Base.{
  ℕ, suc, ◌==◌, String, Bool, true, false, ◌||◌, Option, none, some, List, [], ◌∷◌, Exception,
  runtime_error, mapping_add_exception, metadata_exception, logic_error, parse_error, Step,
  is_empty, str_eq, find_if, if◌then◌else◌,
}
use forward_epics_to_kafka.Uri.{Uri, UriLibrary}
use forward_epics_to_kafka.ConfigParser.{ConverterSettings, StreamSettings}
use forward_epics_to_kafka.Stream.{ClientApi, Converter, ConversionPath, Stream}
use forward_epics_to_kafka.Stream.Fill.{update_at}
use forward_epics_to_kafka.Streams.{Streams, add}

-- A `KafkaW::ProducerTopic`, by its broker's address and its name.
pub record ProducerTopic : Type 0 where
  pub broker : String
  pub name : String

-- What the program's other parts give to this one: the EPICS clients `C` with their constructors
-- (`none` is an exception) and their dynamic type, and the producers `K` of `InstanceSet`.
pub record Setup (C K : Type 0) : Type 0 where
  pub api : ClientApi C
  pub new_monitor : String → String → Option C
  pub new_random : String → C
  pub is_monitor : C → Bool
  pub create_producer_topic : Uri → Step K ProducerTopic
  pub uri : UriLibrary
  pub brokers : List Uri
  pub service_id : String

-- `converters` has, under each name, the converter that its weak pointer was made from. A timer that
-- is not there is `none`; a callback is the address of its client, `none` where the cast of the
-- client to `EpicsClientMonitor` gave the null pointer.
pub record ForwarderState (C K : Type 0) : Type 0 where
  pub streams : Streams C
  pub next_client : ℕ
  pub converters : List (String × Converter)
  pub next_converter : ℕ
  pub kafka : K
  pub pv_update_timer : Option (List (Option ℕ))
  pub fake_pv_timer : Option (List ℕ)
  pub flag : ℕ

-- `catch (std::runtime_error &)`.
unfoldable pub is_runtime_error : Exception → Bool
is_runtime_error (runtime_error s) = true
is_runtime_error (mapping_add_exception s) = true
is_runtime_error (metadata_exception s) = false
is_runtime_error (logic_error s) = false
is_runtime_error (parse_error s) = false

-- The schemas of `registerSchemas`.
unfoldable pub is_registered : String → Bool
is_registered schema = str_eq schema "f142" || str_eq schema "TdcTime"

-- Whether some conversion path still owns the converter: `lock()` of a weak pointer.
abbrev pub owned : ℕ → List Stream → Bool
owned id [] = false
owned id (s ∷ ss) = owns s.conversion_paths || owned id ss
  where
    owns : List ConversionPath → Bool
    owns [] = false
    owns (p ∷ ps) = (p.converter.id == id) || owns ps

abbrev pub named : String → String × Converter → Bool
named name (n, c) = str_eq n name

abbrev pub on_stream : (Stream → Stream) → ℕ → List Stream → List Stream
on_stream f a [] = []
on_stream f a (s ∷ ss) = (if s.client == a then f s else s) ∷ on_stream f a ss

abbrev pub is_some : {A : Type 0} → Option A → Bool
is_some none = false
is_some (some a) = true

module _ {C K : Type 0} where
  unfoldable pub create_converter : String → ForwarderState C K → Converter × ForwarderState C K
  create_converter schema s = (
    record { id = s.next_converter; schema = schema },
    record s { next_converter = suc s.next_converter },
  )

  -- The entry of a name that is there already is overwritten: the first that is found counts.
  unfoldable pub create_named :
      ConverterSettings → ForwarderState C K → Converter × ForwarderState C K
  unfolding create_converter
  create_named c s =
      let (k, s') = create_converter c.schema s in
      (k, record s' { converters = (c.name, k) ∷ s'.converters })

  unfoldable pub obtain_converter :
      ConverterSettings → ForwarderState C K → Converter × ForwarderState C K
  unfolding create_converter create_named
  obtain_converter c s =
      if is_empty c.name
      then create_converter c.schema s
      else elim (find_if (named c.name) s.converters) [
        | none ↦ create_named c s
        | some (n, k) ↦ if owned k.id s.streams.stream_pointers then (k, s) else create_named c s
      ]

  abbrev pub with_stream : (Stream → Stream) → ℕ → ForwarderState C K → ForwarderState C K
  with_stream f a s = record s {
    streams = record s.streams { stream_pointers = on_stream f a s.streams.stream_pointers };
  }

  -- The stream of a new client, which stands at `next_client`.
  abbrev pub new_stream : StreamSettings → C → ForwarderState C K → ForwarderState C K
  new_stream info c s = record s {
    streams =
        add
          (record {
            provider_type = info.epics_protocol;
            channel_name = info.name;
            conversion_paths = [];
            client = s.next_client;
          })
          (record s.streams { clients = update_at s.streams.clients s.next_client c });
    next_client = suc s.next_client;
  }

  abbrev pub on_client : (C → C) → ℕ → ForwarderState C K → ForwarderState C K
  on_client f a s = record s {
    streams = record s.streams {
      clients = update_at s.streams.clients a (f (s.streams.clients a));
    };
  }
