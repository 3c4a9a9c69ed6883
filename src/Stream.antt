-- ===== src/Stream.antt =====
-- src/Stream.h and src/Stream.cpp, without `fillConversionQueue`, which is in Stream/Fill. EPICS
-- clients are shared by a stream and by the timers, so a stream holds the address of its client.
pub mod Fill
pub mod Outputs
use forward_epics_to_kafka.Base.{
  ℕ, String, Bool, ◌&&◌, Option, none, some, List, [], ◌∷◌, ◌++◌, find_if, str_eq,
}
use forward_epics_to_kafka.Base.Int.{ℤ}
use forward_epics_to_kafka.Json.{
  Json, Items, Members, nil, cons, end, member, string, number, array, object,
}

-- `EpicsClientInterface`, over the type of the objects. `queue_size` is `size_approx` of the queue
-- of updates that a client and its stream share, `set_producer` is given the topic.
pub record ClientApi (C : Type 0) : Type 0 where
  pub stop : C → C
  pub status : C → ℤ
  pub error_in_epics : C → C
  pub get_connection_state : C → String
  pub set_service_id : String → C → C
  pub set_producer : String → C → C
  pub queue_size : C → ℕ

-- A converter object; `id` tells it from others of the same schema.
pub record Converter : Type 0 where
  pub id : ℕ
  pub schema : String

-- The output of a path: the broker and the topic.
pub record ConversionPath : Type 0 where
  pub converter : Converter
  pub broker : String
  pub topic : String

pub record Stream : Type 0 where
  pub provider_type : String
  pub channel_name : String
  pub conversion_paths : List ConversionPath
  pub client : ℕ

unfoldable pub same_output : ConversionPath → ConversionPath → Bool
same_output p q = str_eq p.topic q.topic && str_eq p.converter.schema q.converter.schema

unfoldable pub add_converter : ConversionPath → Stream → Stream × ℕ
add_converter p s = elim (find_if (same_output p) s.conversion_paths) [
  | none ↦ (record s { conversion_paths = s.conversion_paths ++ p ∷ [] }, 0)
  | some _ ↦ (s, 1)
]

-- `ConversionPath::emit`, with the converter's `convert` and the output's `emit`.
unfoldable pub emit :
    {U B W : Type 0} → (Converter → U → Option B) → (B → W → W) → ConversionPath → U → W → W × ℕ
emit convert output p u w = elim (convert p.converter u) [
  | none ↦ (w, 1)
  | some b ↦ (output b w, 0)
]

unfoldable pub status_json : ConversionPath → Json
status_json p = object (
    member "broker" (string p.broker)
      (member "schema" (string p.converter.schema) (member "topic" (string p.topic) end)))

unfoldable pub statuses : List ConversionPath → Items
unfolding status_json
statuses [] = nil
statuses (p ∷ ps) = cons (status_json p) (statuses ps)

-- The keys come in the order of `nlohmann::json`. "emitted_max" is never there: nothing is ever put
-- into `SeqDataEmitted`. `show` prints a number.
unfoldable pub get_status_json : {C : Type 0} → ClientApi C → (ℕ → String) → (ℕ → C) → Stream → Json
unfolding statuses
get_status_json api show clients s = object (
    member "channel_name" (string s.channel_name) (
      member "converters" (array (statuses s.conversion_paths)) (
        member "epics_connection_status" (string (api.get_connection_state (clients s.client)))
          (member "queue_size" (number (show (api.queue_size (clients s.client)))) end))))
