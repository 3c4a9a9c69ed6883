-- ===== src/ConfigParser.antt =====
-- src/ConfigParser.h and src/ConfigParser.cpp: the settings that a JSON document describes. The name
-- of the n-th unnamed converter, `fmt::format("converter_{}", n)`, is a parameter.
pub mod Split
pub mod Laws
use forward_epics_to_kafka.Base.{
  ℕ, suc, ◌+◌, ◌%◌, ◌^◌, String, Bool, true, false, ◌||◌, Option, none, some, List, [], ◌∷◌, ◌++◌,
  Result, ok, err, ◌>>=◌, Exception, mapping_add_exception, str_eq, if◌then◌else◌,
}
use forward_epics_to_kafka.Uri.{Uri, UriLibrary, of_string}
use forward_epics_to_kafka.Json.{Json, array, object, items, find, find_string, is_object}

pub data CommandType : Type 0 where
  add stop_channel stop_all exit unknown : CommandType

pub record ConverterSettings : Type 0 where
  pub schema : String
  pub topic : String
  pub name : String

pub record StreamSettings : Type 0 where
  pub name : String
  pub epics_protocol : String
  pub converters : List ConverterSettings

-- The fields of `ConfigSettings` that this class writes.
pub record ConfigSettings : Type 0 where
  pub brokers : List Uri
  pub streams_info : List StreamSettings

unfoldable pub find_command : Json → CommandType
find_command document = elim (find_string "cmd" document) [
  | none ↦ unknown
  | some c ↦
      if str_eq c "add"
      then add
      else (if str_eq c "stop_channel"
          then stop_channel
          else (if str_eq c "stop_all"
              then stop_all
              else (if str_eq c "exit" then exit else unknown)))
]

-- The channel and the protocol.
unfoldable pub extract_mapping_info : Json → Result (String × String)
extract_mapping_info mapping =
    if is_object mapping
    then elim (find_string "channel" mapping) [
      | none ↦ err (mapping_add_exception "Cannot find channel")
      | some channel ↦ elim (find_string "channel_provider_type" mapping) [
        | none ↦ ok (channel, "pva")
        | some p ↦ ok (channel, if str_eq p "ca" || str_eq p "pva" then p else "pva")
      ]
    ]
    else err (mapping_add_exception "Given Mapping is not a JSON object")

module _ (auto_name : ℕ → String) where
  -- The settings, and the `ConverterIndex` after them.
  unfoldable pub extract_converter_settings : ℕ → Json → Result (ConverterSettings × ℕ)
  extract_converter_settings index mapping = elim (find_string "schema" mapping) [
    | none ↦ err (mapping_add_exception "Cannot find schema")
    | some s ↦ elim (find_string "topic" mapping) [
      | none ↦ err (mapping_add_exception "Cannot find topic")
      | some t ↦ elim (find_string "name" mapping) [
        | some n ↦ ok (record { schema = s; topic = t; name = n }, index)
        | none ↦ ok (record { schema = s; topic = t; name = auto_name index }, (index + 1) % 2 ^ 32)
      ]
    ]
  ]

  unfoldable pub extract_converters : ℕ → List Json → Result (List ConverterSettings × ℕ)
  extract_converters index [] = ok ([], index)
  extract_converters index (j ∷ js) = extract_converter_settings index j >>= λ (c, i).
      extract_converters i js >>= λ (cs, k). ok (c ∷ cs, k)

  -- The value under "converter": one object, an array of them, or something that is passed over.
  unfoldable pub converters_of : ℕ → Option Json → Result (List ConverterSettings × ℕ)
  unfolding extract_converters
  converters_of index (some (object ms)) = extract_converters index (object ms ∷ [])
  converters_of index (some (array js)) = extract_converters index (items js)
  converters_of index _ = ok ([], index)

  unfoldable pub extract_stream : ℕ → Json → Result (StreamSettings × ℕ)
  extract_stream index j = extract_mapping_info j >>= λ (channel, protocol).
      converters_of index (find "converter" j) >>= λ (cs, i).
      ok (record { name = channel; epics_protocol = protocol; converters = cs }, i)

  unfoldable pub extract_streams : ℕ → List Json → Result (List StreamSettings × ℕ)
  extract_streams index [] = ok ([], index)
  extract_streams index (j ∷ js) =
      extract_stream index j >>= λ (s, i). extract_streams i js >>= λ (ss, k). ok (s ∷ ss, k)

  -- The value under "streams", if it is an array.
  unfoldable pub streams_of : Option Json → List Json
  streams_of (some (array js)) = items js
  streams_of _ = []

  -- `extractStreamInfo` of a parser that was just made.
  unfoldable pub extract_stream_info : Json → Result ConfigSettings
  extract_stream_info document =
      extract_streams 0 (streams_of (find "streams" document)) >>= λ (ss, k).
      ok (record { brokers = []; streams_info = ss })
