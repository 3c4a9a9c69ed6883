-- ===== src/MainOpt.antt =====
-- src/MainOpt.h, src/MainOpt.cpp and src/logger.cpp: the options of the command line. CLI11 is a
-- parameter: it gives the options that it found, in the order in which it hands them to the program,
-- and how its parse ends where no callback throws. `std::stoi` is a parameter too.
pub mod Levels
pub mod Outcome
use forward_epics_to_kafka.Base.{
  ℕ, ◌%◌, ◌^◌, ◌==◌, String, Bool, true, false, not, ◌&&◌, Option, none, some, List, [], ◌∷◌, ◌++◌,
  find_if, Result, ok, err, ◌>>=◌, Exception, runtime_error, logic_error, Step, ◌>>>◌, is_empty,
  find_char, take_text, str_eq, leb, ltb, ◌-◌, if◌then◌else◌,
}
use forward_epics_to_kafka.Base.Int.{ℤ, pos, negsuc}
use forward_epics_to_kafka.Json.{Json}
use forward_epics_to_kafka.Uri.{Uri, UriLibrary, parse, of_string}
use forward_epics_to_kafka.ConfigParser.{StreamSettings, extract_stream_info}
use forward_epics_to_kafka.Forwarder.{is_runtime_error}

-- What `std::stoi` and `std::stol` make of a string.
pub data Number : Type 0 where
  integer : ℤ → Number
  invalid_argument out_of_range : Number

-- A level of spdlog is its number: trace is 0 and critical is 5.
unfoldable pub level_map : List (String × ℕ)
level_map =
    ("Critical", 5) ∷ ("Error", 4) ∷ ("Warning", 3) ∷ ("Info", 2) ∷ ("Debug", 1) ∷ ("Trace", 0) ∷ []

abbrev pub has_key : {A : Type 0} → String → String × A → Bool
has_key name (k, a) = str_eq k name

-- `static_cast` of an integer that was tested to a level.
abbrev pub checked_level : ℤ → Step ℕ Bool
checked_level (negsuc n) level = (level, ok false)
checked_level (pos n) level = if leb n 5 then (n, ok true) else (level, ok false)

abbrev pub numbered_level : Number → Step ℕ Bool
numbered_level (integer z) level = checked_level z level
numbered_level invalid_argument level = (level, ok false)
numbered_level out_of_range level = (level, err (logic_error "stoi"))

-- The state is `LogLevelResult`.
unfoldable pub parse_log_level : (String → Number) → List String → Step ℕ Bool
unfolding level_map
parse_log_level stoi (s ∷ []) level = elim (find_if (has_key s) level_map) [
  | some (k, n) ↦ (n, ok true)
  | none ↦ numbered_level (stoi s) level
]
parse_log_level stoi _ level = (level, ok false)

-- What the callback of `addUriOption` answers. CLI11 gives at least one result.
abbrev pub answer : Option Exception → Result Bool
answer none = ok true
answer (some e) = if is_runtime_error e then ok false else err e

unfoldable pub uri_option : UriLibrary → List String → Step Uri Bool
unfolding is_runtime_error
uri_option lib [] u = (u, err (logic_error "Results[0]"))
uri_option lib (s ∷ ss) u = let (u', thrown) = parse lib s u in (u', answer thrown)

-- `ConfigMap[Key] = Value`, in a list whose first entry of a key counts.
unfoldable pub kafka_option : List String → Step (List (String × String)) Bool
kafka_option (k ∷ v ∷ rest) config = kafka_option rest ((k, v) ∷ config)
kafka_option _ config = (config, ok true)

-- The 32 bits as a number of type `int`, and the low 32 bits of a `long`.
abbrev signed32 : ℕ → ℤ
signed32 n = if ltb n (2 ^ 31) then pos n else negsuc (2 ^ 32 - 1 - n)

abbrev to_int32 : ℤ → ℤ
to_int32 (pos n) = signed32 (n % 2 ^ 32)
to_int32 (negsuc n) = signed32 (2 ^ 32 - 1 - n % 2 ^ 32)

-- The overload for maps to `int`: `std::stol` gives a `long`.
unfoldable pub kafka_option_int : (String → Number) → List String → Step (List (String × ℤ)) Bool
kafka_option_int stol (k ∷ v ∷ rest) config = elim (stol v) [
  | integer z ↦ kafka_option_int stol rest ((k, to_int32 z) ∷ config)
  | invalid_argument ↦ (config, err (runtime_error "Argument is not an int"))
  | out_of_range ↦ (config, err (logic_error "stol"))
]
kafka_option_int stol _ config = (config, ok true)

-- `MainOpt`, with the fields of `ConfigSettings` that options are written to.
pub record MainOpt : Type 0 where
  pub print_version : Bool
  pub log_filename : String
  pub streams_file : String
  pub kafka_gelf_address : String
  pub graylog_logger_address : String
  pub influx_uri : String
  pub log_level : ℕ
  pub broker_config : Uri
  pub status_report_uri : Uri
  pub period_ms : ℕ
  pub fake_pv_period_ms : ℕ
  pub conversion_threads : ℕ
  pub conversion_worker_queue_size : ℕ
  pub main_poll_interval : ℤ
  pub kafka_configuration : List (String × String)
  pub streams_info : List StreamSettings

-- An option that CLI11 found, with its results; it converts the numbers itself.
pub data OptionCall : Type 0 where
  version : OptionCall
  log_file streams_json kafka_gelf graylog influx : String → OptionCall
  verbosity config_topic status_topic kafka_config : List String → OptionCall
  pv_update_period fake_pv_period threads worker_queue_size : ℕ → OptionCall
  poll_interval : ℤ → OptionCall

pub data Parsed : Type 0 where
  parsed call_for_help parse_error : Parsed

pub data ParseOptRet : Type 0 where
  success version_requested error : ParseOptRet

abbrev pub put_level : MainOpt → ℕ × Result Bool → MainOpt × Result Bool
put_level o (n, r) = (record o { log_level = n }, r)

-- What the options are read with: the C++ library, the file system, nlohmann's parser, the names of
-- unnamed converters, and whether the program is built with Graylog.
pub record OptLibrary : Type 0 where
  pub uri : UriLibrary
  pub stoi : String → Number
  pub read_file : String → String
  pub json_parse : String → Result Json
  pub auto_name : ℕ → String
  pub opens_log : String → Bool
  pub have_graylog : Bool

pub data Sink : Type 0 where
  daily_file : String → Sink
  graylog_sink : ℕ → String → ℕ → Sink
  console : Sink

-- `HostPort.substr(0, HostPort.find(':'))`, with the code of the colon.
abbrev host_of : String → String
host_of s = elim (find_char 58 s 0) [ none ↦ s | some i ↦ take_text i s ]

module _ (lib : OptLibrary) where
  unfoldable pub set_option : OptionCall → Step MainOpt Bool
  unfolding parse_log_level uri_option kafka_option
  set_option version o = (record o { print_version = true }, ok true)
  set_option (log_file s) o = (record o { log_filename = s }, ok true)
  set_option (streams_json s) o = (record o { streams_file = s }, ok true)
  set_option (kafka_gelf s) o = (record o { kafka_gelf_address = s }, ok true)
  set_option (graylog s) o = (record o { graylog_logger_address = s }, ok true)
  set_option (influx s) o = (record o { influx_uri = s }, ok true)
  set_option (verbosity rs) o = put_level o (parse_log_level lib.stoi rs o.log_level)
  set_option (config_topic rs) o =
      let (u, r) = uri_option lib.uri rs o.broker_config in (record o { broker_config = u }, r)
  set_option (status_topic rs) o =
      let (u, r) = uri_option lib.uri rs o.status_report_uri in
      (record o { status_report_uri = u }, r)
  set_option (kafka_config rs) o =
      let (c, r) = kafka_option rs o.kafka_configuration in
      (record o { kafka_configuration = c }, r)
  set_option (pv_update_period n) o = (record o { period_ms = n % 2 ^ 32 }, ok true)
  set_option (fake_pv_period n) o = (record o { fake_pv_period_ms = n % 2 ^ 32 }, ok true)
  set_option (threads n) o = (record o { conversion_threads = n }, ok true)
  set_option (worker_queue_size n) o = (record o { conversion_worker_queue_size = n }, ok true)
  set_option (poll_interval n) o = (record o { main_poll_interval = n }, ok true)

  -- `App.parse`: a callback that answers `false` makes CLI11 throw a parse error.
  unfoldable pub app_parse : List OptionCall → Parsed → Step MainOpt Parsed
  unfolding set_option
  app_parse [] end o = (o, ok end)
  app_parse (c ∷ cs) end o =
      (set_option c >>> λ taken s. if taken then app_parse cs end s else (s, ok parse_error)) o

  -- A file that is not open reads as the empty text.
  unfoldable pub parse_streams_json : String → Result (List StreamSettings)
  parse_streams_json path = lib.json_parse (lib.read_file path) >>= λ document.
      extract_stream_info lib.auto_name document >>= λ settings. ok settings.streams_info

  abbrev file_sinks : String → Result (List Sink)
  file_sinks file =
      if is_empty file
      then ok []
      else (if lib.opens_log file then ok (daily_file file ∷ []) else err (logic_error "spdlog_ex"))

  abbrev graylog_sinks : ℕ → String → Result (List Sink)
  graylog_sinks level address =
      if not (is_empty address) && lib.have_graylog
      then (of_string lib.uri address >>= λ u.
          ok (graylog_sink level (host_of u.host_port) u.port ∷ []))
      else ok []

  -- The sinks of the logger and its level.
  unfoldable pub set_up_logging : ℕ → String → String → Result (List Sink × ℕ)
  set_up_logging level file address = file_sinks file >>= λ files.
      graylog_sinks level address >>= λ graylogs. ok (files ++ graylogs ++ console ∷ [], level)

  abbrev read_streams : MainOpt → Result (List StreamSettings) → ParseOptRet × MainOpt
  read_streams o (err e) = (error, o)
  read_streams o (ok infos) = (success, record o { streams_info = infos })

  abbrev ret_of : Parsed → Bool → ParseOptRet
  ret_of parsed versioned = success
  ret_of call_for_help versioned = error
  ret_of parse_error versioned = if versioned then success else error

  abbrev with_logging : ParseOptRet → MainOpt → ParseOptRet × MainOpt
  with_logging error o = (error, o)
  with_logging ret o =
      if is_empty o.streams_file
      then (ret, o)
      else read_streams o (parse_streams_json o.streams_file)

  -- `parse_opt` behind `App.parse`.
  unfoldable pub after_parse : Parsed → MainOpt → Result (ParseOptRet × MainOpt)
  unfolding parse_streams_json set_up_logging
  after_parse end o =
      if o.print_version
      then ok (version_requested, o)
      else set_up_logging o.log_level o.log_filename o.graylog_logger_address >>= λ _.
          ok (with_logging (ret_of end o.print_version) o)

  abbrev pub finish : MainOpt × Result Parsed → Result (ParseOptRet × MainOpt)
  finish (o, err e) = err e
  finish (o, ok end) = after_parse end o

  unfoldable pub parse_opt : List OptionCall → Parsed → MainOpt → Result (ParseOptRet × MainOpt)
  unfolding app_parse after_parse
  parse_opt calls end o = finish (app_parse calls end o)
