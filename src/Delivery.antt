-- ===== src/Delivery.antt =====
-- The end of an update's way: ConversionPath::emit of src/Stream.cpp, the converters behind
-- Converter::convert of src/Converter.cpp, and KafkaOutput::emit of src/KafkaOutput.cpp, on the producers
-- of the brokers. The size of a message's buffer and what librdkafka does are parameters: the answer to
-- the n-th message, and the deliveries that the poll before it reports.
pub mod Rounds
use forward_epics_to_kafka.Base.{
  ℕ, suc, ◌+◌, ◌*◌, ◌%◌, ◌^◌, ◌≡◌, Bool, Option, none, some, List, [], ◌∷◌, ◌++◌, length,
}
use forward_epics_to_kafka.Stream.Fill.{update_at}
use forward_epics_to_kafka.F142.{AlarmSchema, PvUpdate, LogData, Statistics, alarm_info}
use forward_epics_to_kafka.F142.{create as create_log_data}
use forward_epics_to_kafka.TdcTime.{PvStructure, TdcMessage}
use forward_epics_to_kafka.TdcTime.{create as create_times}
use forward_epics_to_kafka.Kafka.{ErrorCode, no_error, Producer}
use forward_epics_to_kafka.Kafka.Race.{produce_among}
use forward_epics_to_kafka.Kafka.Producers.{Totals, emit}
use forward_epics_to_kafka.Kafka.Ownership.{Owned}

-- An update, as either converter asks it.
pub record Update (V : Type 0) : Type 0 where
  pub pv : PvUpdate V
  pub structure : PvStructure

pub data Message (V : Type 0) : Type 0 where
  log_data : LogData V → Message V
  times : TdcMessage → Message V

-- The creators behind a `Converter`; an f142 one has statistics of its own.
pub data Creator : Type 0 where
  f142 : ℕ → Creator
  tdc_time : Creator

pub record OutputPath : Type 0 where
  pub creator : Creator
  pub broker : ℕ

-- The statistics of the f142 converters, and the sequence number of tdc_time.
pub record Converters : Type 0 where
  pub stats : ℕ → Statistics
  pub sequence_number : ℕ

-- `log` has each message handed to librdkafka, with its path.
pub record Outputs (V : Type 0) : Type 0 where
  pub converters : Converters
  pub producers : ℕ → Producer
  pub totals : Totals
  pub attempts : ℕ
  pub log : List (ℕ × Message V)

abbrev pub as_times : {V : Type 0} → Option TdcMessage → Option (Message V)
as_times none = none
as_times (some m) = some (times m)

-- The generated schema, the sizes of messages, the answers and deliveries of librdkafka by the number of
-- the message, and the paths by their numbers.
pub record Environment (V : Type 0) : Type 0 where
  pub schema : AlarmSchema
  pub message_size : Message V → ℕ
  pub reply : ℕ → ErrorCode
  pub served : ℕ → List (ℕ × Bool)
  pub path_of : ℕ → OutputPath

-- How many messages librdkafka takes with this answer.
abbrev pub accepted_of : ErrorCode → ℕ
accepted_of no_error = 1
accepted_of _ = 0

module _ {V : Type 0} (env : Environment V) where
  -- `Converter::convert`: a message or a null pointer; the outer `none` is a fault.
  unfoldable pub convert :
      Creator → Update V → Converters → Option (Option (Message V) × Converters)
  unfolding create_log_data create_times
  convert (f142 c) u cs = elim (create_log_data env.schema u.pv (cs.stats c)) [
    | none ↦ none
    | some (m, st) ↦ some (some (log_data m), record cs { stats = update_at cs.stats c st })
  ]
  convert tdc_time u cs =
      let (m, n) = create_times u.pv.channel u.structure cs.sequence_number in
      some (as_times m, record cs { sequence_number = n })

  -- `KafkaOutput::emit` of a message, which is handed to the producer as it is.
  unfoldable pub send : ℕ → Message V → Outputs V → Option (Outputs V)
  unfolding produce_among emit
  send p m w =
      let b = (env.path_of p).broker in
      elim (produce_among (env.served w.attempts) (env.reply w.attempts) [] (env.message_size m)
        (w.producers b)) [
          | none ↦ none
          | some (q, result) ↦ some (record w {
            producers = update_at w.producers b q;
            totals = (emit (some (env.message_size m)) result w.totals).0;
            attempts = suc w.attempts;
            log = w.log ++ (p, m) ∷ [];
          })
        ]

  -- `ConversionPath::emit`.
  unfoldable pub emit_update : ℕ → Update V → Option (Outputs V) → Option (Outputs V)
  unfolding convert send
  emit_update p u none = none
  emit_update p u (some w) = elim (convert (env.path_of p).creator u w.converters) [
    | none ↦ none
    | some (none, cs) ↦ some (record w { converters = cs })
    | some (some m, cs) ↦ send p m (record w { converters = cs })
  ]

  abbrev pub entry : ℕ → Option (Message V) → List (ℕ × Message V)
  entry p none = []
  entry p (some m) = (p, m) ∷ []

  -- What the converters of the paths make of updates, in order, and how they are left.
  unfoldable pub converted : List (ℕ × Update V) → Converters → List (ℕ × Message V) × Converters
  unfolding convert
  converted [] cs = ([], cs)
  converted ((p, u) ∷ us) cs = elim (convert (env.path_of p).creator u cs) [
    | none ↦ ([], cs)
    | some (m, cs') ↦ let (ms, cs2) = converted us cs' in (entry p m ++ ms, cs2)
  ]

  -- How many of the messages from the i-th on librdkafka accepts, and how many bytes these have.
  abbrev pub accepted_from : ℕ → List (ℕ × Message V) → ℕ
  accepted_from i [] = 0
  accepted_from i (k ∷ ks) = accepted_of (env.reply i) + accepted_from (suc i) ks

  abbrev pub bytes_from : ℕ → List (ℕ × Message V) → ℕ
  bytes_from i [] = 0
  bytes_from i (k ∷ ks) = accepted_of (env.reply i) * env.message_size k.1 + bytes_from (suc i) ks

  -- After messages: librdkafka was given just these, in order and on their paths, the totals have those
  -- that it accepted, and each producer owns the messages that librdkafka still holds.
  pub record Delivered (ms : List (ℕ × Message V)) (w w' : Outputs V) : Type 0 where
    pub log : w'.log ≡ w.log ++ ms
    pub attempts : w'.attempts ≡ w.attempts + length ms
    pub kept : (b : ℕ) → Owned (w'.producers b)
    pub messages :
        w'.totals.messages % 2 ^ 64 ≡ (w.totals.messages + accepted_from w.attempts ms) % 2 ^ 64
    pub bytes : w'.totals.bytes % 2 ^ 64 ≡ (w.totals.bytes + bytes_from w.attempts ms) % 2 ^ 64

  -- Either converter can make something of the update: f142 needs the fields of its alarm.
  abbrev pub Converts : Creator → Update V → Type 0
  Converts (f142 c) u = (a : Option (ℕ × ℕ)) × (alarm_info env.schema u.pv ≡ some a)
  Converts tdc_time u = Unit
