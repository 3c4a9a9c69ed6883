-- ===== src/F142.antt =====
-- src/schemas/f142/f142.cpp and src/schemas/f142/DataFromPVStruct.cpp: the log data message of an
-- update. The names of the alarm states are generated from the schema, a parameter; `V` is the type of
-- the contents of a value, which are copied. Faults are accesses through null pointers.
pub mod Arrays
use forward_epics_to_kafka.Base.{
  ℕ, suc, ◌+◌, ◌-◌, ◌*◌, ◌%◌, ◌^◌, ◌==◌, String, Bool, true, false, not, Option, none, some, List,
  [], ◌∷◌, size, take_text, str_eq, if◌then◌else◌,
}
use forward_epics_to_kafka.Base.Int.{ℤ, pos, negsuc}
use forward_epics_to_kafka.TdcTime.{to_uint64}

-- `epics::pvData::ScalarType`.
pub data ScalarType : Type 0 where
  pv_boolean pv_byte pv_short pv_int pv_long pv_ubyte pv_ushort pv_uint pv_ulong pv_float pv_double
        pv_string :
      ScalarType

pub data Element : Type 0 where
  byte short int long ubyte ushort uint ulong float double text : Element

-- The member of the union `Value` in the message.
pub data Value : Type 0 where
  no_value : Value
  scalar array_of : Element → Value

-- The field "value", by its type: other fields are structures that are no NTEnum, unions and arrays of
-- these. An NTEnum gives the type of its index.
pub data ValueField (V : Type 0) : Type 0 where
  scalar_field array_field enum_field : ScalarType → V → ValueField V
  other_field : ValueField V

pub record Statistics : Type 0 where
  pub err_timestamp_not_available : ℕ
  pub err_not_implemented_yet : ℕ

-- `BuilderType_to_Enum_Value` of `Make_Scalar`'s `ScalarType`; no number type is a text.
unfoldable pub element_of : ScalarType → Element
element_of pv_boolean = byte
element_of pv_byte = byte
element_of pv_short = short
element_of pv_int = int
element_of pv_long = long
element_of pv_ubyte = ubyte
element_of pv_ushort = ushort
element_of pv_uint = uint
element_of pv_ulong = ulong
element_of pv_float = float
element_of pv_double = double
element_of pv_string = text

abbrev pub count_unimplemented : Statistics → Statistics
count_unimplemented s = record s {
  err_not_implemented_yet = (s.err_not_implemented_yet + 1) % 2 ^ 64;
}

module _ {V : Type 0} where
  unfoldable pub make_value_scalar : ScalarType → V → Statistics → (Value × Option V) × Statistics
  unfolding element_of
  make_value_scalar t v s = ((scalar (element_of t), some v), s)

  unfoldable pub make_value_array : ScalarType → V → Statistics → (Value × Option V) × Statistics
  unfolding element_of
  make_value_array pv_string v s = ((no_value, none), count_unimplemented s)
  make_value_array t v s = ((array_of (element_of t), some v), s)

  -- `none` is a structure without a field "value".
  unfoldable pub make_value : Option (ValueField V) → Statistics → (Value × Option V) × Statistics
  unfolding make_value_scalar make_value_array
  make_value none s = ((no_value, none), s)
  make_value (some (scalar_field t v)) s = make_value_scalar t v s
  make_value (some (array_field t v)) s = make_value_array t v s
  make_value (some (enum_field t v)) s = make_value_scalar t v s
  make_value (some other_field) s = ((no_value, none), s)

-- The severities of `epics::pvData` and of the message.
pub data EpicsSeverity : Type 0 where
  no_alarm minor_alarm major_alarm invalid_alarm undefined_alarm : EpicsSeverity

pub data AlarmSeverity : Type 0 where
  minor major no_severity invalid : AlarmSeverity

-- `EpicsSeverityToFlatbufferSeverity`.
unfoldable pub flatbuffer_severity : EpicsSeverity → AlarmSeverity
flatbuffer_severity minor_alarm = minor
flatbuffer_severity major_alarm = major
flatbuffer_severity no_alarm = no_severity
flatbuffer_severity invalid_alarm = invalid
flatbuffer_severity undefined_alarm = invalid

-- What the generated code gives: the names of the alarm states, in the order of their numbers, the
-- numbers of some, and those of the severities; and what EPICS gives, the severity of a number.
pub record AlarmSchema : Type 0 where
  pub names : List String
  pub no_alarm_status : ℕ
  pub udf : ℕ
  pub number : AlarmSeverity → ℕ
  pub epics_severity : ℤ → Option EpicsSeverity

pub record Alarm : Type 0 where
  pub message : String
  pub severity : Option ℤ

-- `substr(0, length() - 6)`: the difference wraps around, and more than there is is all.
abbrev pub without_suffix : String → String
without_suffix s = take_text ((size s + 2 ^ 64 - 6) % 2 ^ 64) s

-- The loop over the names; the number is `i`.
abbrev pub find_name : String → ℕ → List String → Option ℕ
find_name s i [] = none
find_name s i (n ∷ ns) = if str_eq s n then some i else find_name s (suc i) ns

module _ (schema : AlarmSchema) where
  unfoldable pub status_of_text : String → ℕ
  status_of_text s =
      elim (find_name (if str_eq s "NO_ALARM" then s else without_suffix s) 0 schema.names) [
        | none ↦ schema.udf
        | some i ↦ i
      ]

  unfoldable pub get_alarm_status : Option Alarm → ℕ
  unfolding status_of_text
  get_alarm_status none = schema.no_alarm_status
  get_alarm_status (some a) = status_of_text a.message

  -- `operator[]` of the map: the number 0 where the map has no entry.
  unfoldable pub severity_of : ℤ → ℕ
  unfolding flatbuffer_severity
  severity_of v = elim (schema.epics_severity v) [
    | none ↦ 0
    | some e ↦ schema.number (flatbuffer_severity e)
  ]

  -- `none`: the alarm has no severity.
  unfoldable pub get_alarm_severity : Option Alarm → Option ℕ
  unfolding severity_of
  get_alarm_severity none = some (schema.number no_severity)
  get_alarm_severity (some a) = elim a.severity [ none ↦ none | some n ↦ some (severity_of n) ]

pub record PvUpdate (V : Type 0) : Type 0 where
  pub channel : String
  pub value : Option (ValueField V)
  pub alarm : Option Alarm
  pub alarm_status_changed : Bool
  -- The seconds and the nanoseconds.
  pub time_stamp : Option (ℤ × ℤ)

pub record LogData (V : Type 0) : Type 0 where
  pub key : String
  pub source_name : String
  pub value_type : Value
  pub value : Option V
  pub alarm : Option (ℕ × ℕ)
  pub timestamp : Option ℕ

unfoldable pub timestamp_of : ℤ × ℤ → ℕ
unfolding to_uint64
timestamp_of (s, n) = (to_uint64 s * 1000000000 % 2 ^ 64 + to_uint64 n) % 2 ^ 64

abbrev pub count_timestamp : Option (ℤ × ℤ) → Statistics → Statistics
count_timestamp (some t) s = s
count_timestamp none s = record s {
  err_timestamp_not_available = (s.err_timestamp_not_available + 1) % 2 ^ 64;
}

abbrev pub stamp : Option (ℤ × ℤ) → Option ℕ
stamp none = none
stamp (some t) = some (timestamp_of t)

module _ {V : Type 0} (schema : AlarmSchema) where
  -- `none` is a fault.
  unfoldable pub alarm_info : PvUpdate V → Option (Option (ℕ × ℕ))
  unfolding get_alarm_status get_alarm_severity
  alarm_info u =
      if u.alarm_status_changed
      then elim (get_alarm_severity schema u.alarm) [
        | none ↦ none
        | some n ↦ some (some (get_alarm_status schema u.alarm, n))
      ]
      else some none

  unfoldable pub create : PvUpdate V → Statistics → Option (LogData V × Statistics)
  unfolding make_value alarm_info timestamp_of
  create u s =
      let (v, s') = make_value u.value s in
      elim (alarm_info u) [
        | none ↦ none
        | some a ↦ some (
          record {
            key = u.channel;
            source_name = u.channel;
            value_type = v.0;
            value = v.1;
            alarm = a;
            timestamp = stamp u.time_stamp;
          },
          count_timestamp u.time_stamp s',
        )
      ]
