-- ===== src/TdcTime.antt =====
-- src/schemas/tdc_time/TdcTime.cpp: the time stamps of a chopper, sent as an array of 32-bit integers
-- that holds seconds and nanoseconds in turn.
pub mod Stamps
use forward_epics_to_kafka.Base.{
  ℕ, zero, suc, ◌+◌, ◌-◌, ◌%◌, ◌^◌, ◌==◌, String, Bool, true, false, not, Option, none, some, List,
  [], ◌∷◌, length, Result, ok, err, runtime_error, str_eq, if◌then◌else◌,
}
use forward_epics_to_kafka.Base.Int.{ℤ, pos, negsuc, ◌+ℤ◌, ◌*ℤ◌}

-- A `long` as `std::uint64_t`.
unfoldable pub to_uint64 : ℤ → ℕ
to_uint64 (pos n) = n % 2 ^ 64
to_uint64 (negsuc n) = 2 ^ 64 - 1 - n % 2 ^ 64

-- The loop over the elements, two at a time. The sums of two 32-bit integers fit into a `long`.
unfoldable pub stamps : List ℤ → List ℕ
unfolding to_uint64 ◌+ℤ◌ ◌*ℤ◌
stamps (s ∷ n ∷ xs) = to_uint64 ((s *ℤ pos 1000000000) +ℤ n) ∷ stamps xs
stamps _ = []

unfoldable pub calc_timestamps : List ℤ → Result (List ℕ)
unfolding stamps
calc_timestamps xs =
    if not (length xs % 2 == 0)
    then err (runtime_error "Size of pvAccess array is not a multiple of two.")
    else ok (stamps xs)

-- What the converter asks of the structure: its type, whether its elements are `pvInt`, and they.
pub record PvStructure : Type 0 where
  pub id : String
  pub is_int : Bool
  pub values : List ℤ

pub record TdcMessage : Type 0 where
  pub name : String
  pub timestamps : List ℕ
  pub sequence_counter : ℕ

abbrev pub expected_struct_type : String
expected_struct_type = "epics:nt/NTScalarArray:1.0"

abbrev pub generate_flatbuffer_from_data : String → List ℕ → ℕ → Option TdcMessage × ℕ
generate_flatbuffer_from_data name ts n =
    (some (record { name = name; timestamps = ts; sequence_counter = n }), (n + 1) % 2 ^ 64)

abbrev pub message_of : String → Result (List ℕ) → ℕ → Option TdcMessage × ℕ
message_of name (err e) n = (none, n)
message_of name (ok []) n = (none, n)
message_of name (ok (t ∷ ts)) n = generate_flatbuffer_from_data name (t ∷ ts) n

-- The number is the static `SequenceNumber`.
unfoldable pub create : String → PvStructure → ℕ → Option TdcMessage × ℕ
unfolding calc_timestamps
create channel v n =
    if not (str_eq v.id expected_struct_type)
    then (none, n)
    else (if not v.is_int then (none, n) else message_of channel (calc_timestamps v.values) n)
