-- ===== src/F142/Arrays/Reads.antt =====
-- What a reader of the message finds in an array.
use forward_epics_to_kafka.Base.{
  ℕ, ◌*◌, ◌≡◌, ◌⊎◌, Bool, true, false, Option, none, some, List, map, length,
}
use forward_epics_to_kafka.Base.Int.{ℤ, pos}
use forward_epics_to_kafka.F142.{
  ScalarType, pv_boolean, pv_byte, pv_short, pv_int, pv_long, pv_ubyte, pv_ushort, pv_uint,
  pv_ulong, pv_float, pv_double, pv_string, Element, byte, short, int, long, ubyte, ushort, uint,
  ulong, float, double, text, Value, no_value, scalar, array_of,
}
use forward_epics_to_kafka.F142.Arrays.{Host, Vector, concat_map}
use forward_epics_to_kafka.F142.Arrays.Bytes.{little_endian, chunks, of_pattern, Fits}

-- The sizes of the types of flatbuffers, which the members of the union are named after.
abbrev pub width : Element → ℕ
width byte = 1
width short = 2
width int = 4
width long = 8
width ubyte = 1
width ushort = 2
width uint = 4
width ulong = 8
width float = 4
width double = 8
width text = 0

abbrev pub is_signed : Element → Bool
is_signed byte = true
is_signed short = true
is_signed int = true
is_signed long = true
is_signed e = false

abbrev pub read_value : Value → Vector → Option (List ℤ)
read_value no_value vector = none
read_value (scalar e) vector = none
read_value (array_of e) vector =
    some (map (of_pattern (is_signed e) (width e)) (chunks vector.count (width e) vector.bytes))

-- The values of a type of EPICS.
abbrev pub InRange : ScalarType → ℤ → Type 0
InRange pv_boolean v = (v ≡ pos 0) ⊎ (v ≡ pos 1)
InRange pv_byte v = Fits true 1 v
InRange pv_short v = Fits true 2 v
InRange pv_int v = Fits true 4 v
InRange pv_long v = Fits true 8 v
InRange pv_ubyte v = Fits false 1 v
InRange pv_ushort v = Fits false 2 v
InRange pv_uint v = Fits false 4 v
InRange pv_ulong v = Fits false 8 v
InRange pv_float v = Fits false 4 v
InRange pv_double v = Fits false 8 v
InRange pv_string v = Fits false 0 v

-- The host stores the least significant byte first, a new vector has the size that is asked for, and
-- flatbuffers stores elements as its format says.
pub record IsLittleEndian (host : Host) : Type 0 where
  pub memory : (w x : ℕ) → host.memory w x ≡ little_endian w x
  pub room : (w n : ℕ) → length (host.uninitialized w n) ≡ n * w
  pub stores : (w : ℕ) (xs : List ℕ) → host.create_vector w xs ≡ concat_map (little_endian w) xs
