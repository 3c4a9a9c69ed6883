-- ===== src/F142/Arrays.antt =====
-- src/schemas/f142/f142.cpp: Make_ScalarArray, which puts the elements of an array into the buffer. A
-- number of EPICS is a ℤ: a boolean is 0 or 1, and a float stands for the number with its bits. The
-- machine and flatbuffers are a parameter.
pub mod Bytes
pub mod Reads
use forward_epics_to_kafka.Base.{
  ℕ, zero, suc, ◌+◌, ◌-◌, ◌*◌, ◌/◌, ◌%◌, Bool, true, false, List, [], ◌∷◌, ◌++◌, map, length,
  if◌then◌else◌,
}
use forward_epics_to_kafka.Base.Int.{ℤ, pos, negsuc}
use forward_epics_to_kafka.F142.{
  ScalarType, pv_boolean, pv_byte, pv_short, pv_int, pv_long, pv_ubyte, pv_ushort, pv_uint,
  pv_ulong, pv_float, pv_double, pv_string, Element, Value, no_value, array_of, element_of,
}

abbrev pub take : ℕ → List ℕ → List ℕ
take zero xs = []
take (suc n) [] = []
take (suc n) (x ∷ xs) = x ∷ take n xs

abbrev pub drop : ℕ → List ℕ → List ℕ
drop zero xs = xs
drop (suc n) [] = []
drop (suc n) (x ∷ xs) = drop n xs

-- The number of patterns of so many bytes.
abbrev pub modulus : ℕ → ℕ
modulus zero = 1
modulus (suc w) = 256 * modulus w

-- The bits of a number, in two's complement.
abbrev pub pattern_of : ℕ → ℤ → ℕ
pattern_of w (pos n) = n % modulus w
pattern_of w (negsuc n) = modulus w - 1 - n % modulus w

-- `sizeof(T0)`, with the `T0` that `makeValueArray` gives for a type; texts have none.
unfoldable pub size_of : ScalarType → ℕ
size_of pv_boolean = 1
size_of pv_byte = 1
size_of pv_short = 2
size_of pv_int = 4
size_of pv_long = 8
size_of pv_ubyte = 1
size_of pv_ushort = 2
size_of pv_uint = 4
size_of pv_ulong = 8
size_of pv_float = 4
size_of pv_double = 8
size_of pv_string = 0

-- What the machine and flatbuffers give, each for the size of an element: the bytes of one in memory,
-- the bytes of a new vector of so many, and those that `CreateVector` stores.
pub record Host : Type 0 where
  pub memory : ℕ → ℕ → List ℕ
  pub uninitialized : ℕ → ℕ → List ℕ
  pub create_vector : ℕ → List ℕ → List ℕ

-- A vector in the buffer: its number of elements and its bytes.
pub record Vector : Type 0 where
  pub count : ℕ
  pub bytes : List ℕ

abbrev pub concat_map : (ℕ → List ℕ) → List ℕ → List ℕ
concat_map f [] = []
concat_map f (x ∷ xs) = f x ++ concat_map f xs

-- `memcpy`: the destination after its first bytes have been replaced.
unfoldable pub mem_cpy : List ℕ → List ℕ → ℕ → List ℕ
mem_cpy destination source n = take n source ++ drop n destination

module _ (host : Host) where
  -- `VectorValue`.
  unfoldable pub vector_value : ScalarType → Bool → List ℤ → List ℕ
  unfolding mem_cpy
  vector_value t use_mem_cpy values =
      let elements = map (pattern_of (size_of t)) values in
      if use_mem_cpy
      then mem_cpy (host.uninitialized (size_of t) (length values))
          (concat_map (host.memory (size_of t)) elements) (length values * size_of t)
      else host.create_vector (size_of t) elements

  unfoldable pub convert_array : ScalarType → Bool → List ℤ → Value × Vector
  unfolding element_of vector_value
  convert_array t use_mem_cpy values = (
    array_of (element_of t),
    record { count = length values; bytes = vector_value t use_mem_cpy values },
  )
