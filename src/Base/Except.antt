-- ===== src/Base/Except.antt =====
-- C++ exceptions as values, by the classes that the program's handlers tell apart.
use Prim.Native.String.{String}

-- `std::runtime_error` (and the program's own `TopicCreationError`), `MappingAddException`, which
-- derives from it, `MetadataException` and `std::logic_error` (`std::out_of_range`,
-- `std::invalid_argument`), which do not, and `nlohmann::json::parse_error`.
pub data Exception : Type 0 where
  runtime_error mapping_add_exception metadata_exception logic_error parse_error :
      String → Exception

pub data Result {ℓ} (A : Type ℓ) : Type ℓ where
  ok : A → Result A
  err : Exception → Result A

-- What comes after a call that may throw is passed over where it does.
infixl 5 ◌>>=◌
abbrev pub ◌>>=◌ {ℓ κ} : {A : Type ℓ} {B : Type κ} → Result A → (A → Result B) → Result B
call >>= rest = elim call [ err thrown ↦ err thrown | ok value ↦ rest value ]
