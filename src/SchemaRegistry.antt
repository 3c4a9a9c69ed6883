-- ===== src/SchemaRegistry.antt =====
-- src/SchemaRegistry.h, src/Converter.cpp and registerSchemas of src/Forwarder.cpp: the schemas that a
-- converter can be made for.
use forward_epics_to_kafka.Base.{
  ℕ, zero, suc, ◌≡◌, refl, String, Bool, true, false, Option, none, some, List, [], ◌∷◌, str_eq,
  eq_iff, if◌then◌else◌, arith, inl, inr, Bool-cases, ◌⊎◌,
}
use forward_epics_to_kafka.Forwarder.{is_registered}

-- The classes behind `SchemaInfo`, and the creators of messages that they make.
pub data SchemaInfo : Type 0 where
  f142_info tdc_time_info : SchemaInfo

pub data Creator : Type 0 where
  f142_creator tdc_time_creator : Creator

unfoldable pub create_creator : SchemaInfo → Creator
create_creator f142_info = f142_creator
create_creator tdc_time_info = tdc_time_creator

abbrev pub SchemaMap : Type 0
SchemaMap = List (String × SchemaInfo)

-- `items().find`: the first entry of a name counts.
unfoldable pub find_schema : String → SchemaMap → Option SchemaInfo
find_schema name [] = none
find_schema name ((n, info) ∷ rest) = if str_eq n name then some info else find_schema name rest

abbrev is_there : Option SchemaInfo → Bool
is_there none = false
is_there (some i) = true

-- The entry of a name that is there already is overwritten. The flag says whether that is warned of.
unfoldable pub register_schema : String → SchemaInfo → SchemaMap → SchemaMap × Bool
unfolding find_schema
register_schema name info items = ((name, info) ∷ items, is_there (find_schema name items))

unfoldable pub register_schemas : SchemaMap → SchemaMap
unfolding register_schema
register_schemas items =
    (register_schema "TdcTime" tdc_time_info (register_schema "f142" f142_info items).0).0

-- `items` is static: every `Forwarder` of a process registers the schemas again.
unfoldable pub register_times : ℕ → SchemaMap
unfolding register_schemas
register_times zero = []
register_times (suc n) = register_schemas (register_times n)

pub record SchemaConverter : Type 0 where
  pub schema : String
  pub conv : Option Creator

-- `Converter::create`; `none` is the null pointer. The settings under `GlobalConverters` go to `config`
-- of the creator, which drops them in both classes.
unfoldable pub create : SchemaMap → String → Option SchemaConverter
unfolding find_schema create_creator
create items schema = elim (find_schema schema items) [
  | none ↦ none
  | some info ↦ some (record { schema = schema; conv = some (create_creator info) })
]

unfoldable pub schema_name : SchemaConverter → String
schema_name c = c.schema

-- The creator for each name that the forwarder knows.
abbrev pub creator_for : String → Creator
creator_for name = if str_eq name "TdcTime" then tdc_time_creator else f142_creator

str_eq_comm : (a b : String) → str_eq a b ≡ str_eq b a
str_eq_comm a b = elim (Bool-cases (str_eq a b)) [
  | inl e ↦ elim (Bool-cases (str_eq b a)) [
    | inl f ↦ cc
    | inr f ↦ grind (arith, eq_iff a b, eq_iff b a, e, f)
  ]
  | inr e ↦ elim (Bool-cases (str_eq b a)) [
    | inl f ↦ grind (arith, eq_iff a b, eq_iff b a, e, f)
    | inr f ↦ cc
  ]
]

-- However often the schemas are registered, other names are not found.
find_schema_other :
    (n : ℕ) (name : String)
    → str_eq name "TdcTime" ≡ false
    → str_eq name "f142" ≡ false
    → find_schema name (register_times n) ≡ none
unfolding register_times register_schemas find_schema
find_schema_other zero name e f = refl
find_schema_other (suc n) name e f =
    let e' = str_eq_comm "TdcTime" name in
    let f' = str_eq_comm "f142" name in
    let rest = find_schema_other n name e f in ground (arith, e, f, e', f', rest)

-- However often the schemas were registered, if ever: a schema that `pushConverterToStream` lets through
-- has a converter of its own class, which bears its name; of any other schema there is none. So the
-- null pointer that it tests for never comes.
pub create-is_registered :
    (n : ℕ) (name : String)
    → ((is_registered name ≡ true)
        × (create (register_times (suc n)) name
            ≡ some (record { schema = name; conv = some (creator_for name) })))
      ⊎ ((is_registered name ≡ false) × (create (register_times (suc n)) name ≡ none))
unfolding create is_registered register_times register_schemas find_schema create_creator
create-is_registered n name =
    let e' = str_eq_comm "TdcTime" name in
    let f' = str_eq_comm "f142" name in
    elim (Bool-cases (str_eq name "TdcTime")) [
      | inl e ↦ ground (arith, e, e')
      | inr e ↦ elim (Bool-cases (str_eq name "f142")) [
        | inl f ↦ ground (arith, e, e', f, f')
        | inr f ↦ let rest = find_schema_other n name e f in ground (arith, e, e', f, f', rest)
      ]
    ]
