-- ===== src/ConfigParser/Laws.antt =====
-- What the settings that come out of a document say of it.
use forward_epics_to_kafka.Base.{
  ℕ, ◌≡◌, String, Option, none, some, List, [], ◌∷◌, Result, ok, err, ◌⊎◌,
}
use forward_epics_to_kafka.Json.{Json, array, object, items, find, find_string}
use forward_epics_to_kafka.ConfigParser.{ConverterSettings, StreamSettings}

-- The value of a result that is not an exception satisfies `P`.
abbrev pub OnOk {ℓ} : {A : Type ℓ} → (A → Type 0) → Result A → Type 0
OnOk P (ok a) = P a
OnOk P (err e) = Unit

-- The channel of the element, and a protocol that the EPICS clients know.
abbrev pub Maps : Json → String → String → Type 0
Maps j channel protocol =
    (find_string "channel" j ≡ some channel) × ((protocol ≡ "ca") ⊎ (protocol ≡ "pva"))

module _ (auto_name : ℕ → String) where
  -- The settings of a converter: its schema, its topic, and the name that is given or made.
  abbrev pub Converts : Json → ConverterSettings → Type 0
  Converts j c =
      (find_string "schema" j ≡ some c.schema)
      × (find_string "topic" j ≡ some c.topic)
      × ((find_string "name" j ≡ some c.name)
          ⊎ ((find_string "name" j ≡ none) × ((n : ℕ) × (c.name ≡ auto_name n))))

  -- The settings of the elements of a list, one for each, in order.
  abbrev pub ConvertsEach : List Json → List ConverterSettings → Type 0
  ConvertsEach [] [] = Unit
  ConvertsEach (j ∷ js) (c ∷ cs) = Converts j c × ConvertsEach js cs
  ConvertsEach _ _ = ⊥

  -- A lone object describes one converter, an array one for each element, and nothing else any.
  abbrev pub ConvertsUnder : Option Json → List ConverterSettings → Type 0
  ConvertsUnder (some (object ms)) cs = ConvertsEach (object ms ∷ []) cs
  ConvertsUnder (some (array js)) cs = ConvertsEach (items js) cs
  ConvertsUnder _ cs = cs ≡ []

  abbrev pub Describes : Json → StreamSettings → Type 0
  Describes j s = Maps j s.name s.epics_protocol × ConvertsUnder (find "converter" j) s.converters

  abbrev pub DescribesEach : List Json → List StreamSettings → Type 0
  DescribesEach [] [] = Unit
  DescribesEach (j ∷ js) (s ∷ ss) = Describes j s × DescribesEach js ss
  DescribesEach _ _ = ⊥
