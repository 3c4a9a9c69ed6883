-- ===== src/Json.antt =====
-- src/json.h and src/json.cpp, over the values of `nlohmann::json`, by the kinds that the source
-- tells apart. The text of a number is not looked at.
use forward_epics_to_kafka.Base.{
  String, Bool, true, false, Option, none, some, List, [], ◌∷◌, str_eq, if◌then◌else◌,
}

mutual
  pub data Json : Type 0 where
    null : Json
    boolean : Bool → Json
    number : String → Json
    string : String → Json
    array : Items → Json
    object : Members → Json

  pub data Items : Type 0 where
    nil : Items
    cons : Json → Items → Items

  pub data Members : Type 0 where
    end : Members
    member : String → Json → Members → Members

unfoldable pub items : Items → List Json
items nil = []
items (cons j js) = j ∷ items js

-- `Json.find(Key)` on an object.
unfoldable pub find_member : String → Members → Option Json
find_member key end = none
find_member key (member k j ms) = if str_eq k key then some j else find_member key ms

-- `find<nlohmann::json>(Key, Json)`.
unfoldable pub find : String → Json → Option Json
find key (object ms) = find_member key ms
find key _ = none

-- `get<std::string>()`; `none` is its exception.
unfoldable pub get_string : Json → Option String
get_string (string s) = some s
get_string _ = none

-- `find<std::string>(Key, Json)`.
unfoldable pub find_string : String → Json → Option String
unfolding find get_string
find_string key j = elim (find key j) [ none ↦ none | some v ↦ get_string v ]

unfoldable pub is_array : Json → Bool
is_array (array js) = true
is_array _ = false

unfoldable pub is_object : Json → Bool
is_object (object ms) = true
is_object _ = false

unfoldable pub find_array : String → Json → Option Json
unfolding find is_array
find_array key j = elim (find key j) [ none ↦ none | some v ↦ if is_array v then some v else none ]
