-- ===== src/Json.antt =====
-- encoding/json as the code uses it. A `RawMessage` is modelled by the value that its bytes decode
-- to, or by `malformed`; a map decoded from an object keeps the object's members, the last of two
-- equal names counting. Re-encoding a decoded value gives that value.
use primitive_box.Prelude.{
  ℕ, String, Bool, true, false, Option, none, some, List, [], ◌∷◌, ◌=ₛ◌, if◌then◌else◌,
}

mutual
  pub data Json : Type 0 where
    null : Json
    boolean : Bool → Json
    number : ℕ → Json
    negative : ℕ → Json
    fraction : String → Json
    text : String → Json
    array : Items → Json
    object : Fields → Json

  pub data Items : Type 0 where
    nil : Items
    cons : Json → Items → Items

  pub data Fields : Type 0 where
    end : Fields
    field : String → Json → Fields → Fields

-- `absent` is the nil or empty slice.
pub data RawMessage : Type 0 where
  absent : RawMessage
  malformed : String → RawMessage
  value : Json → RawMessage

-- `data[key]` with its `ok`
unfoldable pub member : String → Fields → Option Json
member k end = none
member k (field j v rest) = elim (member k rest) [
  | some w ↦ some w
  | none ↦ if j =ₛ k then some v else none
]

-- `len(data) == 0`
abbrev pub is_empty : Fields → Bool
is_empty end = true
is_empty (field k v rest) = false

-- `json.Unmarshal` into a zero variable of each type: `none` is an error, and `null` leaves zero.
abbrev pub as_bool : Json → Option Bool
as_bool null = some false
as_bool (boolean b) = some b
as_bool _ = none

abbrev pub as_string : Json → Option String
as_string null = some ""
as_string (text s) = some s
as_string _ = none

abbrev pub as_map : Json → Option Fields
as_map null = some end
as_map (object fs) = some fs
as_map _ = none

unfoldable pub as_strings_items : Items → Option (List String)
as_strings_items nil = some []
as_strings_items (cons j rest) = elim (as_string j) [
  | none ↦ none
  | some s ↦ elim (as_strings_items rest) [ none ↦ none | some l ↦ some (s ∷ l) ]
]

abbrev pub as_strings : Json → Option (List String)
as_strings null = some []
as_strings (array items) = as_strings_items items
as_strings _ = none

-- An element that is read from a map, or the nil slice where the key is missing.
abbrev pub raw_of : Option Json → RawMessage
raw_of none = absent
raw_of (some j) = value j
