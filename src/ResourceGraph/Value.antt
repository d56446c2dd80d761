-- ===== src/ResourceGraph/Value.antt =====
-- encoding/json's values of type any, as internal/resourcegraph looks into them.
use runspace.Prelude.{String, Bool, Option, none, some, ◌==◌, if◌then◌else◌}

-- A number goes by its text.
mutual
  pub data Value : Type 0 where
    null : Value
    bool : Bool → Value
    number : String → Value
    text : String → Value
    array : Values → Value
    object : Fields → Value

  pub data Values : Type 0 where
    nil : Values
    cons : Value → Values → Values

  pub data Fields : Type 0 where
    end : Fields
    field : String → Value → Fields → Fields

-- fields[key]
unfoldable pub field_of : Fields → String → Option Value
field_of end key = none
field_of (field name value rest) key =
    let later = field_of rest key in if name == key then some value else later

-- value.(string), value.([]any) and value.(map[string]any)
abbrev pub as_text : Option Value → Option String
as_text (some (Value.text s)) = some s
as_text _ = none

abbrev pub as_array : Option Value → Option Values
as_array (some (Value.array vs)) = some vs
as_array _ = none

abbrev pub as_object : Option Value → Option Fields
as_object (some (Value.object fs)) = some fs
as_object _ = none

-- The text of a failed assertion is the empty one.
abbrev pub or_empty : Option String → String
or_empty none = ""
or_empty (some s) = s
