-- ===== src/Json.antt =====
-- The values that `json.loads` returns. A number is kept as the text that `str` gives for it.
use mesa_e2e_certification.Prelude.{String, Bool, Option, none, some, List, [], ◌∷◌, Dict, lookup}

mutual
  pub data Json : Type 0 where
    null : Json
    bool : Bool → Json
    number : String → Json
    string : String → Json
    array : Items → Json
    object : Fields → Json

  pub data Items : Type 0 where
    nil : Items
    cons : Json → Items → Items

  pub data Fields : Type 0 where
    end : Fields
    field : String → Json → Fields → Fields

unfoldable pub elements : Items → List Json
elements nil = []
elements (cons x xs) = x ∷ elements xs

unfoldable pub to_items : List Json → Items
to_items [] = nil
to_items (x ∷ xs) = cons x (to_items xs)

unfoldable pub members : Fields → Dict Json
members end = []
members (field k v fs) = (k, v) ∷ members fs

unfoldable pub to_fields : Dict Json → Fields
to_fields [] = end
to_fields ((k, v) ∷ d) = field k v (to_fields d)

-- `x if isinstance(x, str)`
abbrev pub as_string : Option Json → Option String
as_string (some (Json.string s)) = some s
as_string _ = none

-- `x if isinstance(x, dict)`
abbrev pub as_object : Option Json → Option Fields
as_object (some (Json.object fs)) = some fs
as_object _ = none

-- `x if isinstance(x, list)`
abbrev pub as_array : Option Json → Option Items
as_array (some (Json.array xs)) = some xs
as_array _ = none

-- `payload.get(key)`
abbrev pub get : String → Fields → Option Json
get k fs = lookup k (members fs)
