-- ===== src/Json.antt =====
-- JSON values as Python reads them, for the clients of the sources. A number is a natural number, and
-- a dictionary has each key once.
pub mod Access
use android_package_service.Base.{
  ℕ, zero, suc, String, Bool, true, false, Option, none, some, List, [], ◌∷◌, ◌==◌, if◌then◌else◌,
  or_else,
}

mutual
  pub data Json : Type 0 where
    null : Json
    bool : Bool → Json
    number : ℕ → Json
    text : String → Json
    list : Items → Json
    object : Fields → Json

  pub data Items : Type 0 where
    nil : Items
    cons : Json → Items → Items

  pub data Fields : Type 0 where
    end : Fields
    field : String → Json → Fields → Fields

unfoldable pub lookup : String → Fields → Option Json
lookup key end = none
lookup key (field name value rest) = if name == key then some value else lookup key rest

-- `fields.get(key)`
abbrev pub get : String → Fields → Json
get key fields = or_else (lookup key fields) null

-- `fields.get(key, {})`
abbrev pub get_fields : String → Fields → Json
get_fields key fields = or_else (lookup key fields) (object end)

-- `value if isinstance(value, dict) else {}`
abbrev pub fields_of : Json → Option Fields
fields_of (object fields) = some fields
fields_of null = none
fields_of (bool b) = none
fields_of (number n) = none
fields_of (text s) = none
fields_of (list items) = none

abbrev pub truthy : Json → Bool
truthy null = false
truthy (bool b) = b
truthy (number zero) = false
truthy (number (suc n)) = true
truthy (text String.[]) = false
truthy (text (String.◌∷◌ c s)) = true
truthy (list nil) = false
truthy (list (cons j js)) = true
truthy (object end) = false
truthy (object (field k v rest)) = true

-- `value or other`
abbrev pub or_json : Json → Json → Json
or_json value other = if truthy value then value else other

unfoldable pub dicts : Items → List Fields
dicts nil = []
dicts (cons (object fields) rest) = fields ∷ dicts rest
dicts (cons null rest) = dicts rest
dicts (cons (bool b) rest) = dicts rest
dicts (cons (number n) rest) = dicts rest
dicts (cons (text s) rest) = dicts rest
dicts (cons (list items) rest) = dicts rest

unfoldable pub items_of : Items → List Json
items_of nil = []
items_of (cons j rest) = j ∷ items_of rest

abbrev pub text_or_none : String → Option String
text_or_none String.[] = none
text_or_none (String.◌∷◌ c s) = some (String.◌∷◌ c s)

-- `_str_or_none`
abbrev pub str_or_none : Json → Option String
str_or_none (text s) = text_or_none s
str_or_none null = none
str_or_none (bool b) = none
str_or_none (number n) = none
str_or_none (list items) = none
str_or_none (object fields) = none

-- `_int`, for what Python's `int` makes of a text.
abbrev pub int_of : (String → Option ℕ) → Json → Option ℕ
int_of int_text null = none
int_of int_text (bool false) = some 0
int_of int_text (bool true) = some 1
int_of int_text (number n) = some n
int_of int_text (text s) = int_text s
int_of int_text (list items) = none
int_of int_text (object fields) = none
