-- ===== src/Json/Access.antt =====
-- Where Python raises on a JSON value of another type, the outcome is an exception.
use android_package_service.Base.{zero, suc, String, true, false, List, [], ◌∷◌}
use android_package_service.Orchestrator.{Outcome, returned, provider_exception, exception}
use android_package_service.Json.{
  Json, null, bool, number, text, list, object, Fields, end, field, dicts, items_of,
}

infixl 5 ◌>>=◌
abbrev pub ◌>>=◌ : {A B : Type 0} → Outcome A → (A → Outcome B) → Outcome B
returned a >>= f = f a
provider_exception e >>= f = provider_exception e
exception m >>= f = exception m

-- What has the method `get`.
abbrev pub dict_of : Json → Outcome Fields
dict_of (object fields) = returned fields
dict_of null = exception "AttributeError"
dict_of (bool b) = exception "AttributeError"
dict_of (number n) = exception "AttributeError"
dict_of (text s) = exception "AttributeError"
dict_of (list items) = exception "AttributeError"

-- `[item for item in (value or []) if isinstance(item, dict)]`; the parts of a text or a dictionary
-- are texts.
abbrev pub dicts_in : Json → Outcome (List Fields)
dicts_in null = returned []
dicts_in (bool false) = returned []
dicts_in (bool true) = exception "TypeError"
dicts_in (number zero) = returned []
dicts_in (number (suc n)) = exception "TypeError"
dicts_in (text s) = returned []
dicts_in (list items) = returned (dicts items)
dicts_in (object fields) = returned []

-- The texts of one character, and the keys.
unfoldable pub letters : String → List Json
letters String.[] = []
letters (String.◌∷◌ c s) = text (String.◌∷◌ c "") ∷ letters s

unfoldable pub keys : Fields → List Json
keys end = []
keys (field key value rest) = text key ∷ keys rest

-- `*(value or [])`
abbrev pub items_in : Json → Outcome (List Json)
items_in null = returned []
items_in (bool false) = returned []
items_in (bool true) = exception "TypeError"
items_in (number zero) = returned []
items_in (number (suc n)) = exception "TypeError"
items_in (text s) = returned (letters s)
items_in (list items) = returned (items_of items)
items_in (object fields) = returned (keys fields)
