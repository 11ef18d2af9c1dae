-- ===== src/Collectors/Dates.antt =====
-- The dates of app/catalog/collectors, as texts. A digit is what Python's `re` takes for one, a code
-- point that `decimal` has a value of.
use Prim.Native.Char.{Char, code}
use android_package_service.Base.{
  ℕ, String, Bool, true, false, Option, none, some, List, [], ◌∷◌, if◌then◌else◌, ltb, eqb, is_some,
}
use android_package_service.Json.{Json, null, bool, number, text, list, object}

-- `s <= t` of texts: by the code points.
unfoldable pub text_le : String → String → Bool
text_le String.[] t = true
text_le (String.◌∷◌ c s) String.[] = false
text_le (String.◌∷◌ c s) (String.◌∷◌ d t) =
    let rest = text_le s t in
    if ltb (code c) (code d) then true else if ltb (code d) (code c) then false else rest

module _ (decimal : ℕ → Option ℕ) where
  -- A digit, or the dash.
  abbrev pub fits : Bool → Char → Bool
  fits true c = is_some (decimal (code c))
  fits false c = eqb (code c) b'-'

  abbrev pub put_before : Char → Option String → Option String
  put_before c none = none
  put_before c (some s) = some (String.◌∷◌ c s)

  -- The text that matches the pattern at the beginning.
  unfoldable pub match_here : List Bool → String → Option String
  match_here [] s = some ""
  match_here (p ∷ ps) String.[] = none
  match_here (p ∷ ps) (String.◌∷◌ c s) =
      let rest = match_here ps s in if fits p c then put_before c rest else none

  -- `\d{4}-\d{2}-\d{2}`
  abbrev pub date_pattern : List Bool
  date_pattern = true ∷ true ∷ true ∷ true ∷ false ∷ true ∷ true ∷ false ∷ true ∷ true ∷ []

  -- `_DATE_RE.search`: the first match.
  unfoldable pub search_date : String → Option String
  unfolding match_here
  search_date String.[] = none
  search_date (String.◌∷◌ c s) = elim (match_here date_pattern (String.◌∷◌ c s)) [
    | some found ↦ some found
    | none ↦ search_date s
  ]

  -- `_date`
  unfoldable pub date_of : Json → Option String
  unfolding search_date
  date_of (text s) = search_date s
  date_of null = none
  date_of (bool b) = none
  date_of (number n) = none
  date_of (list items) = none
  date_of (object fields) = none
