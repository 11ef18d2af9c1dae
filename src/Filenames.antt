-- ===== src/Filenames.antt =====
-- app/utils/filenames.py. A text is taken apart into its characters; `str` is Python's decimal
-- notation of an integer.
pub mod Safe
use Prim.Native.Char.{Char, code}
use Prim.Native.String
use Prim.Native.String.{String}
use android_package_service.Base.{
  ℕ, zero, suc, Bool, true, false, ◌&&◌, ◌||◌, Option, none, some, List, [], ◌∷◌, ◌==◌,
  if◌then◌else◌, leb, eqb,
}

abbrev pub within : ℕ → ℕ → ℕ → Bool
within lo hi c = leb lo c && leb c hi

-- `.` and `_`
abbrev pub is_edge : Char → Bool
is_edge c = eqb (code c) b'.' || eqb (code c) b'_'

-- `[A-Za-z0-9._-]`
abbrev pub is_safe : Char → Bool
is_safe c =
    within b'A' b'Z' (code c)
    || (within b'a' b'z' (code c)
        || (within b'0' b'9' (code c) || (is_edge c || eqb (code c) b'-')))

-- `re.sub(r"[^A-Za-z0-9._-]+", "_", text)`; the test says that a run of other characters was begun.
unfoldable pub replace_runs : Bool → String → String
replace_runs begun String.[] = ""
replace_runs begun (String.◌∷◌ c s) =
    if is_safe c
    then String.◌∷◌ c (replace_runs false s)
    else if begun
    then replace_runs true s
    else String.◌∷◌ "_" (replace_runs true s)

unfoldable pub strip_left : String → String
strip_left String.[] = ""
strip_left (String.◌∷◌ c s) = if is_edge c then strip_left s else String.◌∷◌ c s

abbrev pub drop_edge : Char → String → String
drop_edge c String.[] = if is_edge c then "" else String.◌∷◌ c ""
drop_edge c (String.◌∷◌ d s) = String.◌∷◌ c (String.◌∷◌ d s)

unfoldable pub strip_right : String → String
strip_right String.[] = ""
strip_right (String.◌∷◌ c s) = drop_edge c (strip_right s)

-- `x or fallback`
abbrev pub or_fallback : String → String → String
or_fallback String.[] fallback = fallback
or_fallback (String.◌∷◌ c s) fallback = String.◌∷◌ c s

unfoldable pub safe_part : String → String → String
unfolding replace_runs strip_left strip_right
safe_part text fallback =
    or_fallback (strip_right (strip_left (replace_runs false (or_fallback text fallback)))) fallback

abbrev pub text_or_empty : Option String → String
text_or_empty none = ""
text_or_empty (some s) = s

-- `str(value or fallback)` of a code begins with the empty text where the code is absent or 0.
abbrev pub code_or_empty : (ℕ → String) → Option ℕ → String
code_or_empty str none = ""
code_or_empty str (some zero) = ""
code_or_empty str (some (suc c)) = str (suc c)

infixr 66 ◌_then_◌
abbrev pub ◌_then_◌ : String → String → String
◌_then_◌ a b = String.◌++◌ a (String.◌++◌ "_" b)

unfoldable pub artifact_filename :
    (ℕ → String) → String → Option String → Option ℕ → String → String → String
unfolding safe_part
artifact_filename str package_name version_name version_code provider suffix =
    String.◌++◌
      (safe_part package_name "unknown"
        _then_ (safe_part (text_or_empty version_name) "latest"
            _then_ (safe_part (code_or_empty str version_code) "latest"
                _then_ safe_part provider "unknown")))
      suffix
