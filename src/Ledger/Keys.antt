-- ===== src/Ledger/Keys.antt =====
-- `version_sort_key` of app/catalog/ledger.py, and Python's order of tuples of integers.
use Prim.Native.Char.{code}
use android_package_service.Base.{
  ℕ, ◌+◌, ◌*◌, String, Bool, true, false, Option, none, some, List, [], ◌∷◌, if◌then◌else◌, ltb,
  or_else,
}

-- The code points of a text.
abbrev pub codes : String → List ℕ
codes String.[] = []
codes (String.◌∷◌ c s) = code c ∷ codes s

abbrev pub flush : Option ℕ → List ℕ → List ℕ
flush none parts = parts
flush (some n) parts = n ∷ parts

-- `tuple(int(p) for p in re.findall(r"\d+", text))`; the first argument is the run of digits read so
-- far.
unfoldable pub number_parts : (ℕ → Option ℕ) → Option ℕ → List ℕ → List ℕ
number_parts decimal run [] = flush run []
number_parts decimal run (c ∷ cs) = elim (decimal c) [
  | none ↦ flush run (number_parts decimal none cs)
  | some d ↦ number_parts decimal (some (or_else run 0 * 10 + d)) cs
]

abbrev pub parts_or_zero : List ℕ → List ℕ
parts_or_zero [] = 0 ∷ []
parts_or_zero (n ∷ ns) = n ∷ ns

unfoldable pub version_sort_key : (ℕ → Option ℕ) → String → List ℕ
unfolding number_parts
version_sort_key decimal name = parts_or_zero (number_parts decimal none (codes name))

-- `a < b` on tuples.
unfoldable pub key_lt : List ℕ → List ℕ → Bool
key_lt [] [] = false
key_lt [] (b ∷ bs) = true
key_lt (a ∷ as') [] = false
key_lt (a ∷ as') (b ∷ bs) = if ltb a b then true else if ltb b a then false else key_lt as' bs
