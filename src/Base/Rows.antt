-- ===== src/Base/Rows.antt =====
-- A table of a database is the list of its rows, in the order of insertion. The statements that the
-- program runs on a table, and how they act on the number of rows that pass a test.
use Prim.Native.Nat.{ℕ, suc}
use mathlib.Core.Path.{◌≡◌}
use mathlib.Core.Logic.{◌⊎◌}
use mathlib.Core.Bool.{Bool, true, false}
use mathlib.Core.Option.{Option, none, some}
use mathlib.Core.List.{List, [], ◌∷◌}
use android_package_service.Base.Tests.{ltb, if◌then◌else◌}

-- Every row has the property.
abbrev pub All {ℓ κ} : {A : Type ℓ} → (A → Type κ) → List A → Type κ
All P [] = Unit
All P (x ∷ xs) = P x × All P xs

-- The row is one of the table's.
abbrev pub In : {A : Type 0} → A → List A → Type 0
In a [] = ⊥
In a (x ∷ xs) = (a ≡ x) ⊎ In a xs

module _ {ℓ} {A : Type ℓ} where
  -- SELECT * FROM rows WHERE p LIMIT 1
  unfoldable pub find : (A → Bool) → List A → Option A
  find p [] = none
  find p (r ∷ rs) = if p r then some r else find p rs

  unfoldable pub any : (A → Bool) → List A → Bool
  any p [] = false
  any p (r ∷ rs) = if p r then true else any p rs

  -- SELECT COUNT(*) FROM rows WHERE p, which is also the `rowcount` of an UPDATE or DELETE.
  unfoldable pub count : (A → Bool) → List A → ℕ
  count p [] = 0
  count p (r ∷ rs) = if p r then suc (count p rs) else count p rs

  -- UPDATE rows SET f WHERE p
  unfoldable pub update : (A → Bool) → (A → A) → List A → List A
  update p f [] = []
  update p f (r ∷ rs) = (if p r then f r else r) ∷ update p f rs

  -- SELECT * FROM rows WHERE p, which is also what DELETE FROM rows WHERE NOT p leaves.
  unfoldable pub select : (A → Bool) → List A → List A
  select p [] = []
  select p (r ∷ rs) = if p r then r ∷ select p rs else select p rs

  unfoldable pub earlier : (A → ℕ) → A → Option A → A
  earlier key r none = r
  earlier key r (some s) = if ltb (key s) (key r) then s else r

  -- SELECT * FROM rows WHERE p ORDER BY key LIMIT 1; of equal keys the row inserted first.
  unfoldable pub earliest : (A → ℕ) → (A → Bool) → List A → Option A
  unfolding earlier
  earliest key p [] = none
  earliest key p (r ∷ rs) =
      let rest = earliest key p rs in if p r then some (earlier key r rest) else rest
