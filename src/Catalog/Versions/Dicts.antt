-- ===== src/Catalog/Versions/Dicts.antt =====
-- Lookups in a dictionary after an assignment.
use android_package_service.Base.{String, ◌≡◌, ◌≢◌, List, [], ◌∷◌, eq_iff, eq_refl, arith, some}
use android_package_service.Catalog.Versions.{dict_get, dict_set}

module _ {V : Type 0} where
  pub dict_get-dict_set :
      (k : String) (v : V) (m : List (String × V)) → dict_get k (dict_set k v m) ≡ some v
  unfolding dict_get dict_set
  dict_get-dict_set k v [] = ground (arith, eq_refl k)
  dict_get-dict_set k v ((j, w) ∷ m) =
      ground (arith, eq_refl k, eq_iff j k, dict_get-dict_set k v m)

  pub dict_get-dict_set_other :
      (j k : String) (v : V) (m : List (String × V))
      → k ≢ j
      → dict_get j (dict_set k v m) ≡ dict_get j m
  unfolding dict_get dict_set
  dict_get-dict_set_other j k v [] n = ground (arith, eq_iff k j)
  dict_get-dict_set_other j k v ((i, w) ∷ m) n =
      ground (arith, eq_iff k j, eq_iff i k, eq_iff i j, dict_get-dict_set_other j k v m n)
