-- ===== src/Ledger/Order.antt =====
-- The order of sort keys is a strict linear order, so sorting by it is well defined.
use android_package_service.Base.{ℕ, ◌≡◌, refl, ◌⊎◌, inl, inr, true, false, List, [], ◌∷◌, arith}
use android_package_service.Ledger.{key_lt}

pub key_lt_irrefl : (a : List ℕ) → key_lt a a ≡ false
unfolding key_lt
key_lt_irrefl [] = refl
key_lt_irrefl (x ∷ a) = ground (arith, key_lt_irrefl a)

pub key_lt_trans : (a b c : List ℕ) → key_lt a b ≡ true → key_lt b c ≡ true → key_lt a c ≡ true
unfolding key_lt
key_lt_trans [] [] c h k = absurd (cc)
key_lt_trans [] (y ∷ b) [] h k = absurd (cc)
key_lt_trans [] (y ∷ b) (z ∷ c) h k = refl
key_lt_trans (x ∷ a) [] c h k = absurd (cc)
key_lt_trans (x ∷ a) (y ∷ b) [] h k = absurd (cc)
key_lt_trans (x ∷ a) (y ∷ b) (z ∷ c) h k = ground (arith, key_lt_trans a b c)

pub key_lt_total : (a b : List ℕ) → (key_lt a b ≡ true) ⊎ (key_lt b a ≡ true) ⊎ (a ≡ b)
unfolding key_lt
key_lt_total [] [] = inr (inr refl)
key_lt_total [] (y ∷ b) = inl refl
key_lt_total (x ∷ a) [] = inr (inl refl)
key_lt_total (x ∷ a) (y ∷ b) = ground (arith, key_lt_total a b)
