-- ===== src/Manifest/Bytes.antt =====
-- Reads of a file's bytes with `struct`: little-endian numbers of 1, 2 and 4 bytes.
use android_package_service.Base.{
  ℕ, zero, suc, ◌+◌, ◌-◌, ◌*◌, ◌/◌, ◌%◌, String, Bool, true, false, Option, none, some, List, [],
  ◌∷◌, if◌then◌else◌, ltb, leb, eqb, length,
}

-- What a parser returns or raises. `out_of_fuel` is nothing that the program can answer.
pub data Parse (A : Type 0) : Type 0 where
  parsed : A → Parse A
  struct_error : Parse A
  out_of_fuel : Parse A

infixl 5 ◌>>=◌
abbrev pub ◌>>=◌ : {A B : Type 0} → Parse A → (A → Parse B) → Parse B
parsed a >>= f = f a
struct_error >>= f = struct_error
out_of_fuel >>= f = out_of_fuel

-- `negsuc n` is -(n + 1).
pub data ℤ : Type 0 where
  pos : ℕ → ℤ
  negsuc : ℕ → ℤ

abbrev pub is_natural : ℤ → Bool
is_natural (pos n) = true
is_natural (negsuc n) = false

module _ {A : Type 0} where
  unfoldable pub get_elem? : List A → ℕ → Option A
  get_elem? [] i = none
  get_elem? (x ∷ xs) zero = some x
  get_elem? (x ∷ xs) (suc i) = get_elem? xs i

  unfoldable pub drop : ℕ → List A → List A
  drop zero xs = xs
  drop (suc n) [] = []
  drop (suc n) (x ∷ xs) = drop n xs

  unfoldable pub take : ℕ → List A → List A
  take zero xs = []
  take (suc n) [] = []
  take (suc n) (x ∷ xs) = x ∷ take n xs

  -- `bytes[pos : pos + n]`
  abbrev pub slice : List A → ℕ → ℕ → List A
  slice xs position n = take n (drop position xs)

  -- `xs[i] if 0 <= i < len(xs) else None`
  abbrev pub at : List A → ℤ → Option A
  at xs (pos i) = get_elem? xs i
  at xs (negsuc i) = none

abbrev pub holds_number : Option ℕ → ℕ → Bool
holds_number none n = false
holds_number (some m) n = eqb m n

-- `value & bit`, where `bit` is a power of 2.
abbrev pub has_bit : ℕ → ℕ → Bool
has_bit bit value = eqb (value / bit % 2) 1

abbrev pub or_struct_error : {A : Type 0} → Option A → Parse A
or_struct_error none = struct_error
or_struct_error (some a) = parsed a

unfoldable pub byte_at : List ℕ → ℕ → Parse ℕ
byte_at bytes i = or_struct_error (get_elem? bytes i)

unfoldable pub u16 : List ℕ → ℕ → Parse ℕ
unfolding byte_at
u16 bytes i = do a ← byte_at bytes i; b ← byte_at bytes (i + 1); parsed (a + b * 256)

unfoldable pub u32 : List ℕ → ℕ → Parse ℕ
unfolding u16
u32 bytes i = do a ← u16 bytes i; b ← u16 bytes (i + 2); parsed (a + b * 65536)

abbrev pub signed32 : ℕ → ℤ
signed32 w = if ltb w 0x8000_0000 then pos w else negsuc (0x1_0000_0000 - w - 1)

unfoldable pub i32 : List ℕ → ℕ → Parse ℤ
unfolding u32
i32 bytes i = do w ← u32 bytes i; parsed (signed32 w)

unfoldable pub u32_loop : List ℕ → ℕ → ℕ → Parse (List ℕ)
unfolding u32
u32_loop bytes zero i = parsed []
u32_loop bytes (suc n) i = do w ← u32 bytes i; ws ← u32_loop bytes n (i + 4); parsed (w ∷ ws)

-- `struct.unpack_from(f"<{n}I", bytes, i)`
unfoldable pub u32s : List ℕ → ℕ → ℕ → Parse (List ℕ)
unfolding u32_loop
u32s bytes n i = if leb (i + n * 4) (length bytes) then u32_loop bytes n i else struct_error

-- What the manifest element says.
pub record ManifestAttributes : Type 0 where
  pub package_name : Option String
  pub version_name : Option String
  pub version_code : Option ℤ

abbrev pub no_attributes : ManifestAttributes
no_attributes = record { package_name = none; version_name = none; version_code = none }

-- After a chunk the loop returns, or goes on with these strings and resource ids.
pub data Chunk : Type 0 where
  manifest : ManifestAttributes → Chunk
  next : List String → List ℕ → Chunk

abbrev pub found_or_next : Option ManifestAttributes → List String → List ℕ → Chunk
found_or_next none strings resource_ids = next strings resource_ids
found_or_next (some found) strings resource_ids = manifest found

abbrev pub go_on :
    Chunk → (List String → List ℕ → Parse ManifestAttributes) → Parse ManifestAttributes
go_on (manifest found) rest = parsed found
go_on (next strings resource_ids) rest = rest strings resource_ids
