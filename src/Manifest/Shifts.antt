-- ===== src/Manifest/Shifts.antt =====
-- What is read in a file does not depend on what stands before it.
use android_package_service.Base.{
  ℕ, zero, suc, ◌+◌, ◌*◌, ◌%◌, String, ◌≡◌, refl, Bool, true, false, List, [], ◌∷◌, ◌++◌, arith,
  length, length-append, if◌then◌else◌, leb, ltb,
}
use native.Mathlib.Nat.{add_assoc, zero-add, suc-add}
use android_package_service.Manifest.{
  Parse, parsed, struct_error, out_of_fuel, ◌>>=◌, get_elem?, drop, byte_at, u16, u32, i32,
  u32_loop, u32s, decode_len8, decode_len16, decode_pool_string, decode_all, parse_string_pool,
  parse_resource_map, read_attribute, read_attributes, parse_start_element, read_chunk, walk,
  Python, ManifestAttributes, has_bit,
}

pub get_elem?-shift :
    {A : Type 0} (front xs : List A) (i : ℕ)
    → get_elem? (front ++ xs) (length front + i) ≡ get_elem? xs i
unfolding get_elem?
get_elem?-shift [] xs i = rw (zero-add i) refl
get_elem?-shift (f ∷ front) xs i = rw (suc-add (length front) i) (get_elem?-shift front xs i)

drop-shift :
    {A : Type 0} (front xs : List A) (i : ℕ) → drop (length front + i) (front ++ xs) ≡ drop i xs
unfolding drop
drop-shift [] xs i = rw (zero-add i) refl
drop-shift (f ∷ front) xs i = rw (suc-add (length front) i) (drop-shift front xs i)

bind_assoc :
    {A B C : Type 0} (m : Parse A) (f : A → Parse B) (g : B → Parse C)
    → ((m >>= f) >>= g) ≡ (m >>= λ a. f a >>= g)
bind_assoc (parsed a) f g = refl
bind_assoc struct_error f g = refl
bind_assoc out_of_fuel f g = refl

module _ (front bytes : List ℕ) where
  pub byte_at-shift : (i : ℕ) → byte_at (front ++ bytes) (length front + i) ≡ byte_at bytes i
  unfolding byte_at
  byte_at-shift i = rw (get_elem?-shift front bytes i) refl

  pub u16-shift : (i : ℕ) → u16 (front ++ bytes) (length front + i) ≡ u16 bytes i
  unfolding u16
  u16-shift i = rw (byte_at-shift i, add_assoc (length front) i 1, byte_at-shift (i + 1)) refl

  u32-shift : (i : ℕ) → u32 (front ++ bytes) (length front + i) ≡ u32 bytes i
  unfolding u32
  u32-shift i = rw (u16-shift i, add_assoc (length front) i 2, u16-shift (i + 2)) refl

  i32-shift : (i : ℕ) → i32 (front ++ bytes) (length front + i) ≡ i32 bytes i
  unfolding i32
  i32-shift i = rw (u32-shift i) refl

  u32_loop-shift : (n i : ℕ) → u32_loop (front ++ bytes) n (length front + i) ≡ u32_loop bytes n i
  unfolding u32_loop
  u32_loop-shift zero i = refl
  u32_loop-shift (suc n) i =
      rw (u32-shift i, add_assoc (length front) i 4, u32_loop-shift n (i + 4)) refl

  u32s-shift : (n i : ℕ) → u32s (front ++ bytes) n (length front + i) ≡ u32s bytes n i
  unfolding u32s
  u32s-shift n i =
      let fits : leb (length front + i + n * 4) (length (front ++ bytes))
          ≡ leb (i + n * 4) (length bytes) =
        ground (arith, length-append front bytes) in
      rw (fits, u32_loop-shift n i) refl

  -- The same length, `length front` further on.
  abbrev moved : {A : Type 0} → A × ℕ → A × ℕ
  moved r = (r.0, length front + r.1)

  len8_moved :
      (i : ℕ) (value low : Parse ℕ)
      → (value >>= λ v.
          if has_bit 128 v
          then (low >>= λ l. parsed (v % 128 * 256 + l, length front + (i + 2)))
          else parsed (v, length front + (i + 1)))
        ≡ ((value >>= λ v.
              if has_bit 128 v
              then (low >>= λ l. parsed (v % 128 * 256 + l, i + 2))
              else parsed (v, i + 1))
            >>= λ r. parsed (moved r))
  len8_moved i struct_error low = refl
  len8_moved i out_of_fuel low = refl
  len8_moved i (parsed v) struct_error = ground arith
  len8_moved i (parsed v) out_of_fuel = ground arith
  len8_moved i (parsed v) (parsed l) = ground arith

  decode_len8-shift :
      (i : ℕ)
      → decode_len8 (front ++ bytes) (length front + i)
        ≡ (decode_len8 bytes i >>= λ r. parsed (moved r))
  unfolding decode_len8
  decode_len8-shift i =
      simp (add_assoc, byte_at-shift) (len8_moved i (byte_at bytes i) (byte_at bytes (i + 1)))

  len16_moved :
      (i : ℕ) (value low : Parse ℕ)
      → (value >>= λ v.
          if has_bit 32768 v
          then (low >>= λ l. parsed (v % 32768 * 65536 + l, length front + (i + 4)))
          else parsed (v, length front + (i + 2)))
        ≡ ((value >>= λ v.
              if has_bit 32768 v
              then (low >>= λ l. parsed (v % 32768 * 65536 + l, i + 4))
              else parsed (v, i + 2))
            >>= λ r. parsed (moved r))
  len16_moved i struct_error low = refl
  len16_moved i out_of_fuel low = refl
  len16_moved i (parsed v) struct_error = ground arith
  len16_moved i (parsed v) out_of_fuel = ground arith
  len16_moved i (parsed v) (parsed l) = ground arith

  decode_len16-shift :
      (i : ℕ)
      → decode_len16 (front ++ bytes) (length front + i)
        ≡ (decode_len16 bytes i >>= λ r. parsed (moved r))
  unfolding decode_len16
  decode_len16-shift i =
      simp (add_assoc, u16-shift) (len16_moved i (u16 bytes i) (u16 bytes (i + 2)))

  parse_resource_map-shift :
      (o size : ℕ)
      → parse_resource_map (front ++ bytes) (length front + o) size
        ≡ parse_resource_map bytes o size
  unfolding parse_resource_map
  parse_resource_map-shift o size = simp (add_assoc, u16-shift, u32s-shift)

  module _ (python : Python) where
    decode_pool_string-shift :
        (i : ℕ) (is_utf8 : Bool)
        → decode_pool_string python (front ++ bytes) (length front + i) is_utf8
          ≡ decode_pool_string python bytes i is_utf8
    unfolding decode_pool_string
    decode_pool_string-shift i true = simp (bind_assoc, decode_len8-shift, drop-shift front bytes)
    decode_pool_string-shift i false = simp (bind_assoc, decode_len16-shift, drop-shift front bytes)

    decode_all-shift :
        (base : ℕ) (is_utf8 : Bool) (rels : List ℕ)
        → decode_all python (front ++ bytes) (length front + base) is_utf8 rels
          ≡ decode_all python bytes base is_utf8 rels
    unfolding decode_all
    decode_all-shift base is_utf8 [] = refl
    decode_all-shift base is_utf8 (rel ∷ rels) =
        simp (add_assoc, decode_pool_string-shift, decode_all-shift base is_utf8 rels)

    parse_string_pool-shift :
        (o : ℕ)
        → parse_string_pool python (front ++ bytes) (length front + o)
          ≡ parse_string_pool python bytes o
    unfolding parse_string_pool
    parse_string_pool-shift o = simp (add_assoc, u32-shift, u32s-shift, decode_all-shift)

    read_attribute-shift :
        (s : List String) (r : List ℕ) (e : ℕ) (found : ManifestAttributes)
        → read_attribute python (front ++ bytes) s r (length front + e) found
          ≡ read_attribute python bytes s r e found
    unfolding read_attribute
    read_attribute-shift s r e found = simp (add_assoc, i32-shift, byte_at-shift)

    read_attributes-shift :
        (s : List String) (r : List ℕ) (size n e : ℕ) (found : ManifestAttributes)
        → read_attributes python (front ++ bytes) s r size n (length front + e) found
          ≡ read_attributes python bytes s r size n e found
    unfolding read_attributes
    read_attributes-shift s r size zero e found = refl
    read_attributes-shift s r size (suc n) e found =
        simp (add_assoc, read_attribute-shift, read_attributes-shift s r size n (e + size))

    parse_start_element-shift :
        (o : ℕ) (s : List String) (r : List ℕ)
        → parse_start_element python (front ++ bytes) (length front + o) s r
          ≡ parse_start_element python bytes o s r
    unfolding parse_start_element
    parse_start_element-shift o s r = simp (add_assoc, i32-shift, u16-shift, read_attributes-shift)

    read_chunk-shift :
        (o kind size : ℕ) (s : List String) (r : List ℕ)
        → read_chunk python (front ++ bytes) (length front + o) kind size s r
          ≡ read_chunk python bytes o kind size s r
    unfolding read_chunk
    read_chunk-shift o kind size s r =
        rw
          (
            parse_string_pool-shift o,
            parse_resource_map-shift o size,
            parse_start_element-shift o s r,
          )
          refl

    leb-shift : (k : ℕ) → leb (length front + k) (length (front ++ bytes)) ≡ leb k (length bytes)
    leb-shift k = ground (arith, length-append front bytes)

    ltb-shift : (k : ℕ) → ltb (length (front ++ bytes)) (length front + k) ≡ ltb (length bytes) k
    ltb-shift k = ground (arith, length-append front bytes)

    pub walk-shift :
        (fuel o : ℕ) (s : List String) (r : List ℕ)
        → walk python fuel (front ++ bytes) (length front + o) s r ≡ walk python fuel bytes o s r
    unfolding walk
    walk-shift zero o s r = refl
    walk-shift (suc fuel) o s r =
        rw
          (
            add_assoc (length front) o 8,
            leb-shift (o + 8),
            u16-shift o,
            add_assoc (length front) o 4,
            u32-shift (o + 4),
          )
          (simp (add_assoc, ltb-shift, read_chunk-shift, walk-shift fuel))
