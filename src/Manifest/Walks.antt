-- ===== src/Manifest/Walks.antt =====
-- The loop over the chunks ends: no part of the parser runs out of fuel.
use android_package_service.Base.{
  ℕ, zero, suc, ◌+◌, ◌-◌, ◌*◌, ◌/◌, ◌≤◌, ◌<◌, String, inl, inr, Bool, true, false, ◌||◌, Option,
  none, some, List, [], arith, length, if◌then◌else◌, leb, ltb, eqb, holds_text, Bool-cases,
}
use android_package_service.Manifest.{
  Parse, parsed, struct_error, ◌>>=◌, or_struct_error, byte_at, u16, u32, i32, u32_loop, u32s,
  ManifestAttributes, no_attributes, Chunk, go_on, manifest, next, Python, parse_string_pool,
  parse_resource_map, read_attribute, read_attributes, parse_start_element, at, read_chunk, walk,
  parse_axml,
}

-- The parser returned or raised.
pub data Ends {A : Type 0} : Parse A → Type 0 where
  returns : (a : A) → Ends (parsed a)
  raises : Ends struct_error

bind-Ends :
    {A B : Type 0} {m : Parse A} {f : A → Parse B}
    → Ends m
    → ((a : A) → Ends (f a))
    → Ends (m >>= f)
bind-Ends (returns a) k = k a
bind-Ends raises k = raises

if-Ends : {A : Type 0} (b : Bool) {m n : Parse A} → Ends m → Ends n → Ends (if b then m else n)
if-Ends true e f = e
if-Ends false e f = f

byte_at-Ends : (bytes : List ℕ) (i : ℕ) → Ends (byte_at bytes i)
unfolding byte_at
byte_at-Ends bytes i = option_Ends _
  where
    option_Ends : (o : Option ℕ) → Ends (or_struct_error o)
    option_Ends none = raises
    option_Ends (some n) = returns n

u16-Ends : (bytes : List ℕ) (i : ℕ) → Ends (u16 bytes i)
unfolding u16
u16-Ends bytes i =
    bind-Ends (byte_at-Ends bytes i) (λ a. bind-Ends (byte_at-Ends bytes (i + 1)) (λ b. returns _))

u32-Ends : (bytes : List ℕ) (i : ℕ) → Ends (u32 bytes i)
unfolding u32
u32-Ends bytes i =
    bind-Ends (u16-Ends bytes i) (λ a. bind-Ends (u16-Ends bytes (i + 2)) (λ b. returns _))

i32-Ends : (bytes : List ℕ) (i : ℕ) → Ends (i32 bytes i)
unfolding i32
i32-Ends bytes i = bind-Ends (u32-Ends bytes i) (λ w. returns _)

u32_loop-Ends : (bytes : List ℕ) (n i : ℕ) → Ends (u32_loop bytes n i)
unfolding u32_loop
u32_loop-Ends bytes zero i = returns []
u32_loop-Ends bytes (suc n) i =
    bind-Ends (u32-Ends bytes i) (λ w. bind-Ends (u32_loop-Ends bytes n (i + 4)) (λ ws. returns _))

u32s-Ends : (bytes : List ℕ) (n i : ℕ) → Ends (u32s bytes n i)
unfolding u32s
u32s-Ends bytes n i = if-Ends (leb (i + n * 4) (length bytes)) (u32_loop-Ends bytes n i) raises

parse_resource_map-Ends :
    (bytes : List ℕ) (offset size : ℕ) → Ends (parse_resource_map bytes offset size)
unfolding parse_resource_map
parse_resource_map-Ends bytes offset size = bind-Ends (u16-Ends bytes (offset + 2)) λ header.
    if-Ends (eqb ((size - header) / 4) 0) (returns [])
      (u32s-Ends bytes ((size - header) / 4) (offset + header))

module _ (python : Python) (bytes : List ℕ) where
  parse_string_pool-Ends : (offset : ℕ) → Ends (parse_string_pool python bytes offset)
  unfolding parse_string_pool
  parse_string_pool-Ends offset = bind-Ends (u32-Ends bytes (offset + 8)) λ n.
      bind-Ends (u32-Ends bytes (offset + 16)) λ flags.
        bind-Ends (u32-Ends bytes (offset + 20))
          λ start. bind-Ends (u32s-Ends bytes n (offset + 28)) λ offsets. returns _

  read_attribute-Ends :
      (strings : List String) (ids : List ℕ) (entry : ℕ) (found : ManifestAttributes)
      → Ends (read_attribute python bytes strings ids entry found)
  unfolding read_attribute
  read_attribute-Ends strings ids entry found = bind-Ends (i32-Ends bytes (entry + 4)) λ name.
      bind-Ends (i32-Ends bytes (entry + 8)) λ raw.
        bind-Ends (byte_at-Ends bytes (entry + 15))
          λ kind. bind-Ends (i32-Ends bytes (entry + 16)) λ value. returns _

  read_attributes-Ends :
      (strings : List String) (ids : List ℕ) (size n entry : ℕ) (found : ManifestAttributes)
      → Ends (read_attributes python bytes strings ids size n entry found)
  unfolding read_attributes
  read_attributes-Ends strings ids size zero entry found = returns found
  read_attributes-Ends strings ids size (suc n) entry found =
      bind-Ends (read_attribute-Ends strings ids entry found)
        λ found'. read_attributes-Ends strings ids size n (entry + size) found'

  parse_start_element-Ends :
      (offset : ℕ) (strings : List String) (ids : List ℕ)
      → Ends (parse_start_element python bytes offset strings ids)
  unfolding parse_start_element
  parse_start_element-Ends offset strings ids = bind-Ends (i32-Ends bytes (offset + 16 + 4)) λ name.
      if-Ends (holds_text (at strings name) "manifest")
        (bind-Ends (u16-Ends bytes (offset + 16 + 8)) λ start.
          bind-Ends (u16-Ends bytes (offset + 16 + 10)) λ size.
            bind-Ends (u16-Ends bytes (offset + 16 + 12)) λ n.
              bind-Ends
                (read_attributes-Ends strings ids size n (offset + 16 + start) no_attributes)
                (λ found. returns _))
        (returns none)

  pub read_chunk-Ends :
      (offset kind size : ℕ) (strings : List String) (ids : List ℕ)
      → Ends (read_chunk python bytes offset kind size strings ids)
  unfolding read_chunk
  read_chunk-Ends offset kind size strings ids =
      if-Ends (eqb kind 1) (bind-Ends (parse_string_pool-Ends offset) (λ s. returns _)) (
        if-Ends (eqb kind 0x180)
          (bind-Ends (parse_resource_map-Ends bytes offset size) (λ r. returns _))
          (if-Ends (eqb kind 0x102)
            (bind-Ends (parse_start_element-Ends offset strings ids) (λ f. returns _)) (returns _)))

  go_on-Ends :
      (c : Chunk) (f : List String → List ℕ → Parse ManifestAttributes)
      → ((s : List String) (r : List ℕ) → Ends (f s r))
      → Ends (go_on c f)
  go_on-Ends (manifest found) f k = returns found
  go_on-Ends (next s r) f k = k s r

  -- One chunk has eight bytes at least, so as many rounds as there are bytes left are enough.
  pub walk-Ends :
      (fuel offset : ℕ) (strings : List String) (ids : List ℕ)
      → offset ≤ length bytes
      → length bytes < offset + fuel
      → Ends (walk python fuel bytes offset strings ids)
  unfolding walk
  walk-Ends zero offset strings ids le h = absurd (omega arith)
  walk-Ends (suc fuel) offset strings ids le h =
      if-Ends (leb (offset + 8) (length bytes))
        (bind-Ends (u16-Ends bytes offset) λ kind. bind-Ends (u32-Ends bytes (offset + 4)) λ size.
          elim (Bool-cases (ltb size 8 || ltb (length bytes) (offset + size))) [
            | inl bad ↦ rw bad (returns no_attributes)
            | inr good ↦
                let inside : offset + size ≤ length bytes = ground arith in
                let grows : 8 ≤ size = ground arith in
                rw good (
                  bind-Ends (read_chunk-Ends offset kind size strings ids) λ c.
                    go_on-Ends c _ λ s r. walk-Ends fuel (offset + size) s r inside (omega arith))
          ])
        (returns no_attributes)

  -- Every file, however malformed, is parsed to an end: the parser returns or raises, and its fuel is
  -- never used up.
  pub parse_axml-Ends : Ends (parse_axml python bytes)
  unfolding parse_axml
  parse_axml-Ends = elim (Bool-cases (ltb (length bytes) 8)) [
    | inl short ↦ rw short (returns no_attributes)
    | inr long ↦
        let enough : 8 ≤ length bytes = ground arith in
        rw long (
          bind-Ends (u16-Ends bytes 0) λ kind.
            if-Ends (eqb kind 3) (walk-Ends (suc (length bytes)) 8 [] [] enough (omega arith))
              (returns no_attributes))
  ]
