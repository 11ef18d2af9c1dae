-- ===== src/Manifest/Lengths.antt =====
-- The lengths of the texts in a string pool.
use android_package_service.Base.{
  ℕ, zero, suc, ◌+◌, ◌*◌, ◌/◌, ◌%◌, ◌≤◌, ◌<◌, ◌≡◌, refl, ◌∙◌, ap, true, false, some, List, [], ◌∷◌,
  ◌++◌, arith, length, if◌then◌else◌, ltb, All, Bool-cases, Option-cases, inl, inr, subst, sym,
}
use android_package_service.Manifest.{
  Parse, parsed, struct_error, get_elem?, has_bit, byte_at, u16, decode_len8, decode_len16,
}
use android_package_service.Manifest.Shifts.{get_elem?-shift, u16-shift}

abbrev pub IsByte : ℕ → Type 0
IsByte b = b < 256

-- A length as Android writes it: of one or two bytes, and of one or two words of 16 bits.
abbrev pub encode_len8 : ℕ → List ℕ
encode_len8 n = if ltb n 128 then n ∷ [] else (128 + n / 256) ∷ (n % 256) ∷ []

abbrev pub word : ℕ → List ℕ
word w = (w % 256) ∷ (w / 256) ∷ []

abbrev pub encode_len16 : ℕ → List ℕ
encode_len16 n = if ltb n 32768 then word n else word (32768 + n / 65536) ++ word (n % 65536)

decode_len8_short :
    (bytes : List ℕ) (i a : ℕ)
    → get_elem? bytes i ≡ some a
    → a < 128
    → decode_len8 bytes i ≡ parsed (a, i + 1)
unfolding decode_len8 byte_at
decode_len8_short bytes i a e h =
    let clear : has_bit 128 a ≡ false = ground arith in rw e (rw clear refl)

decode_len8_long :
    (bytes : List ℕ) (i a b : ℕ)
    → get_elem? bytes i ≡ some a
    → get_elem? bytes (i + 1) ≡ some b
    → 128 ≤ a
    → a < 256
    → decode_len8 bytes i ≡ parsed (a % 128 * 256 + b, i + 2)
unfolding decode_len8 byte_at
decode_len8_long bytes i a b e f h k =
    let set : has_bit 128 a ≡ true = ground arith in rw e (rw set (rw f refl))

-- The first byte after `front`, and the next one.
get_elem?-first :
    (front xs : List ℕ) (x : ℕ) → get_elem? (front ++ (x ∷ xs)) (length front) ≡ some x
unfolding get_elem?
get_elem?-first [] xs x = refl
get_elem?-first (f ∷ front) xs x = get_elem?-first front xs x

get_elem?-second :
    (front xs : List ℕ) (x y : ℕ) → get_elem? (front ++ (x ∷ y ∷ xs)) (length front + 1) ≡ some y
get_elem?-second front xs x y = get_elem?-shift front (x ∷ y ∷ xs) 1 ∙ (unfold get_elem? in refl)

-- A length below 2 ^ 15 that was written in one or two bytes anywhere in a file is read back, up to
-- the byte after it.
pub decode-encode_len8 :
    (front rest : List ℕ) (n : ℕ)
    → n < 32768
    → decode_len8 (front ++ (encode_len8 n ++ rest)) (length front)
      ≡ parsed (n, length front + length (encode_len8 n))
unfolding decode_len8 byte_at get_elem?
decode-encode_len8 front rest n h = elim (Bool-cases (ltb n 128)) [
  | inl short ↦ rw short (
      decode_len8_short (front ++ (n ∷ rest)) (length front) n (get_elem?-first front rest n)
        (ground arith))
  | inr long ↦
      let a = 128 + n / 256 in
      let b = n % 256 in
      let back : a % 128 * 256 + b ≡ n = omega arith in
      rw long (
        decode_len8_long (front ++ (a ∷ b ∷ rest)) (length front) a b
          (get_elem?-first front (b ∷ rest) a) (get_elem?-second front rest a b) (omega arith)
          (omega arith)
        ∙ ap (λ k. parsed (k, length front + 2)) back)
]

pub u16-first :
    (front xs : List ℕ) (w : ℕ) → u16 (front ++ (word w ++ xs)) (length front) ≡ parsed w
unfolding u16 byte_at
u16-first front xs w =
    let back : w % 256 + w / 256 * 256 ≡ w = omega arith in
    rw
      (
        get_elem?-first front (w / 256 ∷ xs) (w % 256),
        get_elem?-second front xs (w % 256) (w / 256),
      )
      (ap parsed back)

decode_len16_short :
    (bytes : List ℕ) (i w : ℕ)
    → u16 bytes i ≡ parsed w
    → w < 32768
    → decode_len16 bytes i ≡ parsed (w, i + 2)
unfolding decode_len16
decode_len16_short bytes i w e h =
    let clear : has_bit 32768 w ≡ false = ground arith in rw e (rw clear refl)

decode_len16_long :
    (bytes : List ℕ) (i w v : ℕ)
    → u16 bytes i ≡ parsed w
    → u16 bytes (i + 2) ≡ parsed v
    → 32768 ≤ w
    → w < 65536
    → decode_len16 bytes i ≡ parsed (w % 32768 * 65536 + v, i + 4)
unfolding decode_len16
decode_len16_long bytes i w v e f h k =
    let set : has_bit 32768 w ≡ true = ground arith in rw e (rw set (rw f refl))

-- A length below 2 ^ 31 that was written in one or two words is read back, up to the word after it.
pub decode-encode_len16 :
    (front rest : List ℕ) (n : ℕ)
    → n < 0x8000_0000
    → decode_len16 (front ++ (encode_len16 n ++ rest)) (length front)
      ≡ parsed (n, length front + length (encode_len16 n))
decode-encode_len16 front rest n h = elim (Bool-cases (ltb n 32768)) [
  | inl short ↦ rw short (
      decode_len16_short (front ++ (word n ++ rest)) (length front) n (u16-first front rest n)
        (ground arith))
  | inr long ↦
      let w = 32768 + n / 65536 in
      let v = n % 65536 in
      let back : w % 32768 * 65536 + v ≡ n = omega arith in
      rw long (
        decode_len16_long (front ++ (word w ++ (word v ++ rest))) (length front) w v
          (u16-first front (word v ++ rest) w)
          (u16-shift front (word w ++ (word v ++ rest)) 2 ∙ u16-first (word w) rest v) (omega arith)
          (omega arith)
        ∙ ap (λ k. parsed (k, length front + 4)) back)
]

get_elem?_bounds :
    (bytes : List ℕ) (i a : ℕ)
    → All IsByte bytes
    → get_elem? bytes i ≡ some a
    → (a < 256) × (i < length bytes)
unfolding get_elem?
get_elem?_bounds [] i a bs h = absurd (cc)
get_elem?_bounds (b ∷ bytes) zero a bs h = ground arith
get_elem?_bounds (b ∷ bytes) (suc i) a bs h = ground (arith, get_elem?_bounds bytes i a bs.1 h)

-- In a file of bytes a length that is read as bytes is below 2 ^ 15 and ends one or two bytes later,
-- inside the file.
pub decode_len8_bounds :
    (bytes : List ℕ) (i n j : ℕ)
    → All IsByte bytes
    → decode_len8 bytes i ≡ parsed (n, j)
    → (n < 32768) × (i < j) × (j ≤ i + 2) × (j ≤ length bytes)
unfolding decode_len8 byte_at
decode_len8_bounds bytes i n j bs h = elim (Option-cases (get_elem? bytes i)) [
  | inl e ↦
      let bad : ◌≡◌ {A = Parse (ℕ × ℕ)} struct_error (parsed (n, j)) =
        subst (λ t. t ≡ parsed (n, j)) (rw e refl) h in
      absurd (cc)
  | inr (a, e) ↦ elim (Bool-cases (ltb a 128)) [
    | inl low ↦
        let read : parsed (a, i + 1) ≡ parsed (n, j) =
          sym (decode_len8_short bytes i a e (ground arith)) ∙ h in
        ground (arith, get_elem?_bounds bytes i a bs e, read)
    | inr high ↦
        let a_byte : a < 256 = (get_elem?_bounds bytes i a bs e).0 in
        let set : has_bit 128 a ≡ true = ground arith in
        elim (Option-cases (get_elem? bytes (i + 1))) [
          | inl f ↦
              let bad : ◌≡◌ {A = Parse (ℕ × ℕ)} struct_error (parsed (n, j)) =
                subst (λ t. t ≡ parsed (n, j)) (rw e (rw set (rw f refl))) h in
              absurd (cc)
          | inr (b, f) ↦
              let read : parsed (a % 128 * 256 + b, i + 2) ≡ parsed (n, j) =
                sym (decode_len8_long bytes i a b e f (ground arith) a_byte) ∙ h in
              ground (arith, get_elem?_bounds bytes (i + 1) b bs f, read)
        ]
  ]
]
