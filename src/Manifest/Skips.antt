-- ===== src/Manifest/Skips.antt =====
-- Chunks of other kinds are passed over.
use android_package_service.Base.{
  ℕ, zero, suc, ◌+◌, ◌*◌, ◌/◌, ◌%◌, ◌≤◌, ◌<◌, String, ◌≡◌, refl, ◌∙◌, ap, sym, ◌≢◌, inl, inr, true,
  false, ◌||◌, List, [], ◌++◌, arith, length, length-append, leb, ltb, eqb, Bool-cases,
}
use android_package_service.Manifest.{
  Parse, parsed, struct_error, out_of_fuel, ◌>>=◌, u16, u32, ManifestAttributes, Chunk, go_on,
  manifest, next, Python, read_chunk, walk, parse_axml,
}
use android_package_service.Manifest.Lengths.{word, u16-first}
use android_package_service.Manifest.Shifts.{walk-shift}

bind-eq :
    {A B : Type 0} (m : Parse A) (f g : A → Parse B) → ((a : A) → f a ≡ g a) → (m >>= f) ≡ (m >>= g)
bind-eq (parsed a) f g e = e a
bind-eq struct_error f g e = refl
bind-eq out_of_fuel f g e = refl

go_on-eq :
    (c : Chunk) (f g : List String → List ℕ → Parse ManifestAttributes)
    → ((s : List String) (r : List ℕ) → f s r ≡ g s r)
    → go_on c f ≡ go_on c g
go_on-eq (manifest found) f g e = refl
go_on-eq (next s r) f g e = e s r

module _ (python : Python) where
  -- Enough fuel is as good as more.
  walk_fuel :
      (bytes : List ℕ) (f g o : ℕ) (s : List String) (r : List ℕ)
      → o ≤ length bytes
      → length bytes < o + f
      → length bytes < o + g
      → walk python f bytes o s r ≡ walk python g bytes o s r
  unfolding walk
  walk_fuel bytes zero g o s r le hf hg = absurd (omega arith)
  walk_fuel bytes (suc f) zero o s r le hf hg = absurd (omega arith)
  walk_fuel bytes (suc f) (suc g) o s r le hf hg = elim (Bool-cases (leb (o + 8) (length bytes))) [
    | inr short ↦ rw short refl
    | inl long ↦ rw long (
        bind-eq (u16 bytes o) _ _ λ kind. bind-eq (u32 bytes (o + 4)) _ _ λ size.
          elim (Bool-cases (ltb size 8 || ltb (length bytes) (o + size))) [
            | inl bad ↦ rw bad refl
            | inr good ↦
                let inside : o + size ≤ length bytes = ground arith in
                let grows : 8 ≤ size = ground arith in
                rw good (
                  bind-eq (read_chunk python bytes o kind size s r) _ _ λ c. go_on-eq c _ _ λ s' r'.
                    walk_fuel bytes f g (o + size) s' r' inside (omega arith) (omega arith))
          ])
  ]

-- A chunk as Android writes it: its kind, the size of its header, its own size in four bytes, and
-- what it holds.
abbrev pub chunk_of : ℕ → ℕ → List ℕ → List ℕ
chunk_of kind header_size body =
    let size = length body + 8 in
    word kind ++ (word header_size ++ (word (size % 65536) ++ (word (size / 65536) ++ body)))

u32-chunk :
    (kind header_size : ℕ) (body rest : List ℕ)
    → u32 (chunk_of kind header_size body ++ rest) 4 ≡ parsed (length body + 8)
unfolding u32
u32-chunk kind header_size body rest =
    let size = length body + 8 in
    let start = word kind ++ word header_size in
    let low = word (size % 65536) in
    let back : size % 65536 + size / 65536 * 65536 ≡ size = omega arith in
    rw
      (
        u16-first start (word (size / 65536) ++ (body ++ rest)) (size % 65536),
        u16-first (start ++ low) (body ++ rest) (size / 65536),
      )
      (ap parsed back)

ne_eqb : (a b : ℕ) → a ≢ b → eqb a b ≡ false
ne_eqb a b h = ground arith

-- The loop goes on behind such a chunk with what it knew before.
walk-chunk :
    (python : Python) (fuel kind header_size : ℕ) (body rest : List ℕ)
    → kind ≢ 1
    → kind ≢ 0x180
    → kind ≢ 0x102
    → walk python (suc fuel) (chunk_of kind header_size body ++ rest) 0 [] []
      ≡ walk python fuel (chunk_of kind header_size body ++ rest) (0 + (length body + 8)) [] []
unfolding walk read_chunk
walk-chunk python fuel kind header_size body rest n1 n2 n3 =
    let all = chunk_of kind header_size body ++ rest in
    let room : leb (0 + 8) (length all) ≡ true = ground arith in
    let inside : (ltb (length body + 8) 8 || ltb (length all) (0 + (length body + 8))) ≡ false =
      ground (arith, length-append body rest) in
    let typ : u16 all 0 ≡ parsed kind = u16-first [] _ kind in
    rw (room, typ, u32-chunk kind header_size body rest, inside)
      (rw (ne_eqb kind 1 n1, ne_eqb kind 0x180 n2, ne_eqb kind 0x102 n3) refl)

-- The first eight bytes of a file.
abbrev pub header_of : ℕ → ℕ → List ℕ
header_of header_size size =
    word 3 ++ (word header_size ++ (word (size % 65536) ++ word (size / 65536)))

parse_axml-header :
    (python : Python) (header_size size : ℕ) (rest : List ℕ)
    → parse_axml python (header_of header_size size ++ rest)
      ≡ walk python (suc (length rest + 8)) rest 0 [] []
unfolding parse_axml
parse_axml-header python header_size size rest =
    let header = header_of header_size size in
    let long : ltb (length (header ++ rest)) 8 ≡ false = ground arith in
    let fuel : suc (length (header ++ rest)) ≡ suc (length rest + 8) = omega arith in
    let typ : u16 (header ++ rest) 0 ≡ parsed 3 = u16-first [] _ 3 in
    rw (long, typ)
      (ap (λ f. walk python f (header ++ rest) 8 [] []) fuel
        ∙ walk-shift header rest python (suc (length rest + 8)) 0 [] [])

-- A chunk of a kind that the parser does not know makes no difference to a manifest that follows it.
pub parse_axml_skips :
    (python : Python) (header_size size kind chunk_header : ℕ) (body rest : List ℕ)
    → kind ≢ 1
    → kind ≢ 0x180
    → kind ≢ 0x102
    → let header = header_of header_size size in
      parse_axml python (header ++ (chunk_of kind chunk_header body ++ rest))
      ≡ parse_axml python (header ++ rest)
parse_axml_skips python header_size size kind chunk_header body rest n1 n2 n3 =
    let junk = chunk_of kind chunk_header body in
    let fuel = length (junk ++ rest) + 8 in
    let behind : 0 + (length body + 8) ≡ length junk + 0 = omega arith in
    parse_axml-header python header_size size (junk ++ rest)
    ∙ walk-chunk python fuel kind chunk_header body rest n1 n2 n3
    ∙ ap (λ o. walk python fuel (junk ++ rest) o [] []) behind
    ∙ walk-shift junk rest python fuel 0 [] []
    ∙ walk_fuel python rest fuel (suc (length rest + 8)) 0 [] [] (omega arith)
        (omega (arith, length-append junk rest)) (omega arith)
    ∙ sym (parse_axml-header python header_size size rest)
