-- ===== src/Tests/Manifest.antt =====
-- Runs of app/catalog/manifest.py.
use Prim.Native.String
use android_package_service.Base.{
  ℕ, ◌+◌, ◌-◌, String, ◌≡◌, refl, none, some, List, [], ◌∷◌, ◌++◌, arith, length,
}
use android_package_service.Manifest.{
  Python, parsed, no_attributes, get_elem?, u16, u32, i32, byte_at, u32_loop, u32s, take, drop,
  decode_len8, decode_len16, decode_pool_string, decode_all, parse_string_pool, parse_resource_map,
  attr_string, attr_int, read_attribute, read_attributes, parse_start_element, read_chunk, walk,
  parse_axml, from_axml,
}
use android_package_service.Manifest.Lengths.{word, encode_len8, decode-encode_len8}
use android_package_service.Manifest.Skips.{chunk_of, header_of, parse_axml_skips}
use android_package_service.Manifest.Walks.{Ends, parse_axml-Ends}

-- The small letters of ASCII; no text is a number.
abbrev letters : List ℕ → String
letters [] = ""
letters (b ∷ bs) = String.◌∷◌ (String.char_at "abcdefghijklmnopqrstuvwxyz" (b - 97)) (letters bs)

abbrev python : Python
python = record { utf_8 = letters; utf_16_le = letters; int_of = λ s. none; str_of = λ n. "number" }

abbrev dword : ℕ → List ℕ
dword n = word n ++ 0 ∷ 0 ∷ []

-- The texts "manifest", "package" and "com".
abbrev pool : List ℕ
pool = chunk_of 1 28 (
    dword 3
    ++ (dword 0
        ++ (dword 256
            ++ (dword 40
                ++ (dword 0
                    ++ (dword 0
                        ++ (dword 11
                            ++ (dword 21
                                ++ (8 ∷ 8 ∷ 109 ∷ 97 ∷ 110 ∷ 105 ∷ 102 ∷ 101 ∷ 115 ∷ 116 ∷ 0 ∷ 7 ∷ 7
                                    ∷ 112 ∷ 97 ∷ 99 ∷ 107 ∷ 97 ∷ 103 ∷ 101 ∷ 0 ∷ 3 ∷ 3 ∷ 99 ∷ 111
                                    ∷ 109 ∷ 0 ∷ [])))))))))

abbrev element : List ℕ
element = chunk_of 0x102 16 (
    dword 1
    ++ (dword 0
        ++ (dword 0
            ++ (dword 0
                ++ (word 20
                    ++ (word 20
                        ++ (word 1
                            ++ (word 0
                                ++ (word 0
                                    ++ (word 0
                                        ++ (dword 0
                                            ++ (dword 1
                                                ++ (dword 2
                                                    ++ (word 8 ++ (0 ∷ 3 ∷ dword 2)))))))))))))))

abbrev document : List ℕ
document = header_of 8 (length (pool ++ element)) ++ (pool ++ element)

parse_axml-document :
    parse_axml python document
    ≡ parsed (record { package_name = some "com"; version_name = none; version_code = none })
unfolding get_elem? u16 u32 i32 byte_at u32_loop u32s take drop decode_len8 decode_len16
    decode_pool_string decode_all parse_string_pool parse_resource_map attr_string attr_int
    read_attribute read_attributes parse_start_element read_chunk walk parse_axml
parse_axml-document = refl

parse_axml_short : parse_axml python (3 ∷ 0 ∷ 8 ∷ []) ≡ parsed no_attributes
unfolding parse_axml
parse_axml_short = refl

from_axml_short : from_axml python (3 ∷ 0 ∷ 8 ∷ []) ≡ none
unfolding parse_axml from_axml
from_axml_short = refl

parse_axml-Ends_example : Ends (parse_axml python document)
parse_axml-Ends_example = parse_axml-Ends python document

parse_axml_skips_example :
    parse_axml python (header_of 8 100 ++ (chunk_of 0x203 16 (1 ∷ 2 ∷ []) ++ (pool ++ element)))
    ≡ parse_axml python (header_of 8 100 ++ (pool ++ element))
parse_axml_skips_example =
    parse_axml_skips python 8 100 0x203 16 (1 ∷ 2 ∷ []) (pool ++ element) (omega arith)
      (omega arith) (omega arith)

decode-encode_len8_example :
    decode_len8 (1 ∷ 2 ∷ encode_len8 300 ++ (9 ∷ [])) 2 ≡ parsed (300, 2 + length (encode_len8 300))
decode-encode_len8_example = decode-encode_len8 (1 ∷ 2 ∷ []) (9 ∷ []) 300 (omega arith)
