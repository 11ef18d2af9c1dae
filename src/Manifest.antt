-- ===== src/Manifest.antt =====
-- The parser of binary Android manifests in app/catalog/manifest.py. A file is the list of its bytes.
-- What `struct.unpack_from` or an index raises is `struct_error`. The decoders of UTF-8 and UTF-16,
-- `int` of a text and `str` of an integer are the record `Python`.
mod Bytes
pub mod Lengths
pub mod Walks
pub mod Shifts
pub mod Skips
unfoldable pub use Bytes.*
use android_package_service.Base.{
  ℕ, zero, suc, ◌+◌, ◌-◌, ◌*◌, ◌/◌, ◌%◌, String, Bool, true, false, ◌&&◌, ◌||◌, Option, none, some,
  List, [], ◌∷◌, ◌++◌, ◌==◌, if◌then◌else◌, ltb, leb, eqb, is_none, length, holds_text,
}

pub record Python : Type 0 where
  pub utf_8 : List ℕ → String
  pub utf_16_le : List ℕ → String
  pub int_of : String → Option ℤ
  pub str_of : ℤ → String

-- `_decode_len8` and `_decode_len16`: the length and the position after it.
unfoldable pub decode_len8 : List ℕ → ℕ → Parse (ℕ × ℕ)
decode_len8 bytes i = do
  value ← byte_at bytes i
  if has_bit 128 value
      then (do low ← byte_at bytes (i + 1); parsed (value % 128 * 256 + low, i + 2))
      else parsed (value, i + 1)

unfoldable pub decode_len16 : List ℕ → ℕ → Parse (ℕ × ℕ)
decode_len16 bytes i = do
  value ← u16 bytes i
  if has_bit 32768 value
      then (do low ← u16 bytes (i + 2); parsed (value % 32768 * 65536 + low, i + 4))
      else parsed (value, i + 2)

unfoldable pub parse_resource_map : List ℕ → ℕ → ℕ → Parse (List ℕ)
parse_resource_map bytes offset chunk_size = do
  header_size ← u16 bytes (offset + 2)
  if eqb ((chunk_size - header_size) / 4) 0
      then parsed []
      else u32s bytes ((chunk_size - header_size) / 4) (offset + header_size)

module _ (python : Python) where
  unfoldable pub decode_pool_string : List ℕ → ℕ → Bool → Parse String
  decode_pool_string bytes i true = do
    chars ← decode_len8 bytes i
    size ← decode_len8 bytes chars.1
    parsed (python.utf_8 (slice bytes size.1 size.0))
  decode_pool_string bytes i false = do
    chars ← decode_len16 bytes i
    parsed (python.utf_16_le (slice bytes chars.1 (chars.0 * 2)))

  -- A text that cannot be decoded is empty.
  abbrev pub or_empty : Parse String → String
  or_empty (parsed s) = s
  or_empty struct_error = ""
  or_empty out_of_fuel = ""

  unfoldable pub decode_all : List ℕ → ℕ → Bool → List ℕ → List String
  decode_all bytes base is_utf8 [] = []
  decode_all bytes base is_utf8 (rel ∷ rels) =
      or_empty (decode_pool_string bytes (base + rel) is_utf8) ∷ decode_all bytes base is_utf8 rels

  unfoldable pub parse_string_pool : List ℕ → ℕ → Parse (List String)
  parse_string_pool bytes offset = do
    string_count ← u32 bytes (offset + 8)
    flags ← u32 bytes (offset + 16)
    strings_start ← u32 bytes (offset + 20)
    offsets ← u32s bytes string_count (offset + 28)
    parsed (decode_all bytes (offset + strings_start) (has_bit 256 flags) offsets)

  -- `_attr_string` and `_attr_int`
  unfoldable pub attr_string : List String → ℤ → ℕ → ℤ → Option String
  attr_string strings raw_value value_type value =
      if is_natural raw_value
      then at strings raw_value
      else if eqb value_type 3
      then at strings value
      else some (python.str_of value)

  abbrev pub as_int : Option String → Option ℤ
  as_int none = none
  as_int (some text) = python.int_of text

  unfoldable pub attr_int : List String → ℤ → ℕ → ℤ → Option ℤ
  attr_int strings raw_value value_type value =
      if eqb value_type 3 || (eqb value_type 0 && is_natural raw_value)
      then as_int (at strings raw_value)
      else some value

  -- One turn of the loop over the attributes.
  unfoldable pub read_attribute :
      List ℕ → List String → List ℕ → ℕ → ManifestAttributes → Parse ManifestAttributes
  read_attribute bytes strings resource_ids entry found = do
    name ← i32 bytes (entry + 4)
    raw_value ← i32 bytes (entry + 8)
    value_type ← byte_at bytes (entry + 15)
    value ← i32 bytes (entry + 16)
    let attr_name = at strings name
    let res_id = at resource_ids name
    parsed (
        if holds_text attr_name "package" && is_none res_id
        then record found { package_name = attr_string strings raw_value value_type value }
        else if holds_text attr_name "versionCode" || holds_number res_id 0x0101021b
        then record found { version_code = attr_int strings raw_value value_type value }
        else if holds_text attr_name "versionName" || holds_number res_id 0x0101021c
        then record found { version_name = attr_string strings raw_value value_type value }
        else found)

  unfoldable pub read_attributes :
      List ℕ → List String → List ℕ → ℕ → ℕ → ℕ → ManifestAttributes → Parse ManifestAttributes
  read_attributes bytes strings resource_ids size zero entry found = parsed found
  read_attributes bytes strings resource_ids size (suc rest) entry found = do
    found' ← read_attribute bytes strings resource_ids entry found
    read_attributes bytes strings resource_ids size rest (entry + size) found'

  -- `none` where the element is not the manifest.
  unfoldable pub parse_start_element :
      List ℕ → ℕ → List String → List ℕ → Parse (Option ManifestAttributes)
  parse_start_element bytes offset strings resource_ids = do
    name ← i32 bytes (offset + 16 + 4)
    if holds_text (at strings name) "manifest"
        then (do
          attribute_start ← u16 bytes (offset + 16 + 8)
          attribute_size ← u16 bytes (offset + 16 + 10)
          attribute_count ← u16 bytes (offset + 16 + 12)
          found ←
              read_attributes bytes strings resource_ids attribute_size attribute_count
                (offset + 16 + attribute_start) no_attributes
          parsed (some found))
        else parsed none

  -- What one turn of the loop over the chunks makes of a chunk.
  unfoldable pub read_chunk : List ℕ → ℕ → ℕ → ℕ → List String → List ℕ → Parse Chunk
  read_chunk bytes offset chunk_type chunk_size strings resource_ids =
      if eqb chunk_type 1
      then (do strings' ← parse_string_pool bytes offset; parsed (next strings' resource_ids))
      else if eqb chunk_type 0x180
      then (do
        resource_ids' ← parse_resource_map bytes offset chunk_size
        parsed (next strings resource_ids'))
      else if eqb chunk_type 0x102
      then (do
        found ← parse_start_element bytes offset strings resource_ids
        parsed (found_or_next found strings resource_ids))
      else parsed (next strings resource_ids)

  -- The loop over the chunks of `_parse_axml`.
  unfoldable pub walk : ℕ → List ℕ → ℕ → List String → List ℕ → Parse ManifestAttributes
  walk zero bytes offset strings resource_ids = out_of_fuel
  walk (suc fuel) bytes offset strings resource_ids =
      let rest = λ (size : ℕ). walk fuel bytes (offset + size) in
      if leb (offset + 8) (length bytes)
      then (do
        chunk_type ← u16 bytes offset
        chunk_size ← u32 bytes (offset + 4)
        if ltb chunk_size 8 || ltb (length bytes) (offset + chunk_size)
            then parsed no_attributes
            else (do
              chunk ← read_chunk bytes offset chunk_type chunk_size strings resource_ids
              go_on chunk (rest chunk_size)))
      else parsed no_attributes

  -- `_parse_axml`; each chunk has eight bytes at least, so the fuel is enough.
  unfoldable pub parse_axml : List ℕ → Parse ManifestAttributes
  parse_axml bytes = if ltb (length bytes) 8 then parsed no_attributes else do
    file_type ← u16 bytes 0
    if eqb file_type 3 then walk (suc (length bytes)) bytes 8 [] [] else parsed no_attributes

  -- `_from_axml`, and what `parse_artifact` makes of it: nothing if anything was raised.
  unfoldable pub from_axml : List ℕ → Option ManifestAttributes
  from_axml bytes = elim (parse_axml bytes) [
    | parsed found ↦
        if is_none found.package_name && (is_none found.version_name && is_none found.version_code)
        then none
        else some found
    | struct_error ↦ none
    | out_of_fuel ↦ none
  ]
