-- ===== src/Tlv/Writer.antt =====
-- internal/tlv/encoder.go: the writer.
use matter_cli.Prelude.{
  ℕ, ◌+◌, ◌-◌, ◌^◌, Bool, if◌then◌else◌, leb, List, [], ◌∷◌, ◌++◌, length, bit_or, Result, ok, err,
}
use matter_cli.Prelude.Le.{put_le}
use matter_cli.Prelude.Int.{ℤ, within, to_bits}
use matter_cli.Tlv.Types.{
  Tag, TlvError, container_mismatch, tag_code, encode_tag, type_signed_int8, type_signed_int16,
  type_signed_int32, type_signed_int64, type_unsigned_int8, type_unsigned_int16,
  type_unsigned_int32, type_unsigned_int64, type_bool_false, type_bool_true, type_float32,
  type_float64, type_utf8_string1, type_octet_string1, type_null, type_structure, type_array,
  type_list, type_end_of_container,
}

-- The stack of open containers has its top first.
pub record Writer : Type 0 where
  pub buf : List ℕ
  pub containers : List ℕ

abbrev pub new_writer : Writer
new_writer = record { buf = []; containers = [] }

-- A method that may fail; what was written before an error stays written.
abbrev pub Write : Type 0
Write = Writer → Result TlvError (Unit {0}) × Writer

abbrev pub write : List ℕ → Write
write bytes w = (ok tt, record w { buf = w.buf ++ bytes })

infixl 5 ◌>>◌
abbrev pub ◌>>◌ : Write → Write → Write
◌>>◌ m k w = let (r, w') = m w in elim r [ ok _ ↦ k w' | err e ↦ (err e, w') ]

abbrev write_tag : Result TlvError (List ℕ) → Write
write_tag (ok bytes) w = write bytes w
write_tag (err e) w = (err e, w)

unfoldable pub write_element : Tag → ℕ → Write
write_element tag elem_type =
    write (bit_or (tag_code tag.type_) elem_type ∷ []) >> write_tag (encode_tag tag)

-- The smallest signed type that holds `v`, and its size in bytes.
unfoldable pub signed_type : ℤ → ℕ × ℕ
signed_type v =
    if within (2 ^ 7) v
    then (type_signed_int8, 1)
    else if within (2 ^ 15) v
    then (type_signed_int16, 2)
    else if within (2 ^ 31) v
    then (type_signed_int32, 4)
    else (type_signed_int64, 8)

unfoldable pub put_signed_int : Tag → ℤ → Write
put_signed_int tag v =
    let (elem_type, size) = signed_type v in
    write_element tag elem_type >> write (put_le size (to_bits (256 ^ size) v))

unfoldable pub unsigned_type : ℕ → ℕ × ℕ
unsigned_type v =
    if leb v (2 ^ 8 - 1)
    then (type_unsigned_int8, 1)
    else if leb v (2 ^ 16 - 1)
    then (type_unsigned_int16, 2)
    else if leb v (2 ^ 32 - 1)
    then (type_unsigned_int32, 4)
    else (type_unsigned_int64, 8)

unfoldable pub put_unsigned_int : Tag → ℕ → Write
put_unsigned_int tag v =
    let (elem_type, size) = unsigned_type v in write_element tag elem_type >> write (put_le size v)

unfoldable pub put_bool : Tag → Bool → Write
put_bool tag v = write_element tag (if v then type_bool_true else type_bool_false)

unfoldable pub put_float32 : Tag → ℕ → Write
put_float32 tag bits = write_element tag type_float32 >> write (put_le 4 bits)

unfoldable pub put_float64 : Tag → ℕ → Write
put_float64 tag bits = write_element tag type_float64 >> write (put_le 8 bits)

-- The string type for a length, from the one with a 1-byte length on, and the length's size.
unfoldable pub string_element_type : ℕ → ℕ → ℕ × ℕ
string_element_type len base =
    if leb len (2 ^ 8 - 1)
    then (base, 1)
    else if leb len (2 ^ 16 - 1)
    then (base + 1, 2)
    else if leb len (2 ^ 32 - 1)
    then (base + 2, 4)
    else (base + 3, 8)

unfoldable pub put_string : ℕ → Tag → List ℕ → Write
put_string base tag bytes =
    let (elem_type, size) = string_element_type (length bytes) base in
    write_element tag elem_type >> write (put_le size (length bytes)) >> write bytes

unfoldable pub put_utf8_string : Tag → List ℕ → Write
put_utf8_string = put_string type_utf8_string1

unfoldable pub put_octet_string : Tag → List ℕ → Write
put_octet_string = put_string type_octet_string1

unfoldable pub put_null : Tag → Write
put_null tag = write_element tag type_null

abbrev pub push : ℕ → Write
push t w = (ok tt, record w { containers = t ∷ w.containers })

unfoldable pub start_structure : Tag → Write
start_structure tag = write_element tag type_structure >> push type_structure

unfoldable pub start_array : Tag → Write
start_array tag = write_element tag type_array >> push type_array

unfoldable pub start_list : Tag → Write
start_list tag = write_element tag type_list >> push type_list

unfoldable pub put_pre_encoded_struct : Tag → List ℕ → Write
put_pre_encoded_struct tag bytes =
    write_element tag type_structure >> write bytes >> write (type_end_of_container ∷ [])

abbrev pub pop : List ℕ → Write
pop [] w = (err container_mismatch, w)
pop (_ ∷ outer) w = write (type_end_of_container ∷ []) (record w { containers = outer })

unfoldable pub end_container : Write
end_container w = pop w.containers w
