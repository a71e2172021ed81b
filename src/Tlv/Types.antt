-- ===== src/Tlv/Types.antt =====
-- internal/tlv/types.go and tags.go: element types, tags, elements and errors.
use matter_cli.Prelude.{
  ℕ, ◌%◌, ◌^◌, Bool, if◌then◌else◌, ltb, ◌==◌, List, [], ◌++◌, length, take, drop, Result, ok, err,
  ◌>>=◌,
}
use matter_cli.Prelude.Le.{put_le, get_le}
use matter_cli.Prelude.Int.{ℤ}

-- Element types: the low 5 bits of the control byte.
abbrev pub type_signed_int8 : ℕ
type_signed_int8 = 0x00

abbrev pub type_signed_int16 : ℕ
type_signed_int16 = 0x01

abbrev pub type_signed_int32 : ℕ
type_signed_int32 = 0x02

abbrev pub type_signed_int64 : ℕ
type_signed_int64 = 0x03

abbrev pub type_unsigned_int8 : ℕ
type_unsigned_int8 = 0x04

abbrev pub type_unsigned_int16 : ℕ
type_unsigned_int16 = 0x05

abbrev pub type_unsigned_int32 : ℕ
type_unsigned_int32 = 0x06

abbrev pub type_unsigned_int64 : ℕ
type_unsigned_int64 = 0x07

abbrev pub type_bool_false : ℕ
type_bool_false = 0x08

abbrev pub type_bool_true : ℕ
type_bool_true = 0x09

abbrev pub type_float32 : ℕ
type_float32 = 0x0a

abbrev pub type_float64 : ℕ
type_float64 = 0x0b

abbrev pub type_utf8_string1 : ℕ
type_utf8_string1 = 0x0c

abbrev pub type_octet_string1 : ℕ
type_octet_string1 = 0x10

abbrev pub type_null : ℕ
type_null = 0x14

abbrev pub type_structure : ℕ
type_structure = 0x15

abbrev pub type_array : ℕ
type_array = 0x16

abbrev pub type_list : ℕ
type_list = 0x17

abbrev pub type_end_of_container : ℕ
type_end_of_container = 0x18

abbrev pub tag_type_mask : ℕ
tag_type_mask = 0xe0

abbrev pub element_type_mask : ℕ
element_type_mask = 0x1f

-- The tag forms. `unknown n` is any other value of Go's `TagType`.
pub data TagType : Type 0 where
  anonymous context_specific common_profile2 common_profile4 : TagType
  implicit_profile2 implicit_profile4 fully_qualified6 fully_qualified8 : TagType
  unknown : ℕ → TagType

unfoldable pub tag_code : TagType → ℕ
tag_code anonymous = 0x00
tag_code context_specific = 0x20
tag_code common_profile2 = 0x40
tag_code common_profile4 = 0x60
tag_code implicit_profile2 = 0x80
tag_code implicit_profile4 = 0xa0
tag_code fully_qualified6 = 0xc0
tag_code fully_qualified8 = 0xe0
tag_code (unknown n) = n

unfoldable pub tag_type_of : ℕ → TagType
tag_type_of n =
    if n == 0x00
    then anonymous
    else if n == 0x20
    then context_specific
    else if n == 0x40
    then common_profile2
    else if n == 0x60
    then common_profile4
    else if n == 0x80
    then implicit_profile2
    else if n == 0xa0
    then implicit_profile4
    else if n == 0xc0
    then fully_qualified6
    else if n == 0xe0
    then fully_qualified8
    else unknown n

pub record Tag : Type 0 where
  pub type_ : TagType
  pub vendor_id : ℕ
  pub profile_num : ℕ
  pub tag_num : ℕ

abbrev pub anonymous_tag : Tag
anonymous_tag = record { type_ = anonymous; vendor_id = 0; profile_num = 0; tag_num = 0 }

abbrev pub context_tag : ℕ → Tag
context_tag n = record { type_ = context_specific; vendor_id = 0; profile_num = 0; tag_num = n }

-- What Go's `any` holds; a float is its IEEE bit pattern, a string its bytes.
pub data Value : Type 0 where
  absent : Value
  int : ℤ → Value
  uint : ℕ → Value
  boolean : Bool → Value
  float32 : ℕ → Value
  float64 : ℕ → Value
  utf8 : List ℕ → Value
  octets : List ℕ → Value

pub record Element : Type 0 where
  pub tag : Tag
  pub type_ : ℕ
  pub value : Value

pub data TlvError : Type 0 where
  invalid_type : ℕ → TlvError
  invalid_tag : ℕ → TlvError
  unexpected_eof : TlvError
  container_mismatch : TlvError
  end_of_input : TlvError
  length_out_of_range : TlvError

-- The tag bytes behind the control byte.
unfoldable pub encode_tag_as : TagType → Tag → Result TlvError (List ℕ)
encode_tag_as anonymous t = ok []
encode_tag_as context_specific t = ok (put_le 1 t.tag_num)
encode_tag_as common_profile2 t = ok (put_le 2 (t.tag_num % 2 ^ 16))
encode_tag_as implicit_profile2 t = ok (put_le 2 (t.tag_num % 2 ^ 16))
encode_tag_as common_profile4 t = ok (put_le 4 t.tag_num)
encode_tag_as implicit_profile4 t = ok (put_le 4 t.tag_num)
encode_tag_as fully_qualified6 t =
    ok (put_le 2 t.vendor_id ++ (put_le 2 t.profile_num ++ put_le 2 (t.tag_num % 2 ^ 16)))
encode_tag_as fully_qualified8 t =
    ok (put_le 2 t.vendor_id ++ (put_le 2 t.profile_num ++ put_le 4 t.tag_num))
encode_tag_as (unknown n) t = err (invalid_tag n)

abbrev pub encode_tag : Tag → Result TlvError (List ℕ)
encode_tag t = encode_tag_as t.type_ t

-- `io.ReadFull` of `n` bytes: the bytes and the rest of the input, or an error at its end.
unfoldable pub read_full : ℕ → List ℕ → Result TlvError (List ℕ × List ℕ)
read_full n input =
    if ltb (length input) n then err unexpected_eof else ok (take n input, drop n input)

abbrev tag_with : TagType → ℕ → ℕ → ℕ → Tag
tag_with t vendor profile num = record {
  type_ = t;
  vendor_id = vendor;
  profile_num = profile;
  tag_num = num;
}

unfoldable pub decode_tag : TagType → List ℕ → Result TlvError (Tag × List ℕ)
decode_tag anonymous input = ok (tag_with anonymous 0 0 0, input)
decode_tag context_specific input =
    read_full 1 input >>= λ p. ok (tag_with context_specific 0 0 (get_le 1 p.0), p.1)
decode_tag common_profile2 input =
    read_full 2 input >>= λ p. ok (tag_with common_profile2 0 0 (get_le 2 p.0), p.1)
decode_tag implicit_profile2 input =
    read_full 2 input >>= λ p. ok (tag_with implicit_profile2 0 0 (get_le 2 p.0), p.1)
decode_tag common_profile4 input =
    read_full 4 input >>= λ p. ok (tag_with common_profile4 0 0 (get_le 4 p.0), p.1)
decode_tag implicit_profile4 input =
    read_full 4 input >>= λ p. ok (tag_with implicit_profile4 0 0 (get_le 4 p.0), p.1)
decode_tag fully_qualified6 input = read_full 6 input >>= λ p.
    ok (
      tag_with fully_qualified6 (get_le 2 p.0) (get_le 2 (drop 2 p.0)) (get_le 2 (drop 4 p.0)),
      p.1,
    )
decode_tag fully_qualified8 input = read_full 8 input >>= λ p.
    ok (
      tag_with fully_qualified8 (get_le 2 p.0) (get_le 2 (drop 2 p.0)) (get_le 4 (drop 4 p.0)),
      p.1,
    )
decode_tag (unknown n) input = err (invalid_tag n)

unfoldable pub tag_size : TagType → ℕ
tag_size anonymous = 0
tag_size context_specific = 1
tag_size common_profile2 = 2
tag_size implicit_profile2 = 2
tag_size common_profile4 = 4
tag_size implicit_profile4 = 4
tag_size fully_qualified6 = 6
tag_size fully_qualified8 = 8
tag_size (unknown n) = 0
