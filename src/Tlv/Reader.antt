-- ===== src/Tlv/Reader.antt =====
-- internal/tlv/decoder.go: the reader, over an input that is a list of bytes.
use matter_cli.Prelude.{
  ℕ, ◌+◌, ◌^◌, Bool, true, false, ◌||◌, if◌then◌else◌, ltb, ◌==◌, List, [], ◌∷◌, bit_and, Result,
  ok, err, ◌>>=◌,
}
use matter_cli.Prelude.Le.{get_le}
use matter_cli.Prelude.Int.{of_bits}
use matter_cli.Tlv.Types.{
  Tag, Element, Value, absent, int, uint, boolean, float32, float64, utf8, octets, TlvError,
  invalid_type, container_mismatch, end_of_input, unexpected_eof, length_out_of_range, tag_type_of,
  decode_tag, read_full, tag_type_mask, element_type_mask, type_signed_int8, type_signed_int16,
  type_signed_int32, type_signed_int64, type_unsigned_int8, type_unsigned_int16,
  type_unsigned_int32, type_unsigned_int64, type_bool_false, type_bool_true, type_float32,
  type_float64, type_utf8_string1, type_octet_string1, type_null, type_structure, type_array,
  type_list, type_end_of_container, anonymous_tag,
}

pub record Reader : Type 0 where
  pub input : List ℕ
  pub containers : List ℕ
  pub elem_ : Element
  pub done : Bool

abbrev pub new_reader : List ℕ → Reader
new_reader bytes = record {
  input = bytes;
  containers = [];
  elem_ = record { tag = anonymous_tag; type_ = 0; value = absent };
  done = false;
}

unfoldable pub read_signed_int : ℕ → List ℕ → Result TlvError (Value × List ℕ)
read_signed_int size input =
    read_full size input >>= λ p. ok (int (of_bits (256 ^ size) (get_le size p.0)), p.1)

unfoldable pub read_unsigned_int : ℕ → List ℕ → Result TlvError (Value × List ℕ)
read_unsigned_int size input = read_full size input >>= λ p. ok (uint (get_le size p.0), p.1)

unfoldable pub read_float32 : List ℕ → Result TlvError (Value × List ℕ)
read_float32 input = read_full 4 input >>= λ p. ok (float32 (get_le 4 p.0), p.1)

unfoldable pub read_float64 : List ℕ → Result TlvError (Value × List ℕ)
read_float64 input = read_full 8 input >>= λ p. ok (float64 (get_le 8 p.0), p.1)

-- `make` panics on a length that is negative as an `int`, `length_out_of_range`, and on one that is more
-- than the platform can allocate, which depends on the platform: there, as for any length beyond the
-- input, the model gives the error of a short input.
unfoldable pub read_string_bytes : ℕ → List ℕ → Result TlvError (List ℕ × List ℕ)
read_string_bytes len_bytes input = read_full len_bytes input >>= λ p.
    let n = get_le len_bytes p.0 in
    if ltb n (2 ^ 63) then read_full n p.1 else err length_out_of_range

unfoldable pub read_utf8_string : ℕ → List ℕ → Result TlvError (Value × List ℕ)
read_utf8_string len_bytes input = read_string_bytes len_bytes input >>= λ p. ok (utf8 p.0, p.1)

unfoldable pub read_octet_string : ℕ → List ℕ → Result TlvError (Value × List ℕ)
read_octet_string len_bytes input = read_string_bytes len_bytes input >>= λ p. ok (octets p.0, p.1)

unfoldable pub read_value : ℕ → List ℕ → Result TlvError (Value × List ℕ)
read_value elem_type input =
    if elem_type == type_signed_int8
    then read_signed_int 1 input
    else if elem_type == type_signed_int16
    then read_signed_int 2 input
    else if elem_type == type_signed_int32
    then read_signed_int 4 input
    else if elem_type == type_signed_int64
    then read_signed_int 8 input
    else if elem_type == type_unsigned_int8
    then read_unsigned_int 1 input
    else if elem_type == type_unsigned_int16
    then read_unsigned_int 2 input
    else if elem_type == type_unsigned_int32
    then read_unsigned_int 4 input
    else if elem_type == type_unsigned_int64
    then read_unsigned_int 8 input
    else if elem_type == type_bool_false
    then ok (boolean false, input)
    else if elem_type == type_bool_true
    then ok (boolean true, input)
    else if elem_type == type_float32
    then read_float32 input
    else if elem_type == type_float64
    then read_float64 input
    else if elem_type == type_utf8_string1
    then read_utf8_string 1 input
    else if elem_type == type_utf8_string1 + 1
    then read_utf8_string 2 input
    else if elem_type == type_utf8_string1 + 2
    then read_utf8_string 4 input
    else if elem_type == type_utf8_string1 + 3
    then read_utf8_string 8 input
    else if elem_type == type_octet_string1
    then read_octet_string 1 input
    else if elem_type == type_octet_string1 + 1
    then read_octet_string 2 input
    else if elem_type == type_octet_string1 + 2
    then read_octet_string 4 input
    else if elem_type == type_octet_string1 + 3
    then read_octet_string 8 input
    else if elem_type == type_null
    then ok (absent, input)
    else err (invalid_type elem_type)

-- What an error leaves of the input: a read that hits the end has taken all of it.
abbrev left_after : TlvError → List ℕ → List ℕ
left_after unexpected_eof input = []
left_after _ input = input

-- Everything behind the tag.
unfoldable pub next_body : ℕ → Tag → List ℕ → Reader → Result TlvError (Unit {0}) × Reader
next_body elem_type tag input r =
    let bare : Element = record { tag = tag; type_ = elem_type; value = absent } in
    if elem_type == type_end_of_container
    then elim r.containers [
      | [] ↦ (err container_mismatch, record r { input = input })
      | _ ∷ outer ↦ (ok tt, record r { input = input; containers = outer; elem_ = bare })
    ]
    else if (elem_type == type_structure) || (elem_type == type_array) || (elem_type == type_list)
    then (ok tt, record r { input = input; containers = elem_type ∷ r.containers; elem_ = bare })
    else elim (read_value elem_type input) [
      | ok (value, rest) ↦ (
        ok tt,
        record r { input = rest; elem_ = record { tag = tag; type_ = elem_type; value = value } },
      )
      | err e ↦ (err e, record r { input = left_after e input })
    ]

unfoldable pub next_input : List ℕ → Reader → Result TlvError (Unit {0}) × Reader
next_input [] r = (err end_of_input, record r { done = true })
next_input (cb ∷ input) r = elim (decode_tag (tag_type_of (bit_and cb tag_type_mask)) input) [
  | ok (tag, rest) ↦ next_body (bit_and cb element_type_mask) tag rest r
  | err e ↦ (err e, record r { input = left_after e input })
]

unfoldable pub next : Reader → Result TlvError (Unit {0}) × Reader
next r = if r.done then (err end_of_input, r) else next_input r.input r
