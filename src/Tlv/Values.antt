-- ===== src/Tlv/Values.antt =====
-- The values of internal/tlv: what the writer chooses to put for a number or a text is read back.
use matter_cli.Prelude.{
  ℕ, ◌+◌, ◌-◌, ◌*◌, ◌/◌, ◌%◌, ◌^◌, ◌<◌, ◌≡◌, refl, ◌∙◌, true, leb, List, [], ◌++◌, length,
  append_assoc, append-nil, ok, arith, Bool-cases, lt→ltb, inl, inr,
}
use native.Mathlib.Nat.{mod-eq_of_lt}
use matter_cli.Prelude.Le.{put_le, get_le, get_le-put_le, length-put_le}
use matter_cli.Prelude.Int.{ℤ, pos, negsuc, within, to_bits, of_bits}
use matter_cli.Tlv.Types.{
  Value, int, uint, float32, float64, utf8, octets, type_float32, type_float64, type_utf8_string1,
  type_octet_string1,
}
use matter_cli.Tlv.Tags.{read_full-append}
use matter_cli.Tlv.Writer.{signed_type, unsigned_type, string_element_type}
use matter_cli.Tlv.Reader.{
  read_signed_int, read_unsigned_int, read_float32, read_float64, read_string_bytes,
  read_utf8_string, read_octet_string, read_value,
}

-- A payload that `readValue` reads as a value, whatever follows.
abbrev pub ReadsAs : ℕ → List ℕ → Value → Type 0
ReadsAs elem_type payload v =
    (rest : List ℕ) → read_value elem_type (payload ++ rest) ≡ ok (v, rest)

-- The sizes that the writer chooses, with the bound that each one stands for.
pub data SignedAs (v : ℤ) : ℕ × ℕ → Type 0 where
  one : within (2 ^ 7) v ≡ true → SignedAs v (0x00, 1)
  two : within (2 ^ 15) v ≡ true → SignedAs v (0x01, 2)
  four : within (2 ^ 31) v ≡ true → SignedAs v (0x02, 4)
  eight : within (2 ^ 63) v ≡ true → SignedAs v (0x03, 8)

pub signed_as : (v : ℤ) → within (2 ^ 63) v ≡ true → SignedAs v (signed_type v)
unfolding signed_type
signed_as v h = elim (Bool-cases (within (2 ^ 7) v)) [
  | inl e ↦ rw (e, signed_type) (one e)
  | inr a ↦ elim (Bool-cases (within (2 ^ 15) v)) [
    | inl e ↦ rw (a, e, signed_type) (two e)
    | inr b ↦ elim (Bool-cases (within (2 ^ 31) v)) [
      | inl e ↦ rw (a, b, e, signed_type) (four e)
      | inr c ↦ rw (a, b, c, signed_type) (eight h)
    ]
  ]
]

pub data SizedAs (base n : ℕ) : ℕ × ℕ → Type 0 where
  one : n < 256 → SizedAs base n (base, 1)
  two : n < 256 ^ 2 → SizedAs base n (base + 1, 2)
  four : n < 256 ^ 4 → SizedAs base n (base + 2, 4)
  eight : n < 256 ^ 8 → SizedAs base n (base + 3, 8)

pub sized_as : (base n : ℕ) → n < 2 ^ 64 → SizedAs base n (string_element_type n base)
unfolding string_element_type
sized_as base n h = elim (Bool-cases (leb n (2 ^ 8 - 1))) [
  | inl e ↦ rw (e, string_element_type) (one (ground arith))
  | inr a ↦ elim (Bool-cases (leb n (2 ^ 16 - 1))) [
    | inl e ↦ rw (a, e, string_element_type) (two (ground arith))
    | inr b ↦ elim (Bool-cases (leb n (2 ^ 32 - 1))) [
      | inl e ↦ rw (a, b, e, string_element_type) (four (ground arith))
      | inr c ↦ rw (a, b, c, string_element_type) (eight (omega arith))
    ]
  ]
]

pub unsigned_type-eq : (v : ℕ) → unsigned_type v ≡ string_element_type v 0x04
unfolding unsigned_type string_element_type
unsigned_type-eq v = refl

pub get_le-put_le_all : (k v : ℕ) → v < 256 ^ k → get_le k (put_le k v) ≡ v
get_le-put_le_all k v h = rw append-nil at (get_le-put_le k v [] h)

of_bits-to_bits :
    (half : ℕ) (v : ℤ) → within half v ≡ true → of_bits (2 * half) (to_bits (2 * half) v) ≡ v
of_bits-to_bits half (pos n) h =
    let bound : n < half = ground arith in
    let small : n % (2 * half) ≡ n = mod-eq_of_lt (omega arith) in
    let halved : 2 * half / 2 ≡ half = omega arith in ground arith
of_bits-to_bits half (negsuc n) h =
    let bound : n < half = ground arith in
    let small : n % (2 * half) ≡ n = mod-eq_of_lt (omega arith) in
    let halved : 2 * half / 2 ≡ half = omega arith in ground arith

to_bits-lt : (half : ℕ) (v : ℤ) → within half v ≡ true → to_bits (2 * half) v < 2 * half
to_bits-lt half (pos n) h = ground arith
to_bits-lt half (negsuc n) h = ground arith

-- The readers of one size undo `put_le`.
reads_signed_int :
    (size b : ℕ) (rest : List ℕ)
    → b < 256 ^ size
    → read_signed_int size (put_le size b ++ rest) ≡ ok (int (of_bits (256 ^ size) b), rest)
unfolding read_signed_int
reads_signed_int size b rest h =
    rw (
      read_full-append size (put_le size b) rest (length-put_le size b),
      get_le-put_le_all size b h,
    )

reads_unsigned_int :
    (size b : ℕ) (rest : List ℕ)
    → b < 256 ^ size
    → read_unsigned_int size (put_le size b ++ rest) ≡ ok (uint b, rest)
unfolding read_unsigned_int
reads_unsigned_int size b rest h =
    rw (
      read_full-append size (put_le size b) rest (length-put_le size b),
      get_le-put_le_all size b h,
    )

reads_string_bytes :
    (size : ℕ) (bytes rest : List ℕ)
    → length bytes < 256 ^ size
    → length bytes < 2 ^ 63
    → read_string_bytes size (put_le size (length bytes) ++ (bytes ++ rest)) ≡ ok (bytes, rest)
unfolding read_string_bytes
reads_string_bytes size bytes rest h k =
    rw
      (
        read_full-append size (put_le size (length bytes)) (bytes ++ rest)
            (length-put_le size (length bytes)),
        get_le-put_le_all size (length bytes) h,
        lt→ltb (length bytes) (2 ^ 63) k,
      )
      (read_full-append (length bytes) bytes rest refl)

pub reads_signed :
    (v : ℤ) {p : ℕ × ℕ} → SignedAs v p → ReadsAs p.0 (put_le p.1 (to_bits (256 ^ p.1) v)) (int v)
unfolding read_value
reads_signed v (one h) rest =
    reads_signed_int 1 _ rest (to_bits-lt (2 ^ 7) v h) ∙ rw (of_bits-to_bits (2 ^ 7) v h)
reads_signed v (two h) rest =
    reads_signed_int 2 _ rest (to_bits-lt (2 ^ 15) v h) ∙ rw (of_bits-to_bits (2 ^ 15) v h)
reads_signed v (four h) rest =
    reads_signed_int 4 _ rest (to_bits-lt (2 ^ 31) v h) ∙ rw (of_bits-to_bits (2 ^ 31) v h)
reads_signed v (eight h) rest =
    reads_signed_int 8 _ rest (to_bits-lt (2 ^ 63) v h) ∙ rw (of_bits-to_bits (2 ^ 63) v h)

pub reads_unsigned : (v : ℕ) {p : ℕ × ℕ} → SizedAs 0x04 v p → ReadsAs p.0 (put_le p.1 v) (uint v)
unfolding read_value
reads_unsigned v (one h) rest = reads_unsigned_int 1 v rest h
reads_unsigned v (two h) rest = reads_unsigned_int 2 v rest h
reads_unsigned v (four h) rest = reads_unsigned_int 4 v rest h
reads_unsigned v (eight h) rest = reads_unsigned_int 8 v rest h

pub reads_utf8 :
    (s : List ℕ) {p : ℕ × ℕ}
    → length s < 2 ^ 63
    → SizedAs type_utf8_string1 (length s) p
    → ReadsAs p.0 (put_le p.1 (length s) ++ s) (utf8 s)
unfolding read_value read_utf8_string
reads_utf8 s k (one h) rest = rw (append_assoc, reads_string_bytes 1 s rest h k)
reads_utf8 s k (two h) rest = rw (append_assoc, reads_string_bytes 2 s rest h k)
reads_utf8 s k (four h) rest = rw (append_assoc, reads_string_bytes 4 s rest h k)
reads_utf8 s k (eight h) rest = rw (append_assoc, reads_string_bytes 8 s rest h k)

pub reads_octets :
    (s : List ℕ) {p : ℕ × ℕ}
    → length s < 2 ^ 63
    → SizedAs type_octet_string1 (length s) p
    → ReadsAs p.0 (put_le p.1 (length s) ++ s) (octets s)
unfolding read_value read_octet_string
reads_octets s k (one h) rest = rw (append_assoc, reads_string_bytes 1 s rest h k)
reads_octets s k (two h) rest = rw (append_assoc, reads_string_bytes 2 s rest h k)
reads_octets s k (four h) rest = rw (append_assoc, reads_string_bytes 4 s rest h k)
reads_octets s k (eight h) rest = rw (append_assoc, reads_string_bytes 8 s rest h k)

pub signed-lt : (v : ℤ) {p : ℕ × ℕ} → SignedAs v p → p.0 < 0x15
signed-lt v (one h) = omega arith
signed-lt v (two h) = omega arith
signed-lt v (four h) = omega arith
signed-lt v (eight h) = omega arith

pub sized-lt : (base n : ℕ) {p : ℕ × ℕ} → base < 0x12 → SizedAs base n p → p.0 < 0x15
sized-lt base n b (one h) = omega arith
sized-lt base n b (two h) = omega arith
sized-lt base n b (four h) = omega arith
sized-lt base n b (eight h) = omega arith

pub reads_float32 : (b : ℕ) → b < 256 ^ 4 → ReadsAs type_float32 (put_le 4 b) (float32 b)
unfolding read_value read_float32
reads_float32 b h rest =
    rw (read_full-append 4 (put_le 4 b) rest (length-put_le 4 b), get_le-put_le_all 4 b h)

pub reads_float64 : (b : ℕ) → b < 256 ^ 8 → ReadsAs type_float64 (put_le 8 b) (float64 b)
unfolding read_value read_float64
reads_float64 b h rest =
    rw (read_full-append 8 (put_le 8 b) rest (length-put_le 8 b), get_le-put_le_all 8 b h)
