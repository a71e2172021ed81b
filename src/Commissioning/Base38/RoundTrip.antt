-- ===== src/Commissioning/Base38/RoundTrip.antt =====
-- Base38 of internal/commissioning/payload.go read back.
use matter_cli.Prelude.{
  ℕ, zero, suc, ◌+◌, ◌*◌, ◌/◌, ◌%◌, ◌^◌, ◌<◌, ◌≡◌, refl, ap, ◌∙◌, Bool, true, false, ◌==◌, Option,
  none, some, List, [], ◌∷◌, ◌++◌, get_or, bit_or, All, Result, ok, ◌>>=◌, arith,
}
use matter_cli.Prelude.Bits.{IsByte, all_below, all_below_sound}
use matter_cli.Prelude.Digits.{bit_or-shift}
use native.Mathlib.Nat.{pow-suc}
use matter_cli.Commissioning.Base38.{
  Base38Error, charset, index_from, char_value, chunk_chars, base38_encode, chunk_value,
  base38_decode,
}

is_found : ℕ → Bool
is_found v = elim (char_value (get_or charset v 0)) [ none ↦ false | some w ↦ w == v ]

found_table : all_below 38 is_found ≡ true
unfolding all_below is_found char_value index_from
found_table = refl

char_value-get_or : (v : ℕ) → v < 38 → char_value (get_or charset v 0) ≡ some v
unfolding is_found
char_value-get_or v h =
    let row : is_found v ≡ true = all_below_sound 38 is_found v found_table h in
    found (char_value (get_or charset v 0)) row
  where
    found : (o : Option ℕ) → elim o [ none ↦ false | some w ↦ w == v ] ≡ true → o ≡ some v
    found none e = cc
    found (some w) e = ground arith

pub chunk_value-chunk_chars :
    (count val : ℕ) → val < 2 ^ 32 → val < 38 ^ count → chunk_value (chunk_chars count val) ≡ ok val
unfolding chunk_value chunk_chars
chunk_value-chunk_chars zero val small h = ground arith
chunk_value-chunk_chars (suc count) val small h =
    let power : 38 ^ suc count ≡ 38 ^ count * 38 = pow-suc 38 count in
    let smaller : val / 38 < 38 ^ count = omega (arith, power, h) in
    rw
      (
        chunk_value-chunk_chars count (val / 38) (omega arith) smaller,
        char_value-get_or (val % 38) (omega arith),
        chunk_value,
      )
      (ground arith)

two_bytes : (a b : ℕ) → IsByte a → bit_or a (b * 2 ^ 8) ≡ a + b * 2 ^ 8
two_bytes a b h = bit_or-shift 8 a b h

three_bytes :
    (a b c : ℕ)
    → IsByte a
    → IsByte b
    → bit_or (bit_or a (b * 2 ^ 8)) (c * 2 ^ 16) ≡ a + b * 2 ^ 8 + c * 2 ^ 16
three_bytes a b c ha hb = rw (two_bytes a b ha) (bit_or-shift 16 (a + b * 2 ^ 8) c (omega arith))

abbrev decode_chunk : List ℕ → Result Base38Error ℕ → Result Base38Error (List ℕ)
decode_chunk rest r = r >>= λ val. base38_decode rest >>= λ more.
    ok (val % 2 ^ 8 ∷ val / 2 ^ 8 % 2 ^ 8 ∷ val / 2 ^ 16 % 2 ^ 8 ∷ more)

-- Any bytes, encoded in base38, decode to themselves.
pub base38_decode-encode :
    (bytes : List ℕ) → All IsByte bytes → base38_decode (base38_encode bytes) ≡ ok bytes
unfolding base38_encode base38_decode chunk_chars
base38_decode-encode [] h = refl
base38_decode-encode (a ∷ []) h =
    ap (λ r. r >>= λ val. ok (val % 2 ^ 8 ∷ []))
      (chunk_value-chunk_chars 2 a (omega arith) (omega arith))
    ∙ ground arith
base38_decode-encode (a ∷ b ∷ []) h =
    ap (λ val. base38_decode (chunk_chars 4 val)) (two_bytes a b h.0)
    ∙ ap (λ r. r >>= λ val. ok (val % 2 ^ 8 ∷ val / 2 ^ 8 % 2 ^ 8 ∷ []))
        (chunk_value-chunk_chars 4 (a + b * 2 ^ 8) (omega arith) (omega arith))
    ∙ ground arith
base38_decode-encode (a ∷ b ∷ c ∷ rest) h =
    let val : ℕ = a + b * 2 ^ 8 + c * 2 ^ 16 in
    ap (λ v. base38_decode (chunk_chars 5 v ++ base38_encode rest)) (three_bytes a b c h.0 h.1.0)
    ∙ ap (decode_chunk (base38_encode rest))
        (chunk_value-chunk_chars 5 val (omega arith) (omega arith))
    ∙ ap (λ r. r >>= λ more. ok (val % 2 ^ 8 ∷ val / 2 ^ 8 % 2 ^ 8 ∷ val / 2 ^ 16 % 2 ^ 8 ∷ more))
        (base38_decode-encode rest h.1.1.1)
    ∙ ground arith
