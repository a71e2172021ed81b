-- ===== src/Commissioning/Base38.antt =====
-- internal/commissioning/payload.go: base38, the text of a QR code, as a list of character codes.
pub mod RoundTrip
use matter_cli.Prelude.{
  ℕ, zero, suc, ◌+◌, ◌*◌, ◌/◌, ◌%◌, ◌^◌, ◌==◌, if◌then◌else◌, Option, none, some, List, [], ◌∷◌,
  ◌++◌, get_or, bit_or, Result, ok, err, ◌>>=◌,
}

pub data Base38Error : Type 0 where
  invalid_character : ℕ → Base38Error
  invalid_length : Base38Error

-- "0123456789ABCDEFGHIJKLMNOPQRSTUVWXYZ-."
abbrev pub charset : List ℕ
charset =
    48 ∷ 49 ∷ 50 ∷ 51 ∷ 52 ∷ 53 ∷ 54 ∷ 55 ∷ 56 ∷ 57 ∷ 65 ∷ 66 ∷ 67 ∷ 68 ∷ 69 ∷ 70 ∷ 71 ∷ 72 ∷ 73
    ∷ 74 ∷ 75 ∷ 76 ∷ 77 ∷ 78 ∷ 79 ∷ 80 ∷ 81 ∷ 82 ∷ 83 ∷ 84 ∷ 85 ∷ 86 ∷ 87 ∷ 88 ∷ 89 ∷ 90 ∷ 45 ∷ 46
    ∷ []

unfoldable pub index_from : ℕ → ℕ → List ℕ → Option ℕ
index_from i char [] = none
index_from i char (c ∷ cs) =
    let rest = index_from (i + 1) char cs in if c == char then some i else rest

-- The entry of `charMap`.
unfoldable pub char_value : ℕ → Option ℕ
char_value char = index_from 0 char charset

-- The `count` characters of a chunk, the lowest digit first.
unfoldable pub chunk_chars : ℕ → ℕ → List ℕ
chunk_chars zero val = []
chunk_chars (suc count) val = get_or charset (val % 38) 0 ∷ chunk_chars count (val / 38)

unfoldable pub base38_encode : List ℕ → List ℕ
base38_encode [] = []
base38_encode (a ∷ []) = chunk_chars 2 a
base38_encode (a ∷ b ∷ []) = chunk_chars 4 (bit_or a (b * 2 ^ 8))
base38_encode (a ∷ b ∷ c ∷ rest) =
    chunk_chars 5 (bit_or (bit_or a (b * 2 ^ 8)) (c * 2 ^ 16)) ++ base38_encode rest

-- The value of a chunk's characters on a uint32, from the last character to the first.
unfoldable pub chunk_value : List ℕ → Result Base38Error ℕ
chunk_value [] = ok 0
chunk_value (char ∷ chars) = chunk_value chars >>= λ val. elim (char_value char) [
  | none ↦ err (invalid_character char)
  | some v ↦ ok ((val * 38 + v) % 2 ^ 32)
]

unfoldable pub base38_decode : List ℕ → Result Base38Error (List ℕ)
base38_decode [] = ok []
base38_decode (a ∷ []) = err invalid_length
base38_decode (a ∷ b ∷ []) = chunk_value (a ∷ b ∷ []) >>= λ val. ok (val % 2 ^ 8 ∷ [])
base38_decode (a ∷ b ∷ c ∷ []) = chunk_value (a ∷ b ∷ []) >>= λ val. err invalid_length
base38_decode (a ∷ b ∷ c ∷ d ∷ []) =
    chunk_value (a ∷ b ∷ c ∷ d ∷ []) >>= λ val. ok (val % 2 ^ 8 ∷ val / 2 ^ 8 % 2 ^ 8 ∷ [])
base38_decode (a ∷ b ∷ c ∷ d ∷ e ∷ rest) = chunk_value (a ∷ b ∷ c ∷ d ∷ e ∷ []) >>= λ val.
    base38_decode rest >>= λ more.
    ok (val % 2 ^ 8 ∷ val / 2 ^ 8 % 2 ^ 8 ∷ val / 2 ^ 16 % 2 ^ 8 ∷ more)
