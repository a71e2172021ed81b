-- ===== src/Prelude/Le.antt =====
-- Go's encoding/binary.LittleEndian over byte lists, at any width.
use matter_cli.Prelude.Lists.{length, drop, All, drop-length_append}
use matter_cli.Prelude.Bits.{IsByte}
use Prim.Native.Nat.{ℕ, zero, suc, ◌+◌, ◌*◌, ◌/◌, ◌%◌, ◌^◌, ◌<◌}
use mathlib.Core.Path.{◌≡◌, refl, ap}
use mathlib.Core.List.{List, [], ◌∷◌, ◌++◌}
use native.Mathlib.Omega.{arith}

-- `PutUint16`, `PutUint32` and `PutUint64` are `put_le 2`, `put_le 4` and `put_le 8`.
abbrev pub put_le : ℕ → ℕ → List ℕ
put_le zero v = []
put_le (suc k) v = (v % 256) ∷ put_le k (v / 256)

-- `Uint16`, `Uint32` and `Uint64` read the first bytes; every caller has checked the length.
abbrev pub get_le : ℕ → List ℕ → ℕ
get_le zero bs = 0
get_le (suc k) [] = 0
get_le (suc k) (b ∷ bs) = b + 256 * get_le k bs

pub get_le-put_le : (k v : ℕ) (rest : List ℕ) → v < 256 ^ k → get_le k (put_le k v ++ rest) ≡ v
get_le-put_le zero v rest h = omega arith
get_le-put_le (suc k) v rest h = omega (arith, get_le-put_le k (v / 256) rest (omega arith))

pub length-put_le : (k v : ℕ) → length (put_le k v) ≡ k
length-put_le zero v = refl
length-put_le (suc k) v = ap suc (length-put_le k (v / 256))

pub put_le-IsByte : (k v : ℕ) → All IsByte (put_le k v)
put_le-IsByte zero v = tt
put_le-IsByte (suc k) v = (omega arith, put_le-IsByte k (v / 256))

pub drop-put_le : (k v : ℕ) (rest : List ℕ) → drop k (put_le k v ++ rest) ≡ rest
drop-put_le k v rest = drop-length_append k (put_le k v) rest (length-put_le k v)

-- A read of `k` bytes is below `256 ^ k`.
pub get_le-lt : (k : ℕ) (bs : List ℕ) → All IsByte bs → get_le k bs < 256 ^ k
get_le-lt zero bs h = omega arith
get_le-lt (suc k) [] h = omega (arith, get_le-lt k [] h)
get_le-lt (suc k) (b ∷ bs) h = omega (arith, get_le-lt k bs h.1)
