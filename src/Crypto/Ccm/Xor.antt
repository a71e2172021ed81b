-- ===== src/Crypto/Ccm/Xor.antt =====
-- `xorBytes` and `ConstantTimeCompare` of internal/crypto/aesccm.go: sizes, bytes, and undoing.
use Prim.Native.Nat.{bit_xor}
use matter_cli.Prelude.{
  ℕ, suc, ◌≤◌, Bool, true, ◌&&◌, ltb, ◌==◌, ◌≡◌, refl, ap, List, [], ◌∷◌, length, All, arith,
}
use matter_cli.Prelude.Bits.{IsByte, all_below, all_below_sound}
use matter_cli.Crypto.Ccm.{xor_bytes, bytes_eq}

xor_row : ℕ → Bool
xor_row a = all_below 256 (λ b. (bit_xor (bit_xor a b) b == a) && ltb (bit_xor a b) 256)

xor_table : all_below 256 xor_row ≡ true
unfolding all_below xor_row
xor_table = refl

pub xor-undone :
    (a b : ℕ) → IsByte a → IsByte b → (bit_xor (bit_xor a b) b ≡ a) × IsByte (bit_xor a b)
unfolding xor_row
xor-undone a b ha hb =
    let row = all_below_sound 256 _ b (all_below_sound 256 xor_row a xor_table ha) hb in
    ground arith

pub xor-xor :
    (xs ks : List ℕ)
    → length xs ≤ length ks
    → All IsByte xs
    → All IsByte ks
    → xor_bytes (xor_bytes xs ks) ks ≡ xs
unfolding xor_bytes
xor-xor [] ks h bx bk = refl
xor-xor (x ∷ xs) [] h bx bk = absurd (omega arith)
xor-xor (x ∷ xs) (k ∷ ks) h bx bk =
    cc ((xor-undone x k bx.0 bk.0).0, xor-xor xs ks (omega arith) bx.1 bk.1)

pub length-xor : (xs ks : List ℕ) → length xs ≤ length ks → length (xor_bytes xs ks) ≡ length xs
unfolding xor_bytes
length-xor [] ks h = refl
length-xor (x ∷ xs) [] h = absurd (omega arith)
length-xor (x ∷ xs) (k ∷ ks) h = ap suc (length-xor xs ks (omega arith))

pub xor-IsByte : (xs ks : List ℕ) → All IsByte xs → All IsByte ks → All IsByte (xor_bytes xs ks)
unfolding xor_bytes
xor-IsByte [] ks bx bk = tt
xor-IsByte (x ∷ xs) [] bx bk = tt
xor-IsByte (x ∷ xs) (k ∷ ks) bx bk = ((xor-undone x k bx.0 bk.0).1, xor-IsByte xs ks bx.1 bk.1)

pub bytes_eq_refl : (xs : List ℕ) → bytes_eq xs xs ≡ true
unfolding bytes_eq
bytes_eq_refl [] = refl
bytes_eq_refl (x ∷ xs) = ground (arith, bytes_eq_refl xs)

pub bytes_eq→eq : (xs ys : List ℕ) → bytes_eq xs ys ≡ true → xs ≡ ys
unfolding bytes_eq
bytes_eq→eq [] [] h = refl
bytes_eq→eq [] (y ∷ ys) h = cc
bytes_eq→eq (x ∷ xs) [] h = cc
bytes_eq→eq (x ∷ xs) (y ∷ ys) h = ground (arith, bytes_eq→eq xs ys)
