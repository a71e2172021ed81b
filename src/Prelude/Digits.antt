-- ===== src/Prelude/Digits.antt =====
-- Masks, shifts and single bits of numbers of any size.
use matter_cli.Prelude.Tests.{◌==◌, if◌then◌else◌, ltb}
use Prim.Native.Nat.{
  ℕ, zero, suc, ◌+◌, ◌-◌, ◌*◌, ◌/◌, ◌%◌, ◌^◌, ◌≤◌, ◌<◌, min, max, bit_and, bit_or, digits,
  bit_and-bitwise, bit_or-bitwise,
}
use mathlib.Core.Path.{◌≡◌, refl, ap, sym}
use native.Mathlib.Omega.{arith}
use native.Mathlib.Nat.{pow-suc, div-add-mod, mod-lt, mod-eq_of_lt, mul-add-mod_self_left}

-- The digit at place `i`.
unfoldable pub digit : ℕ → ℕ → ℕ
digit zero b = b % 2
digit (suc i) b = digit i (b / 2)

module _ (z : ℕ → ℕ) (f : ℕ → ℕ → ℕ) where
  enough_fuel : (n m a b : ℕ) → a ≤ n → a ≤ m → digits z f n a b ≡ digits z f m a b
  enough_fuel zero zero a b p q = refl
  enough_fuel zero (suc m) zero b p q = refl
  enough_fuel zero (suc m) (suc a) b p q = absurd (omega arith)
  enough_fuel (suc n) zero zero b p q = refl
  enough_fuel (suc n) zero (suc a) b p q = absurd (omega arith)
  enough_fuel (suc n) (suc m) zero b p q = refl
  enough_fuel (suc n) (suc m) (suc a) b p q =
      omega (arith, enough_fuel n m (suc a / 2) (b / 2) (omega arith) (omega arith))

pub bit_and_step : (x y : ℕ) → bit_and x y ≡ bit_and (x / 2) (y / 2) * 2 + min (x % 2) (y % 2)
bit_and_step (suc x) y =
    let fuel =
      enough_fuel (λ z. zero) min x (suc x / 2) (suc x / 2) (y / 2) (omega arith) (omega arith) in
    omega (arith, fuel, bit_and-bitwise (suc x) y, bit_and-bitwise (suc x / 2) (y / 2))
bit_and_step zero y = omega (arith, bit_and-bitwise 0 y, bit_and-bitwise 0 (y / 2))

pub bit_or_step : (x y : ℕ) → bit_or x y ≡ bit_or (x / 2) (y / 2) * 2 + max (x % 2) (y % 2)
bit_or_step (suc x) y =
    let fuel =
      enough_fuel (λ z. z) max x (suc x / 2) (suc x / 2) (y / 2) (omega arith) (omega arith) in
    omega (arith, fuel, bit_or-bitwise (suc x) y, bit_or-bitwise (suc x / 2) (y / 2))
bit_or_step zero y = omega (arith, bit_or-bitwise 0 y, bit_or-bitwise 0 (y / 2))

bit_and-zero : (n a : ℕ) → a ≤ n → bit_and a 0 ≡ 0
bit_and-zero n zero h = refl
bit_and-zero zero (suc a) h = absurd (omega arith)
bit_and-zero (suc n) (suc a) h =
    omega (arith, bit_and_step (suc a) 0, bit_and-zero n (suc a / 2) (omega arith))

pub digit-le : (i b : ℕ) → digit i b ≤ 1
unfolding digit
digit-le zero b = omega arith
digit-le (suc i) b = digit-le i (b / 2)

two_pow : (d : ℕ) → (2 ^ suc d / 2 ≡ 2 ^ d) × (2 ^ suc d % 2 ≡ 0)
two_pow d = (omega (arith, pow-suc 2 d), omega (arith, pow-suc 2 d))

pub two_pow-pos : (d : ℕ) → 0 < 2 ^ d
two_pow-pos zero = omega arith
two_pow-pos (suc d) = omega (arith, pow-suc 2 d, two_pow-pos d)

-- A mask of one bit tests the digit at its place.
pub bit_and-pow : (d a : ℕ) → bit_and a (2 ^ d) ≡ digit d a * 2 ^ d
unfolding digit
bit_and-pow zero a = omega (arith, bit_and_step a 1, bit_and-zero (a / 2) (a / 2) (omega arith))
bit_and-pow (suc d) a =
    let halves = two_pow d in
    let low : min (a % 2) (2 ^ suc d % 2) ≡ 0 = omega arith in
    rw (bit_and_step a (2 ^ suc d), halves.0, low, bit_and-pow d (a / 2))
      (omega (arith, pow-suc 2 d, ap (λ (t : ℕ). digit d (a / 2) * t) (pow-suc 2 d)))

pub digit-bit_or : (i a b : ℕ) → digit i (bit_or a b) ≡ max (digit i a) (digit i b)
unfolding digit
digit-bit_or zero a b = omega (arith, bit_or_step a b)
digit-bit_or (suc i) a b =
    let halved : bit_or a b / 2 ≡ bit_or (a / 2) (b / 2) = omega (arith, bit_or_step a b) in
    rw halved (digit-bit_or i (a / 2) (b / 2))

pub digit-zero : (i : ℕ) → digit i 0 ≡ 0
unfolding digit
digit-zero zero = refl
digit-zero (suc i) = digit-zero i

-- The digits of a power of two.
pub digit-pow : (i d : ℕ) → digit i (2 ^ d) ≡ (if i == d then 1 else 0)
unfolding digit
digit-pow zero zero = refl
digit-pow zero (suc d) = ground (arith, (two_pow d).1)
digit-pow (suc i) zero = ground (arith, digit-zero i)
digit-pow (suc i) (suc d) = rw ((two_pow d).0) (ground (arith, digit-pow i d))

mod_half : (a p : ℕ) → 0 < p → (a % (p * 2) % 2 ≡ a % 2) × (a % (p * 2) / 2 ≡ a / 2 % p)
mod_half a p h =
    let q : ℕ = a / (p * 2) in
    let r : ℕ = a % (p * 2) in
    let whole : p * 2 * q + r ≡ a = div-add-mod a (p * 2) in
    let small : r < p * 2 = mod-lt a (omega arith) in
    let half : p * q + r / 2 ≡ a / 2 = omega (arith, whole) in
    (
      omega (arith, whole),
      sym (rw (← half, mul-add-mod_self_left p q (r / 2)) (mod-eq_of_lt (omega (arith, small)))),
    )

-- A shift to the left within `w` bits.
pub digit-mod : (w i a : ℕ) → i < w → digit i (a % 2 ^ w) ≡ digit i a
unfolding digit
digit-mod zero i a h = absurd (omega arith)
digit-mod (suc w) zero a h = rw (pow-suc 2 w) (mod_half a (2 ^ w) (two_pow-pos w)).0
digit-mod (suc w) (suc i) a h =
    rw (pow-suc 2 w, (mod_half a (2 ^ w) (two_pow-pos w)).1) (digit-mod w i (a / 2) (omega arith))

pub digit-shift : (s i a : ℕ) → digit i (a * 2 ^ s) ≡ (if ltb i s then 0 else digit (i - s) a)
unfolding digit
digit-shift zero i a = ground arith
digit-shift (suc s) zero a = ground (arith, ap (λ (t : ℕ). a * t) (pow-suc 2 s))
digit-shift (suc s) (suc i) a =
    let halved : a * 2 ^ suc s / 2 ≡ a * 2 ^ s =
      omega (arith, ap (λ (t : ℕ). a * t) (pow-suc 2 s)) in
    rw halved (ground (arith, digit-shift s i a))

-- An `|` with a number shifted past the other operand is a sum.
pub bit_or-shift : (k a b : ℕ) → a < 2 ^ k → bit_or a (b * 2 ^ k) ≡ a + b * 2 ^ k
bit_or-shift zero a b h =
    let nothing : a ≡ 0 = omega arith in rw nothing (omega (arith, bit_or-bitwise 0 (b * 2 ^ 0)))
bit_or-shift (suc k) a b h =
    let power : 2 ^ suc k ≡ 2 ^ k * 2 = pow-suc 2 k in
    let twice : b * 2 ^ suc k ≡ b * 2 ^ k * 2 = omega (arith, ap (λ (t : ℕ). b * t) power) in
    let half : b * 2 ^ suc k / 2 ≡ b * 2 ^ k = omega (arith, twice) in
    let joined : bit_or (a / 2) (b * 2 ^ suc k / 2) ≡ a / 2 + b * 2 ^ k =
      rw half (bit_or-shift k (a / 2) b (omega (arith, power))) in
    omega (arith, bit_or_step a (b * 2 ^ suc k), joined, twice)

bit_or_comm_below : (n a b : ℕ) → a ≤ n → b ≤ n → bit_or a b ≡ bit_or b a
bit_or_comm_below zero zero zero h k = refl
bit_or_comm_below zero zero (suc b) h k = absurd (omega arith)
bit_or_comm_below zero (suc a) b h k = absurd (omega arith)
bit_or_comm_below (suc n) a b h k = omega (
  arith,
  bit_or_step a b,
  bit_or_step b a,
  bit_or_comm_below n (a / 2) (b / 2) (omega arith) (omega arith),
)

pub bit_or_comm : (a b : ℕ) → bit_or a b ≡ bit_or b a
bit_or_comm a b = bit_or_comm_below (a + b) a b (omega arith) (omega arith)

-- A mask of `k` ones.
pub bit_and-mask : (k a : ℕ) → bit_and a (2 ^ k - 1) ≡ a % 2 ^ k
bit_and-mask zero a = omega (arith, bit_and-zero a a (omega arith))
bit_and-mask (suc k) a =
    let power : 2 ^ suc k ≡ 2 ^ k * 2 = pow-suc 2 k in
    let pos : 0 < 2 ^ k = two_pow-pos k in
    let half : (2 ^ suc k - 1) / 2 ≡ 2 ^ k - 1 = omega (arith, power, pos) in
    let odd : (2 ^ suc k - 1) % 2 ≡ 1 = omega (arith, power, pos) in
    let split = mod_half a (2 ^ k) pos in
    rw (bit_and_step a (2 ^ suc k - 1), half, odd, bit_and-mask k (a / 2), power)
      (omega (arith, split.0, split.1))

-- The number below a power of two, and the next digit.
pub mod_digit : (i v : ℕ) → v % 2 ^ suc i ≡ v % 2 ^ i + digit i v * 2 ^ i
unfolding digit
mod_digit zero v = omega arith
mod_digit (suc i) v =
    let upper = mod_half v (2 ^ suc i) (two_pow-pos (suc i)) in
    let lower = mod_half v (2 ^ i) (two_pow-pos i) in
    let ih : v / 2 % 2 ^ suc i ≡ v / 2 % 2 ^ i + digit i (v / 2) * 2 ^ i = mod_digit i (v / 2) in
    let p : 2 ^ suc i ≡ 2 ^ i * 2 = pow-suc 2 i in
    let q : 2 ^ suc (suc i) ≡ 2 ^ suc i * 2 = pow-suc 2 (suc i) in
    let d : ℕ = digit i (v / 2) in
    let product : d * 2 ^ suc i ≡ d * 2 ^ i * 2 = omega (arith, ap (λ (t : ℕ). d * t) p) in
    omega (
      arith,
      upper.0,
      upper.1,
      lower.0,
      lower.1,
      ih,
      product,
      ap (λ (t : ℕ). v % t) p,
      ap (λ (t : ℕ). v % t) q,
    )
