-- ===== src/Commissioning/Packing/Fields.antt =====
-- The bits of a buffer that internal/commissioning/payload.go packs: what a write changes, and what
-- a read makes of them.
use matter_cli.Prelude.{
  ℕ, zero, suc, ◌+◌, ◌-◌, ◌*◌, ◌/◌, ◌%◌, ◌^◌, ◌≤◌, ◌<◌, ◌≡◌, refl, ap, ◌∙◌, Bool, true, not, ◌&&◌,
  ltb, leb, ◌==◌, if◌then◌else◌, List, [], ◌∷◌, get_or, length, All, bit_and, bit_or, arith,
  le_or_lt, Bool-cases, inl, inr,
}
use Prim.Native.Nat.{max}
use native.Mathlib.Nat.{mod-eq_of_lt, mod-lt}
use matter_cli.Prelude.Bits.{IsByte, all_below, all_below_sound}
use matter_cli.Prelude.Digits.{
  digit, digit-le, digit-bit_or, digit-pow, bit_and-pow, bit_or-shift, mod_digit, two_pow-pos,
}
use matter_cli.Commissioning.Packing.{
  or_byte, write_bits_from, write_bits, read_bits_from, read_bits,
}

abbrev pub bit : List ℕ → ℕ → ℕ
bit buf k = digit (k % 8) (get_or buf (k / 8) 0)

tested : (v i : ℕ) → (bit_and v (2 ^ i) == 0) ≡ (digit i v == 0)
tested v i = elim (le_or_lt (digit i v) 0) [
  | inl low ↦
      let nothing : digit i v ≡ 0 = omega arith in rw (bit_and-pow i v, nothing) (ground arith)
  | inr high ↦
      let one : digit i v ≡ 1 = omega (arith, digit-le i v) in
      rw (bit_and-pow i v, one) (ground (arith, two_pow-pos i))
]

get_or-or_byte :
    (buf : List ℕ) (i j mask : ℕ)
    → i < length buf
    → get_or (or_byte buf i mask) j 0
      ≡ (if i == j then bit_or (get_or buf j 0) mask else get_or buf j 0)
unfolding or_byte
get_or-or_byte [] i j mask h = absurd (omega arith)
get_or-or_byte (b ∷ buf) zero zero mask h = refl
get_or-or_byte (b ∷ buf) zero (suc j) mask h = ground arith
get_or-or_byte (b ∷ buf) (suc i) zero mask h = ground arith
get_or-or_byte (b ∷ buf) (suc i) (suc j) mask h = ground (arith, get_or-or_byte buf i j mask)

pub length-or_byte : (buf : List ℕ) (i mask : ℕ) → length (or_byte buf i mask) ≡ length buf
unfolding or_byte
length-or_byte [] i mask = refl
length-or_byte (b ∷ buf) zero mask = refl
length-or_byte (b ∷ buf) (suc i) mask = ap suc (length-or_byte buf i mask)

bit-or_byte :
    (buf : List ℕ) (n k : ℕ)
    → n / 8 < length buf
    → bit (or_byte buf (n / 8) (2 ^ (n % 8))) k ≡ (if n == k then 1 else bit buf k)
bit-or_byte buf n k h =
    ap (digit (k % 8)) (get_or-or_byte buf (n / 8) (k / 8) (2 ^ (n % 8)) h)
    ∙ ground (
      arith,
      digit-bit_or (k % 8) (get_or buf (k / 8) 0) (2 ^ (n % 8)),
      digit-pow (k % 8) (n % 8),
      digit-le (k % 8) (get_or buf (k / 8) 0),
    )

length-write_bits_from :
    (rounds i : ℕ) (buf : List ℕ) (offset v : ℕ)
    → length (write_bits_from rounds i buf offset v) ≡ length buf
unfolding write_bits_from
length-write_bits_from zero i buf offset v = refl
length-write_bits_from (suc rounds) i buf offset v =
    let next : List ℕ =
      if not (bit_and v (2 ^ i) == 0)
      then or_byte buf ((offset + i) / 8) (2 ^ ((offset + i) % 8))
      else buf in
    ground (
      arith,
      length-write_bits_from rounds (i + 1) next offset v,
      length-or_byte buf ((offset + i) / 8) (2 ^ ((offset + i) % 8)),
    )

-- One round of a write.
bit-round :
    (buf : List ℕ) (n v i k : ℕ)
    → n / 8 < length buf
    → bit (if not (bit_and v (2 ^ i) == 0) then or_byte buf (n / 8) (2 ^ (n % 8)) else buf) k
      ≡ (if n == k then max (bit buf k) (digit i v) else bit buf k)
bit-round buf n v i k h =
    rw (tested v i)
      (ground (arith, bit-or_byte buf n k h, digit-le i v, digit-le (k % 8) (get_or buf (k / 8) 0)))

bit-write_bits_from :
    (rounds i : ℕ) (buf : List ℕ) (offset v k : ℕ)
    → offset + i + rounds ≤ 8 * length buf
    → bit (write_bits_from rounds i buf offset v) k ≡ (
        if leb (offset + i) k && ltb k (offset + i + rounds)
        then max (bit buf k) (digit (k - offset) v)
        else bit buf k)
unfolding write_bits_from
bit-write_bits_from zero i buf offset v k h = ground arith
bit-write_bits_from (suc rounds) i buf offset v k h =
    let n : ℕ = offset + i in
    let next : List ℕ =
      if not (bit_and v (2 ^ i) == 0) then or_byte buf (n / 8) (2 ^ (n % 8)) else buf in
    let same : length next ≡ length buf =
      ground (arith, length-or_byte buf (n / 8) (2 ^ (n % 8))) in
    let now = bit-round buf n v i k (omega arith) in
    let later = bit-write_bits_from rounds (i + 1) next offset v k (omega (arith, same)) in
    later ∙ elim (Bool-cases (n == k)) [
      | inl here ↦
          let place : k - offset ≡ i = ground arith in
          let same_digit : digit (k - offset) v ≡ digit i v = ap (λ j. digit j v) place in
          ground (arith, now, same_digit)
      | inr other ↦ ground (arith, now)
    ]

-- A write sets the bits of its field that the value has, and leaves all others.
pub bit-write_bits :
    (buf : List ℕ) (offset len v k : ℕ)
    → offset + len ≤ 8 * length buf
    → bit (write_bits buf offset len v) k ≡ (
        if leb offset k && ltb k (offset + len)
        then max (bit buf k) (digit (k - offset) v)
        else bit buf k)
unfolding write_bits
bit-write_bits buf offset len v k h =
    bit-write_bits_from len 0 buf offset v k (omega arith) ∙ ground arith

pub length-write_bits :
    (buf : List ℕ) (offset len v : ℕ) → length (write_bits buf offset len v) ≡ length buf
unfolding write_bits
length-write_bits buf offset len v = length-write_bits_from len 0 buf offset v

-- One round of a read.
grow :
    (byte place v i : ℕ)
    → digit place byte ≡ digit i v
    → (if not (bit_and byte (2 ^ place) == 0) then bit_or (v % 2 ^ i) (2 ^ i) else v % 2 ^ i)
      ≡ v % 2 ^ (i + 1)
grow byte place v i same =
    let pos : 0 < 2 ^ i = two_pow-pos i in
    let joined : bit_or (v % 2 ^ i) (1 * 2 ^ i) ≡ v % 2 ^ i + 1 * 2 ^ i =
      bit_or-shift i (v % 2 ^ i) 1 (mod-lt v pos) in
    let once : 1 * 2 ^ i ≡ 2 ^ i = omega arith in
    let next : v % 2 ^ (i + 1) ≡ v % 2 ^ i + digit i v * 2 ^ i =
      ap (λ j. v % 2 ^ j) (omega arith) ∙ mod_digit i v in
    elim (le_or_lt (digit i v) 0) [
      | inl low ↦
          let nothing : digit i v ≡ 0 = omega arith in
          rw (tested byte place, same, next, nothing) (ground arith)
      | inr high ↦
          let one : digit i v ≡ 1 = omega (arith, digit-le i v) in
          rw (tested byte place, same, next, one)
            (ground (arith, joined, once, ap (bit_or (v % 2 ^ i)) once))
    ]

-- Where the bits of a field are those of `v`, a read gives `v`.
read_bits_from-eq :
    (rounds i : ℕ) (buf : List ℕ) (offset v : ℕ)
    → ((j : ℕ) → j < i + rounds → bit buf (offset + j) ≡ digit j v)
    → read_bits_from rounds i buf offset (v % 2 ^ i) ≡ v % 2 ^ (i + rounds)
unfolding read_bits_from
read_bits_from-eq zero i buf offset v h = ap (λ j. v % 2 ^ j) (omega arith)
read_bits_from-eq (suc rounds) i buf offset v h =
    let n : ℕ = offset + i in
    let byte : ℕ = get_or buf (n / 8) 0 in
    let this : digit (n % 8) byte ≡ digit i v = h i (omega arith) in
    let grown : (if not (bit_and byte (2 ^ (n % 8)) == 0)
          then bit_or (v % 2 ^ i) (2 ^ i)
          else v % 2 ^ i)
        ≡ v % 2 ^ (i + 1) =
      grow byte (n % 8) v i this in
    ap (λ q. read_bits_from rounds (i + 1) buf offset q) grown
    ∙ read_bits_from-eq rounds (i + 1) buf offset v (λ j hj. h j (omega arith))
    ∙ ap (λ j. v % 2 ^ j) (omega arith)

pub read_bits-eq :
    (buf : List ℕ) (offset len v : ℕ)
    → v < 2 ^ len
    → ((j : ℕ) → j < len → bit buf (offset + j) ≡ digit j v)
    → read_bits buf offset len ≡ v
unfolding read_bits
read_bits-eq buf offset len v small h =
    ap (λ q. read_bits_from len 0 buf offset q) (omega arith)
    ∙ read_bits_from-eq len 0 buf offset v (λ j hj. h j (omega arith))
    ∙ ap (λ j. v % 2 ^ j) (omega arith)
    ∙ mod-eq_of_lt small

or_row : ℕ → ℕ → Bool
or_row a j = ltb (bit_or a (2 ^ j)) 256

or_table : all_below 256 (λ a. all_below 8 (or_row a)) ≡ true
unfolding all_below or_row
or_table = refl

or_byte-IsByte :
    (buf : List ℕ) (i n : ℕ) → All IsByte buf → All IsByte (or_byte buf i (2 ^ (n % 8)))
unfolding or_byte or_row
or_byte-IsByte [] i n h = tt
or_byte-IsByte (b ∷ buf) zero n h =
    let row : or_row b (n % 8) ≡ true =
      all_below_sound 8 (or_row b) (n % 8) (all_below_sound 256 _ b or_table h.0) (omega arith) in
    (ground arith, h.1)
or_byte-IsByte (b ∷ buf) (suc i) n h = (h.0, or_byte-IsByte buf i n h.1)

write_bits_from-IsByte :
    (rounds i : ℕ) (buf : List ℕ) (offset v : ℕ)
    → All IsByte buf
    → All IsByte (write_bits_from rounds i buf offset v)
unfolding write_bits_from
write_bits_from-IsByte zero i buf offset v h = h
write_bits_from-IsByte (suc rounds) i buf offset v h = elim (Bool-cases (bit_and v (2 ^ i) == 0)) [
  | inl e ↦ rw e (write_bits_from-IsByte rounds (i + 1) buf offset v h)
  | inr e ↦ rw e (
      write_bits_from-IsByte rounds (i + 1)
        (or_byte buf ((offset + i) / 8) (2 ^ ((offset + i) % 8))) offset v
        (or_byte-IsByte buf ((offset + i) / 8) (offset + i) h))
]

pub write_bits-IsByte :
    (buf : List ℕ) (offset len v : ℕ) → All IsByte buf → All IsByte (write_bits buf offset len v)
unfolding write_bits
write_bits-IsByte buf offset len v h = write_bits_from-IsByte len 0 buf offset v h
