-- ===== src/Commissioning/Manual/Decimal.antt =====
-- Decimal numbers of internal/commissioning/payload.go, printed and read back.
use matter_cli.Prelude.{
  ℕ, zero, suc, ◌+◌, ◌-◌, ◌*◌, ◌/◌, ◌%◌, ◌^◌, ◌≤◌, ◌<◌, ◌≡◌, refl, ap, ◌∙◌, true, false, ◌&&◌, leb,
  ◌==◌, none, List, [], ◌∷◌, ◌++◌, length, length-append, All, All-append, arith,
}
use native.Mathlib.Nat.{pow-suc}
use matter_cli.Commissioning.Verhoeff.Detection.{IsDigit}
use matter_cli.Commissioning.Manual.{
  decimal_in, decimal, remove_all, first_bad, parse_decimal_from, parse_decimal,
}

-- A round that prints.
pub decimal_in-step :
    (rounds width n : ℕ)
    → decimal_in (suc rounds) (suc width) n ≡ decimal_in rounds width (n / 10) ++ (48 + n % 10) ∷ []
unfolding decimal_in
decimal_in-step rounds width n =
    let less : suc width - 1 ≡ width = omega arith in
    let test : (n == 0 && suc width == 0) ≡ false = ground arith in rw (test, less) refl

pub decimal_in-end : (rounds n : ℕ) → n ≡ 0 → decimal_in rounds 0 n ≡ []
unfolding decimal_in
decimal_in-end zero n e = refl
decimal_in-end (suc rounds) n e = rw e (ground arith)

length-decimal_in :
    (rounds width n : ℕ)
    → width ≤ rounds
    → n < 10 ^ width
    → length (decimal_in rounds width n) ≡ width
length-decimal_in rounds zero n h k = ap length (decimal_in-end rounds n (omega arith))
length-decimal_in zero (suc width) n h k = absurd (omega arith)
length-decimal_in (suc rounds) (suc width) n h k =
    ap length (decimal_in-step rounds width n)
    ∙ length-append (decimal_in rounds width (n / 10)) ((48 + n % 10) ∷ [])
    ∙ omega (
      arith,
      length-decimal_in rounds width (n / 10) (omega arith) (omega (arith, pow-suc 10 width)),
    )

decimal_in-IsDigit :
    (rounds width n : ℕ) → n < 10 ^ width → width ≤ rounds → All IsDigit (decimal_in rounds width n)
decimal_in-IsDigit rounds zero n k h = rw (decimal_in-end rounds n (omega arith)) tt
decimal_in-IsDigit zero (suc width) n k h = absurd (omega arith)
decimal_in-IsDigit (suc rounds) (suc width) n k h = rw (decimal_in-step rounds width n) (
    All-append IsDigit (decimal_in rounds width (n / 10)) ((48 + n % 10) ∷ [])
      (decimal_in-IsDigit rounds width (n / 10) (omega (arith, pow-suc 10 width)) (omega arith))
      (omega arith))

parse-snoc :
    (val : ℕ) (s : List ℕ) (c : ℕ)
    → parse_decimal_from val (s ++ c ∷ []) ≡ (parse_decimal_from val s * 10 + (c - 48)) % 2 ^ 32
unfolding parse_decimal_from
parse-snoc val [] c = refl
parse-snoc val (d ∷ s) c = parse-snoc ((val * 10 + (d - 48)) % 2 ^ 32) s c

parse-decimal_in :
    (rounds width n : ℕ)
    → width ≤ rounds
    → n < 10 ^ width
    → n < 2 ^ 32
    → parse_decimal_from 0 (decimal_in rounds width n) ≡ n
unfolding parse_decimal_from
parse-decimal_in rounds zero n h k small = rw (decimal_in-end rounds n (omega arith)) (omega arith)
parse-decimal_in zero (suc width) n h k small = absurd (omega arith)
parse-decimal_in (suc rounds) (suc width) n h k small =
    let ih : parse_decimal_from 0 (decimal_in rounds width (n / 10)) ≡ n / 10 =
      parse-decimal_in rounds width (n / 10) (omega arith) (omega (arith, pow-suc 10 width))
        (omega arith) in
    ap (parse_decimal_from 0) (decimal_in-step rounds width n)
    ∙ parse-snoc 0 (decimal_in rounds width (n / 10)) (48 + n % 10)
    ∙ rw ih (omega arith)

-- A number that fits the width, at most 9 digits, is printed in exactly that many digits.
pub record IsDecimal (width n : ℕ) (s : List ℕ) : Type 0 where
  pub size : length s ≡ width
  pub digits : All IsDigit s
  pub value : parse_decimal s ≡ n

pub decimal-IsDecimal :
    (width n : ℕ) → width ≤ 10 → n < 10 ^ width → n < 2 ^ 32 → IsDecimal width n (decimal width n)
unfolding decimal parse_decimal
decimal-IsDecimal width n h k small = record {
  size = length-decimal_in 10 width n h k;
  digits = decimal_in-IsDigit 10 width n k h;
  value = parse-decimal_in 10 width n h k small;
}

pub remove_all-digits : (char : ℕ) (s : List ℕ) → char < 48 → All IsDigit s → remove_all char s ≡ s
unfolding remove_all
remove_all-digits char [] h k = refl
remove_all-digits char (c ∷ s) h k =
    let kept : (c == char) ≡ false = ground arith in
    rw kept (ap (λ q. c ∷ q) (remove_all-digits char s h k.1))

pub first_bad-digits : (i : ℕ) (s : List ℕ) → All IsDigit s → first_bad i s ≡ none
unfolding first_bad
first_bad-digits i [] h = refl
first_bad-digits i (c ∷ s) h =
    let good : (leb 48 c && leb c 57) ≡ true = ground arith in
    rw good (first_bad-digits (i + 1) s h.1)
