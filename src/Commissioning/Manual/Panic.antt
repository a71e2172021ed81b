-- ===== src/Commissioning/Manual/Panic.antt =====
-- An 11-digit code that announces a product, in internal/commissioning/payload.go.
use matter_cli.Prelude.{
  ℕ, ◌-◌, ◌/◌, ◌%◌, ◌^◌, ◌≤◌, ◌≡◌, ◌∙◌, refl, ap, true, false, not, ◌&&◌, ltb, ◌==◌, List, length,
  get_or, All, bit_and, err, ◌>>=◌, arith,
}
use matter_cli.Prelude.Digits.{bit_and-mask}
use matter_cli.Commissioning.Verhoeff.{verhoeff_validate}
use matter_cli.Commissioning.Verhoeff.Detection.{IsDigit}
use matter_cli.Commissioning.Payload.{slice_out_of_range}
use matter_cli.Commissioning.Manual.{
  remove_all, with_product, short_payload, parse_digits, parse_manual_pairing_code,
}
use matter_cli.Commissioning.Manual.Decimal.{remove_all-digits, first_bad-digits}

no_room :
    (code : List ℕ)
    → length code ≡ 11
    → 52 ≤ get_or code 0 0
    → get_or code 0 0 ≤ 55
    → with_product code (short_payload code) ≡ err slice_out_of_range
unfolding with_product
no_room code size low high =
    let n : ℕ = (get_or code 0 0 - 48) / 2 ^ 2 in
    let mask : bit_and n 0x01 ≡ n % 2 = bit_and-mask 1 n in
    let on : bit_and n 0x01 ≡ 1 = omega (arith, mask) in
    let short : ltb (length code) 20 ≡ true = ground arith in rw (on, short) refl

-- Every code of 11 digits that starts with 4, 5, 6 or 7 and has a valid check digit makes the parser
-- slice past the end of the text.
pub parse_manual_pairing_code-panic :
    (code : List ℕ)
    → All IsDigit code
    → length code ≡ 11
    → 52 ≤ get_or code 0 0
    → get_or code 0 0 ≤ 55
    → verhoeff_validate code ≡ true
    → parse_manual_pairing_code code ≡ err slice_out_of_range
unfolding parse_manual_pairing_code parse_digits
parse_manual_pairing_code-panic code digits size low high valid =
    let sized : (not (length code == 11) && not (length code == 21)) ≡ false = ground arith in
    ap (λ q. parse_digits (remove_all 32 q)) (remove_all-digits 45 code (omega arith) digits)
    ∙ ap parse_digits (remove_all-digits 32 code (omega arith) digits)
    ∙ rw (sized, first_bad-digits 0 code digits, valid, no_room code size low high, ◌>>=◌) refl
