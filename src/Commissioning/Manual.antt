-- ===== src/Commissioning/Manual.antt =====
-- internal/commissioning/payload.go: the manual pairing code, a text of digits.
pub mod Decimal
pub mod Panic
pub mod Parts
pub mod RoundTrip
use matter_cli.Prelude.{
  ℕ, zero, suc, ◌+◌, ◌-◌, ◌*◌, ◌/◌, ◌%◌, ◌^◌, Bool, true, false, not, ◌&&◌, ltb, leb, ◌==◌,
  if◌then◌else◌, Option, none, some, List, [], ◌∷◌, ◌++◌, length, get_or, take, drop, bit_and,
  bit_or, Result, ok, err, ◌>>=◌,
}
use matter_cli.Commissioning.Verhoeff.{verhoeff_generate, verhoeff_validate}
use matter_cli.Commissioning.Payload.{
  SetupPayload, PayloadError, passcode_too_large, wrong_length, not_a_digit, bad_check_digit,
  slice_out_of_range, flow_standard, flow_custom, short_discriminator, validate_passcode,
}

-- The decimal digits of `n`, at least `width` of them. Ten rounds print any uint32.
unfoldable pub decimal_in : ℕ → ℕ → ℕ → List ℕ
decimal_in zero width n = []
decimal_in (suc rounds) width n =
    let front = decimal_in rounds (width - 1) (n / 10) in
    if n == 0 && width == 0 then [] else front ++ (48 + n % 10) ∷ []

-- `fmt.Sprintf` with "%0wd", and with "%d" at width 1.
unfoldable pub decimal : ℕ → ℕ → List ℕ
decimal width n = decimal_in 10 width n

unfoldable pub manual_digits : SetupPayload → List ℕ
manual_digits p =
    let short = short_discriminator p in
    let present = if p.commissioning_flow == flow_custom then 1 else 0 in
    let digit1 = bit_or (present * 2 ^ 2 % 2 ^ 8) (short / 2 ^ 2) in
    let chunk2 = bit_or (bit_and short 0x03 * 2 ^ 14 % 2 ^ 32) (bit_and p.passcode 0x3fff) in
    let chunk3 = bit_and (p.passcode / 2 ^ 14) 0x1fff in
    let code = decimal 1 digit1 ++ (decimal 5 chunk2 ++ decimal 4 chunk3) in
    if present == 1 then code ++ (decimal 5 p.vendor_id ++ decimal 5 p.product_id) else code

unfoldable pub manual_pairing_code : SetupPayload → Result PayloadError (List ℕ)
manual_pairing_code p =
    if ltb 0x7ffffff p.passcode
    then err (passcode_too_large p.passcode)
    else (let code = manual_digits p in ok (code ++ decimal 1 (verhoeff_generate code)))

-- `strings.ReplaceAll` of one character by nothing.
unfoldable pub remove_all : ℕ → List ℕ → List ℕ
remove_all char [] = []
remove_all char (c ∷ cs) = if c == char then remove_all char cs else c ∷ remove_all char cs

-- The place of the first character that is no digit.
unfoldable pub first_bad : ℕ → List ℕ → Option ℕ
first_bad i [] = none
first_bad i (c ∷ cs) = if leb 48 c && leb c 57 then first_bad (i + 1) cs else some i

-- On uint32, from `val` on.
unfoldable pub parse_decimal_from : ℕ → List ℕ → ℕ
parse_decimal_from val [] = val
parse_decimal_from val (c ∷ cs) = parse_decimal_from ((val * 10 + (c - 48)) % 2 ^ 32) cs

unfoldable pub parse_decimal : List ℕ → ℕ
parse_decimal s = parse_decimal_from 0 s

-- `code[from:to]`, of a text that is long enough.
abbrev pub slice : ℕ → ℕ → List ℕ → List ℕ
slice from to code = take (to - from) (drop from code)

unfoldable pub short_payload : List ℕ → SetupPayload
short_payload code =
    let digit1 = get_or code 0 0 - 48 in
    let high = bit_and digit1 0x03 in
    let chunk2 = parse_decimal (slice 1 6 code) in
    let chunk3 = parse_decimal (slice 6 10 code) in
    let low = bit_and (chunk2 / 2 ^ 14) 0x03 % 2 ^ 8 in
    let short = bit_or (high * 2 ^ 2 % 2 ^ 8) low in
    record {
      version = 0;
      vendor_id = 0;
      product_id = 0;
      commissioning_flow = flow_standard;
      discovery_capabilities = 0;
      discriminator = short * 2 ^ 8 % 2 ^ 16;
      passcode = bit_or (chunk3 * 2 ^ 14 % 2 ^ 32) (bit_and chunk2 0x3fff);
    }

-- The product that a first digit with bit 2 announces; an 11-digit code has no room for it.
unfoldable pub with_product : List ℕ → SetupPayload → Result PayloadError SetupPayload
with_product code p =
    let present = bit_and ((get_or code 0 0 - 48) / 2 ^ 2) 0x01 in
    if not (present == 1)
    then ok p
    else if ltb (length code) 20
    then err slice_out_of_range
    else ok (record p {
      commissioning_flow = flow_custom;
      vendor_id = parse_decimal (slice 10 15 code) % 2 ^ 16;
      product_id = parse_decimal (slice 15 20 code) % 2 ^ 16;
    })

unfoldable pub parse_digits : List ℕ → Result PayloadError SetupPayload
parse_digits code =
    if not (length code == 11) && not (length code == 21)
    then err (wrong_length (length code))
    else elim (first_bad 0 code) [
      | some i ↦ err (not_a_digit i)
      | none ↦
          (if not (verhoeff_validate code)
            then err bad_check_digit
            else (with_product code (short_payload code) >>= λ p.
                validate_passcode p.passcode >>= λ _. ok p))
    ]

unfoldable pub parse_manual_pairing_code : List ℕ → Result PayloadError SetupPayload
parse_manual_pairing_code code = parse_digits (remove_all 32 (remove_all 45 code))
