-- ===== src/Commissioning/Payload.antt =====
-- internal/commissioning/payload.go: the setup payload, its QR code and the check of a passcode.
-- A text is the list of its bytes.
pub mod QrCode
use matter_cli.Prelude.{
  ℕ, ◌+◌, ◌/◌, ◌%◌, ◌^◌, Bool, true, false, not, ◌||◌, ◌&&◌, ltb, ◌==◌, if◌then◌else◌, Option, none,
  some, List, [], ◌∷◌, ◌++◌, ◌-◌, length, get_or, drop, replicate, Result, ok, err, ◌>>=◌,
}
use matter_cli.Commissioning.Base38.{Base38Error, base38_encode, base38_decode}
use matter_cli.Commissioning.Packing.{write_bits, read_bits}

pub record SetupPayload : Type 0 where
  pub version : ℕ
  pub vendor_id : ℕ
  pub product_id : ℕ
  pub commissioning_flow : ℕ
  pub discovery_capabilities : ℕ
  pub discriminator : ℕ
  pub passcode : ℕ

abbrev pub flow_standard : ℕ
flow_standard = 0

abbrev pub flow_user_intent : ℕ
flow_user_intent = 1

abbrev pub flow_custom : ℕ
flow_custom = 2

-- `slice_out_of_range` is the panic of a slice expression.
pub data PayloadError : Type 0 where
  passcode_too_large : ℕ → PayloadError
  discriminator_too_large : ℕ → PayloadError
  missing_prefix : PayloadError
  bad_base38 : Base38Error → PayloadError
  passcode_zero : PayloadError
  passcode_not_allowed : ℕ → PayloadError
  wrong_length : ℕ → PayloadError
  not_a_digit : ℕ → PayloadError
  bad_check_digit : PayloadError
  slice_out_of_range : PayloadError

unfoldable pub short_discriminator : SetupPayload → ℕ
short_discriminator p = p.discriminator / 2 ^ 8 % 2 ^ 8

abbrev pub not_allowed : List ℕ
not_allowed =
    11111111 ∷ 22222222 ∷ 33333333 ∷ 44444444 ∷ 55555555 ∷ 66666666 ∷ 77777777 ∷ 88888888 ∷ 99999999
    ∷ 12345678 ∷ 87654321 ∷ []

unfoldable pub is_one_of : ℕ → List ℕ → Bool
is_one_of n [] = false
is_one_of n (x ∷ xs) = n == x || is_one_of n xs

unfoldable pub validate_passcode : ℕ → Result PayloadError (Unit {0})
validate_passcode passcode =
    if passcode == 0
    then err passcode_zero
    else if is_one_of passcode not_allowed
    then err (passcode_not_allowed passcode)
    else ok tt

-- The seven fields in eleven bytes.
unfoldable pub pack : SetupPayload → List ℕ
pack p =
    let b0 = replicate 11 0 in
    let b1 = write_bits b0 0 3 p.version in
    let b2 = write_bits b1 3 16 p.vendor_id in
    let b3 = write_bits b2 19 16 p.product_id in
    let b4 = write_bits b3 35 2 p.commissioning_flow in
    let b5 = write_bits b4 37 8 p.discovery_capabilities in
    let b6 = write_bits b5 45 12 p.discriminator in write_bits b6 57 27 p.passcode

-- "MT:"
abbrev pub qr_prefix : List ℕ
qr_prefix = 77 ∷ 84 ∷ 58 ∷ []

unfoldable pub qr_code : SetupPayload → Result PayloadError (List ℕ)
qr_code p =
    if ltb 0x7ffffff p.passcode
    then err (passcode_too_large p.passcode)
    else if ltb 0xfff p.discriminator
    then err (discriminator_too_large p.discriminator)
    else ok (qr_prefix ++ base38_encode (pack p))

unfoldable pub has_prefix : List ℕ → Bool
has_prefix (a ∷ b ∷ c ∷ rest) = a == 77 && (b == 84 && c == 58)
has_prefix _ = false

-- The conversions to the fields' types, as the source makes them.
unfoldable pub unpack : List ℕ → SetupPayload
unpack bits = record {
  version = read_bits bits 0 3 % 2 ^ 8;
  vendor_id = read_bits bits 3 16 % 2 ^ 16;
  product_id = read_bits bits 19 16 % 2 ^ 16;
  commissioning_flow = read_bits bits 35 2 % 2 ^ 8;
  discovery_capabilities = read_bits bits 37 8 % 2 ^ 8;
  discriminator = read_bits bits 45 12 % 2 ^ 16;
  passcode = read_bits bits 57 27 % 2 ^ 32;
}

unfoldable pub parse_bits : Result Base38Error (List ℕ) → Result PayloadError SetupPayload
parse_bits (err e) = err (bad_base38 e)
parse_bits (ok bits) =
    let bits' = if ltb (length bits) 11 then bits ++ replicate (11 - length bits) 0 else bits in
    let p = unpack bits' in validate_passcode p.passcode >>= λ _. ok p

unfoldable pub parse_qr_code : List ℕ → Result PayloadError SetupPayload
parse_qr_code code =
    if not (has_prefix code) then err missing_prefix else parse_bits (base38_decode (drop 3 code))
