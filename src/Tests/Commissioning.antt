-- ===== src/Tests/Commissioning.antt =====
-- internal/commissioning/payload.go at concrete inputs.
use matter_cli.Prelude.{ℕ, ◌≡◌, ◌≢◌, refl, true, false, List, [], ◌∷◌, ◌++◌, ok, err, ◌>>=◌, arith}
use matter_cli.Commissioning.Base38.{
  invalid_character, base38_encode, base38_decode, chunk_value, char_value, index_from,
}
use matter_cli.Commissioning.Base38.RoundTrip.{base38_decode-encode}
use matter_cli.Commissioning.Payload.{
  SetupPayload, flow_custom, slice_out_of_range, validate_passcode, is_one_of, qr_code,
  parse_qr_code,
}
use matter_cli.Commissioning.Payload.QrCode.{IsPrintable, parse_qr_code-qr_code}
use matter_cli.Commissioning.Manual.{manual_pairing_code, parse_manual_pairing_code}
use matter_cli.Commissioning.Manual.Parts.{IsDiallable, in_manual_code}
use matter_cli.Commissioning.Manual.RoundTrip.{parse-manual_pairing_code}
use matter_cli.Commissioning.Manual.Panic.{parse_manual_pairing_code-panic}
use matter_cli.Commissioning.Network.{
  truncated, no_extended_pan_id, present_types, is_present, missing_types, report_missing,
  validate_thread_dataset, extract_loop, extract_extended_pan_id,
}
use matter_cli.Commissioning.Network.Dataset.{
  Entry, encode, pan_id_of, extract_extended_pan_id-validated,
}
use matter_cli.Commissioning.Verhoeff.{verhoeff_d, verhoeff_p, verhoeff_loop, verhoeff_validate}
use matter_cli.Commissioning.Verhoeff.Detection.{verhoeff_validate-replaced}

abbrev bytes : List ℕ
bytes = 255 ∷ 0 ∷ 18 ∷ 200 ∷ 3 ∷ []

base38_decode-encode_example : base38_decode (base38_encode bytes) ≡ ok bytes
base38_decode-encode_example = base38_decode-encode bytes (ground arith)

-- "0*" has a character that is not one of the 38.
refused : base38_decode (48 ∷ 42 ∷ []) ≡ err (invalid_character 42)
unfolding base38_decode chunk_value char_value index_from
refused = refl

-- "2363" is valid, and "2463" is not.
valid_code : verhoeff_validate ((50 ∷ []) ++ 51 ∷ (54 ∷ 51 ∷ [])) ≡ true
unfolding verhoeff_validate verhoeff_loop verhoeff_d verhoeff_p
valid_code = refl

verhoeff_validate-replaced_example : verhoeff_validate ((50 ∷ []) ++ 52 ∷ (54 ∷ 51 ∷ [])) ≡ false
verhoeff_validate-replaced_example =
    verhoeff_validate-replaced (50 ∷ []) (54 ∷ 51 ∷ []) 51 52 (ground arith) (ground arith)
      (omega arith) (omega arith) (omega arith) valid_code

abbrev payload : SetupPayload
payload = record {
  version = 0;
  vendor_id = 65521;
  product_id = 32768;
  commissioning_flow = flow_custom;
  discovery_capabilities = 2;
  discriminator = 3840;
  passcode = 20202021;
}

payload_allowed : validate_passcode payload.passcode ≡ ok tt
unfolding validate_passcode is_one_of
payload_allowed = refl

payload-IsPrintable : IsPrintable payload
payload-IsPrintable = record {
  version = omega arith;
  vendor_id = omega arith;
  product_id = omega arith;
  commissioning_flow = omega arith;
  discovery_capabilities = omega arith;
  discriminator = omega arith;
  passcode = omega arith;
  allowed = payload_allowed;
}

parse_qr_code-qr_code_example : (qr_code payload >>= parse_qr_code) ≡ ok payload
parse_qr_code-qr_code_example = parse_qr_code-qr_code payload payload-IsPrintable

payload-IsDiallable : IsDiallable payload
payload-IsDiallable = record {
  vendor_id = omega arith;
  product_id = omega arith;
  discriminator = omega arith;
  passcode = omega arith;
  allowed = payload_allowed;
}

parse-manual_pairing_code_example :
    (manual_pairing_code payload >>= parse_manual_pairing_code) ≡ ok (in_manual_code payload)
parse-manual_pairing_code_example = parse-manual_pairing_code payload payload-IsDiallable

-- "41234567897".
abbrev short_code : List ℕ
short_code = 52 ∷ 49 ∷ 50 ∷ 51 ∷ 52 ∷ 53 ∷ 54 ∷ 55 ∷ 56 ∷ 57 ∷ 55 ∷ []

short_code_valid : verhoeff_validate short_code ≡ true
unfolding verhoeff_validate verhoeff_loop verhoeff_d verhoeff_p
short_code_valid = refl

short_code_panics : parse_manual_pairing_code short_code ≡ err slice_out_of_range
short_code_panics =
    parse_manual_pairing_code-panic short_code (ground arith) refl (omega arith) (omega arith)
      short_code_valid

abbrev entries_but_pan_id : List Entry
entries_but_pan_id =
    (14, 0 ∷ 0 ∷ 0 ∷ 0 ∷ 0 ∷ 1 ∷ 0 ∷ 0 ∷ [])
    ∷ (0, 0 ∷ 0 ∷ 15 ∷ [])
    ∷ (5, 1 ∷ 2 ∷ 3 ∷ 4 ∷ 5 ∷ 6 ∷ 7 ∷ 8 ∷ 9 ∷ 10 ∷ 11 ∷ 12 ∷ 13 ∷ 14 ∷ 15 ∷ 16 ∷ [])
    ∷ (3, 79 ∷ 112 ∷ 101 ∷ 110 ∷ 84 ∷ 104 ∷ 114 ∷ 101 ∷ 97 ∷ 100 ∷ [])
    ∷ (1, 18 ∷ 52 ∷ [])
    ∷ []

abbrev entries : List Entry
entries = (2, 222 ∷ 173 ∷ 0 ∷ 190 ∷ 239 ∷ 0 ∷ 202 ∷ 254 ∷ []) ∷ entries_but_pan_id

entries_valid : validate_thread_dataset (encode entries) ≡ ok tt
unfolding validate_thread_dataset encode present_types is_present missing_types report_missing
entries_valid = refl

extract_extended_pan_id-validated_example :
    (extract_extended_pan_id (encode entries) ≡ pan_id_of entries)
    × (extract_extended_pan_id (encode entries) ≢ err no_extended_pan_id)
extract_extended_pan_id-validated_example = extract_extended_pan_id-validated entries entries_valid

-- The last entry announces 8 bytes and has one.
abbrev cut_short : List ℕ
cut_short = encode entries_but_pan_id ++ 2 ∷ 8 ∷ 222 ∷ []

cut_short_passes : validate_thread_dataset cut_short ≡ ok tt
unfolding validate_thread_dataset encode present_types is_present missing_types report_missing
cut_short_passes = refl

cut_short_fails : extract_extended_pan_id cut_short ≡ err (truncated 2 8)
unfolding extract_extended_pan_id extract_loop encode
cut_short_fails = refl
