-- ===== src/Commissioning/Payload/QrCode.antt =====
-- QR codes of internal/commissioning/payload.go read back.
use matter_cli.Prelude.{
  ℕ, zero, suc, ◌+◌, ◌-◌, ◌/◌, ◌%◌, ◌^◌, ◌≤◌, ◌<◌, ◌≡◌, refl, ap, ◌∙◌, false, ltb, List, [], ◌∷◌,
  ◌++◌, length, get_or, replicate, All, ok, ◌>>=◌, arith,
}
use matter_cli.Prelude.Bits.{IsByte}
use matter_cli.Prelude.Digits.{digit, digit-zero}
use matter_cli.Commissioning.Packing.{write_bits, read_bits}
use matter_cli.Commissioning.Packing.Fields.{
  bit, bit-write_bits, length-write_bits, read_bits-eq, write_bits-IsByte,
}
use matter_cli.Commissioning.Base38.{base38_encode}
use matter_cli.Commissioning.Base38.RoundTrip.{base38_decode-encode}
use matter_cli.Commissioning.Payload.{
  SetupPayload, validate_passcode, qr_prefix, pack, unpack, qr_code, has_prefix, parse_bits,
  parse_qr_code,
}

-- Every field fits the bits that a QR code has for it, and the passcode is an allowed one.
pub record IsPrintable (p : SetupPayload) : Type 0 where
  pub version : p.version < 2 ^ 3
  pub vendor_id : p.vendor_id < 2 ^ 16
  pub product_id : p.product_id < 2 ^ 16
  pub commissioning_flow : p.commissioning_flow < 2 ^ 2
  pub discovery_capabilities : p.discovery_capabilities < 2 ^ 8
  pub discriminator : p.discriminator < 2 ^ 12
  pub passcode : p.passcode < 2 ^ 27
  pub allowed : validate_passcode p.passcode ≡ ok tt

-- A field: its place, its size and its value.
abbrev Field : Type 0
Field = ℕ × ℕ × ℕ

write_all : List Field → List ℕ → List ℕ
write_all [] buf = buf
write_all ((offset, len, v) ∷ fields) buf = write_all fields (write_bits buf offset len v)

-- Fields in order, from `start` on.
abbrev Placed : ℕ → List Field → Type 0
Placed start [] = Unit
Placed start ((offset, len, v) ∷ fields) =
    (start ≤ offset) × (offset + len ≤ 88) × Placed (offset + len) fields

length-write_all : (fields : List Field) (buf : List ℕ) → length (write_all fields buf) ≡ length buf
unfolding write_all
length-write_all [] buf = refl
length-write_all ((offset, len, v) ∷ fields) buf =
    length-write_all fields (write_bits buf offset len v) ∙ length-write_bits buf offset len v

write_all-IsByte :
    (fields : List Field) (buf : List ℕ) → All IsByte buf → All IsByte (write_all fields buf)
unfolding write_all
write_all-IsByte [] buf h = h
write_all-IsByte ((offset, len, v) ∷ fields) buf h =
    write_all-IsByte fields (write_bits buf offset len v) (write_bits-IsByte buf offset len v h)

-- Later fields leave the bits below them alone.
bit-write_all :
    (fields : List Field) (buf : List ℕ) (start k : ℕ)
    → length buf ≡ 11
    → Placed start fields
    → k < start
    → bit (write_all fields buf) k ≡ bit buf k
unfolding write_all
bit-write_all [] buf start k hl h hk = refl
bit-write_all ((offset, len, v) ∷ fields) buf start k hl (a, b, c) hk =
    bit-write_all fields (write_bits buf offset len v) (offset + len) k
      (length-write_bits buf offset len v ∙ hl) c (omega arith)
    ∙ ground (arith, bit-write_bits buf offset len v k (omega arith))

-- Bits from `start` on that are still zero.
abbrev IsBlankFrom : ℕ → List ℕ → Type 0
IsBlankFrom start buf = (k : ℕ) → start ≤ k → bit buf k ≡ 0

write-IsBlankFrom :
    (buf : List ℕ) (start offset len v : ℕ)
    → length buf ≡ 11
    → offset + len ≤ 88
    → start ≤ offset
    → IsBlankFrom start buf
    → IsBlankFrom (offset + len) (write_bits buf offset len v)
write-IsBlankFrom buf start offset len v hl fits at blank k hk =
    ground (arith, bit-write_bits buf offset len v k (omega arith), blank k (omega arith))

field_bit :
    (buf : List ℕ) (start offset len v j : ℕ)
    → length buf ≡ 11
    → offset + len ≤ 88
    → start ≤ offset
    → IsBlankFrom start buf
    → j < len
    → bit (write_bits buf offset len v) (offset + j) ≡ digit j v
field_bit buf start offset len v j hl fits at blank hj =
    let place : offset + j - offset ≡ j = omega arith in
    bit-write_bits buf offset len v (offset + j) (omega arith)
    ∙ ground (arith, blank (offset + j) (omega arith), ap (λ i. digit i v) place)

-- Each field is read back from the whole.
abbrev AllRead : List Field → List ℕ → Type 0
AllRead [] buf = Unit
AllRead ((offset, len, v) ∷ fields) buf =
    (v < 2 ^ len → read_bits buf offset len ≡ v) × AllRead fields buf

write_all-AllRead :
    (fields : List Field) (buf : List ℕ) (start : ℕ)
    → length buf ≡ 11
    → Placed start fields
    → IsBlankFrom start buf
    → AllRead fields (write_all fields buf)
unfolding write_all
write_all-AllRead [] buf start hl h blank = tt
write_all-AllRead ((offset, len, v) ∷ fields) buf start hl (a, b, c) blank =
    let next : List ℕ = write_bits buf offset len v in
    let whole : List ℕ = write_all fields next in
    let hn : length next ≡ 11 = length-write_bits buf offset len v ∙ hl in
    (
      (λ small. read_bits-eq whole offset len v small (λ j hj.
          bit-write_all fields next (offset + len) (offset + j) hn c (omega arith)
          ∙ field_bit buf start offset len v j hl b a blank hj)),
      write_all-AllRead fields next (offset + len) hn c
          (write-IsBlankFrom buf start offset len v hl b a blank),
    )

fields_of : SetupPayload → List Field
fields_of p =
    (0, 3, p.version)
    ∷ (3, 16, p.vendor_id)
    ∷ (19, 16, p.product_id)
    ∷ (35, 2, p.commissioning_flow)
    ∷ (37, 8, p.discovery_capabilities)
    ∷ (45, 12, p.discriminator)
    ∷ (57, 27, p.passcode)
    ∷ []

get_or-replicate : (n i : ℕ) → ◌≡◌ {A = ℕ} (get_or (replicate n 0) i 0) 0
get_or-replicate zero i = refl
get_or-replicate (suc n) zero = refl
get_or-replicate (suc n) (suc i) = get_or-replicate n i

blank : IsBlankFrom 0 (replicate 11 0)
blank k h = rw (get_or-replicate 11 (k / 8)) (digit-zero (k % 8))

pack-fields : (p : SetupPayload) → pack p ≡ write_all (fields_of p) (replicate 11 0)
unfolding pack write_all fields_of
pack-fields p = refl

unpack-pack : (p : SetupPayload) → IsPrintable p → unpack (pack p) ≡ p
unfolding unpack fields_of
unpack-pack p v =
    let reads : AllRead (fields_of p) (pack p) =
      rw (pack-fields p)
        (write_all-AllRead (fields_of p) (replicate 11 0) 0 refl (omega arith) blank) in
    let (r0, (r1, (r2, (r3, (r4, (r5, (r6, end))))))) = reads in
    ground (
      arith,
      r0 v.version,
      r1 v.vendor_id,
      r2 v.product_id,
      r3 v.commissioning_flow,
      r4 v.discovery_capabilities,
      r5 v.discriminator,
      r6 v.passcode,
    )

pack-IsByte : (p : SetupPayload) → All IsByte (pack p)
pack-IsByte p = rw (pack-fields p) (write_all-IsByte (fields_of p) (replicate 11 0) (ground arith))

length-pack : (p : SetupPayload) → length (pack p) ≡ 11
length-pack p = ap length (pack-fields p) ∙ length-write_all (fields_of p) (replicate 11 0)

printed : (p : SetupPayload) → IsPrintable p → qr_code p ≡ ok (qr_prefix ++ base38_encode (pack p))
unfolding qr_code
printed p v = ground arith

parsed :
    (p : SetupPayload) (bits : List ℕ)
    → length bits ≡ 11
    → unpack bits ≡ p
    → validate_passcode p.passcode ≡ ok tt
    → parse_bits (ok bits) ≡ ok p
unfolding parse_bits
parsed p bits size same allowed =
    let long : ltb (length bits) 11 ≡ false = ground arith in rw (long, same, allowed, ◌>>=◌)

-- A payload with fields that fit their bits and an allowed passcode has a QR code, and the code is
-- parsed to the same payload.
pub parse_qr_code-qr_code :
    (p : SetupPayload) → IsPrintable p → (qr_code p >>= parse_qr_code) ≡ ok p
unfolding parse_qr_code has_prefix
parse_qr_code-qr_code p v =
    ap (λ r. r >>= parse_qr_code) (printed p v)
    ∙ ap parse_bits (base38_decode-encode (pack p) (pack-IsByte p))
    ∙ parsed p (pack p) (length-pack p) (unpack-pack p v) v.allowed
