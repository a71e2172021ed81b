-- ===== src/Commissioning/Manual/Parts.antt =====
-- The parts of a manual pairing code of internal/commissioning/payload.go, and what the parser reads
-- in their places.
use matter_cli.Prelude.{
  ℕ, ◌+◌, ◌-◌, ◌*◌, ◌/◌, ◌%◌, ◌^◌, ◌≤◌, ◌<◌, ◌≡◌, refl, sym, ap, ◌∙◌, false, ltb, ◌==◌,
  if◌then◌else◌, List, [], ◌∷◌, ◌++◌, length, get_or, take, take-length_append, drop-length_append,
  length-append, append_assoc, bit_and, bit_or, ok, arith,
}
use matter_cli.Prelude.Digits.{bit_or-shift, bit_or_comm, bit_and-mask}
use matter_cli.Commissioning.Payload.{
  SetupPayload, flow_standard, flow_custom, short_discriminator, validate_passcode,
}
use matter_cli.Commissioning.Manual.{
  parse_decimal_from, parse_decimal, slice, short_payload, with_product,
}
use matter_cli.Commissioning.Manual.Decimal.{IsDecimal}

-- The fields fit the digits of a code, and the passcode is an allowed one.
pub record IsDiallable (p : SetupPayload) : Type 0 where
  pub vendor_id : p.vendor_id < 2 ^ 16
  pub product_id : p.product_id < 2 ^ 16
  pub discriminator : p.discriminator < 2 ^ 12
  pub passcode : p.passcode < 2 ^ 27
  pub allowed : validate_passcode p.passcode ≡ ok tt

-- What a manual code says of a payload: the upper 4 bits of the discriminator, and the product in
-- the custom flow only.
unfoldable pub in_manual_code : SetupPayload → SetupPayload
in_manual_code p =
    let custom = p.commissioning_flow == flow_custom in
    record {
      version = 0;
      vendor_id = if custom then p.vendor_id else 0;
      product_id = if custom then p.product_id else 0;
      commissioning_flow = if custom then flow_custom else flow_standard;
      discovery_capabilities = 0;
      discriminator = p.discriminator / 2 ^ 8 * 2 ^ 8;
      passcode = p.passcode;
    }

-- The numbers of the first ten digits.
pub record AreChunks (p : SetupPayload) (present n1 n2 n3 : ℕ) : Type 0 where
  pub first : n1 ≡ present * 4 + p.discriminator / 2 ^ 8 / 4
  pub second : n2 ≡ p.discriminator / 2 ^ 8 % 4 * 2 ^ 14 + p.passcode % 2 ^ 14
  pub third : n3 ≡ p.passcode / 2 ^ 14

or_high : (k a b : ℕ) → b < 2 ^ k → bit_or (a * 2 ^ k) b ≡ b + a * 2 ^ k
or_high k a b h = bit_or_comm (a * 2 ^ k) b ∙ bit_or-shift k b a h

pub chunks :
    (p : SetupPayload) (present : ℕ)
    → IsDiallable p
    → present < 2
    → AreChunks p present
        (bit_or (present * 2 ^ 2 % 2 ^ 8) (short_discriminator p / 2 ^ 2))
        (bit_or
          (bit_and (short_discriminator p) 0x03 * 2 ^ 14 % 2 ^ 32)
          (bit_and p.passcode 0x3fff))
        (bit_and (p.passcode / 2 ^ 14) 0x1fff)
unfolding short_discriminator
chunks p present v h =
    let short : ℕ = p.discriminator / 2 ^ 8 % 2 ^ 8 in
    let small : short < 16 = omega (arith, v.discriminator) in
    let whole : short ≡ p.discriminator / 2 ^ 8 = omega (arith, v.discriminator) in
    let m1 : bit_and short 0x03 ≡ short % 4 = bit_and-mask 2 short in
    let m2 : bit_and p.passcode 0x3fff ≡ p.passcode % 2 ^ 14 = bit_and-mask 14 p.passcode in
    let m3 : bit_and (p.passcode / 2 ^ 14) 0x1fff ≡ p.passcode / 2 ^ 14 % 2 ^ 13 =
      bit_and-mask 13 (p.passcode / 2 ^ 14) in
    let fit1 : present * 2 ^ 2 % 2 ^ 8 ≡ present * 2 ^ 2 = omega arith in
    let fit2 : short % 4 * 2 ^ 14 % 2 ^ 32 ≡ short % 4 * 2 ^ 14 = omega arith in
    record {
      first = rw (fit1, or_high 2 present (short / 2 ^ 2) (omega arith)) (omega (arith, whole));
      second =
          rw (m1, m2, fit2, or_high 14 (short % 4) (p.passcode % 2 ^ 14) (omega arith))
            (omega (arith, whole));
      third = rw m3 (omega (arith, v.passcode));
    }

pub slice-parts :
    (from to : ℕ) (pre mid post : List ℕ)
    → length pre ≡ from
    → length mid ≡ to - from
    → slice from to (pre ++ (mid ++ post)) ≡ mid
slice-parts from to pre mid post h k =
    ap (take (to - from)) (drop-length_append from pre (mid ++ post) h)
    ∙ take-length_append (to - from) mid post k

pub first_digit : (n : ℕ) (s rest : List ℕ) → IsDecimal 1 n s → get_or (s ++ rest) 0 0 - 48 ≡ n
unfolding parse_decimal parse_decimal_from
first_digit n [] rest h = absurd (omega (arith, h.size))
first_digit n (c ∷ []) rest h = omega (arith, h.value, h.digits.0)
first_digit n (c ∷ d ∷ s) rest h = absurd (omega (arith, h.size))

-- The payload that the numbers of the first ten digits stand for.
unfoldable pub payload_of : ℕ → ℕ → ℕ → SetupPayload
payload_of n1 n2 n3 = record {
  version = 0;
  vendor_id = 0;
  product_id = 0;
  commissioning_flow = flow_standard;
  discovery_capabilities = 0;
  discriminator = (n1 % 4 * 4 + n2 / 2 ^ 14 % 4) * 2 ^ 8;
  passcode = n3 * 2 ^ 14 + n2 % 2 ^ 14;
}

short_payload_of :
    (n1 n2 n3 : ℕ) (code : List ℕ)
    → n1 < 8
    → n3 < 2 ^ 13
    → get_or code 0 0 - 48 ≡ n1
    → parse_decimal (slice 1 6 code) ≡ n2
    → parse_decimal (slice 6 10 code) ≡ n3
    → short_payload code ≡ payload_of n1 n2 n3
unfolding short_payload payload_of
short_payload_of n1 n2 n3 code small h e1 e2 e3 =
    let m1 : bit_and n1 0x03 ≡ n1 % 4 = bit_and-mask 2 n1 in
    let m2 : bit_and (n2 / 2 ^ 14) 0x03 ≡ n2 / 2 ^ 14 % 4 = bit_and-mask 2 (n2 / 2 ^ 14) in
    let m3 : bit_and n2 0x3fff ≡ n2 % 2 ^ 14 = bit_and-mask 14 n2 in
    let fit1 : n1 % 4 * 2 ^ 2 % 2 ^ 8 ≡ n1 % 4 * 2 ^ 2 = omega arith in
    let fit2 : n2 / 2 ^ 14 % 4 % 2 ^ 8 ≡ n2 / 2 ^ 14 % 4 = omega arith in
    let fit3 : n3 * 2 ^ 14 % 2 ^ 32 ≡ n3 * 2 ^ 14 = omega arith in
    let short = or_high 2 (n1 % 4) (n2 / 2 ^ 14 % 4) (omega arith) in
    let pass = or_high 14 n3 (n2 % 2 ^ 14) (omega arith) in
    rw (e1, e2, e3, m1, m2, m3, fit1, fit2, fit3, short, pass) (ground arith)

-- The texts of a code, and the numbers that they stand for.
pub record AreParts (n1 n2 n3 : ℕ) (a b c : List ℕ) : Type 0 where
  pub digit1 : IsDecimal 1 n1 a
  pub chunk2 : IsDecimal 5 n2 b
  pub chunk3 : IsDecimal 4 n3 c

pub short_payload-parts :
    (n1 n2 n3 : ℕ) (a b c rest : List ℕ)
    → n1 < 8
    → n3 < 2 ^ 13
    → AreParts n1 n2 n3 a b c
    → short_payload (a ++ (b ++ (c ++ rest))) ≡ payload_of n1 n2 n3
short_payload-parts n1 n2 n3 a b c rest small h v =
    let second = slice-parts 1 6 a b (c ++ rest) v.digit1.size v.chunk2.size in
    let third =
      ap (slice 6 10) (sym (append_assoc a b (c ++ rest)))
      ∙ slice-parts 6 10 (a ++ b) c rest
          (length-append a b ∙ omega (arith, v.digit1.size, v.chunk2.size)) v.chunk3.size in
    short_payload_of n1 n2 n3 (a ++ (b ++ (c ++ rest))) small h
      (first_digit n1 a (b ++ (c ++ rest)) v.digit1) (ap parse_decimal second ∙ v.chunk2.value)
      (ap parse_decimal third ∙ v.chunk3.value)

pub no_product :
    (n1 : ℕ) (code : List ℕ) (p : SetupPayload)
    → n1 < 4
    → get_or code 0 0 - 48 ≡ n1
    → with_product code p ≡ ok p
unfolding with_product
no_product n1 code p h e =
    let m : bit_and (n1 / 2 ^ 2) 0x01 ≡ n1 / 2 ^ 2 % 2 = bit_and-mask 1 (n1 / 2 ^ 2) in
    let off : n1 / 2 ^ 2 % 2 ≡ 0 = omega arith in rw (e, m, off) refl

has_product :
    (n1 : ℕ) (code : List ℕ)
    → 4 ≤ n1
    → n1 < 8
    → get_or code 0 0 - 48 ≡ n1
    → bit_and ((get_or code 0 0 - 48) / 2 ^ 2) 0x01 ≡ 1
has_product n1 code h k e =
    let m : bit_and (n1 / 2 ^ 2) 0x01 ≡ n1 / 2 ^ 2 % 2 = bit_and-mask 1 (n1 / 2 ^ 2) in
    rw (e, m) (omega arith)

-- Ten digits, the product, and the check digit.
pub with_product-parts :
    (n1 vendor product : ℕ) (front v w check : List ℕ) (p : SetupPayload)
    → 4 ≤ n1
    → n1 < 8
    → get_or (front ++ (v ++ (w ++ check))) 0 0 - 48 ≡ n1
    → length front ≡ 10
    → IsDecimal 5 vendor v
    → IsDecimal 5 product w
    → vendor < 2 ^ 16
    → product < 2 ^ 16
    → with_product (front ++ (v ++ (w ++ check))) p
      ≡ ok (record p { commissioning_flow = flow_custom; vendor_id = vendor; product_id = product })
unfolding with_product
with_product-parts n1 vendor product front v w check p h k e size hv hw sv sw =
    let code : List ℕ = front ++ (v ++ (w ++ check)) in
    let on : bit_and ((get_or code 0 0 - 48) / 2 ^ 2) 0x01 ≡ 1 = has_product n1 code h k e in
    let long : ltb (length code) 20 ≡ false = ground (
      arith,
      length-append front (v ++ (w ++ check)),
      length-append v (w ++ check),
      length-append w check,
      hv.size,
      hw.size,
    ) in
    let s1 : slice 10 15 code ≡ v = slice-parts 10 15 front v (w ++ check) size hv.size in
    let s2 : slice 15 20 code ≡ w =
      ap (slice 15 20) (sym (append_assoc front v (w ++ check)))
      ∙ slice-parts 15 20 (front ++ v) w check
          (length-append front v ∙ omega (arith, size, hv.size)) hw.size in
    let n2 : parse_decimal (slice 10 15 code) ≡ vendor = ap parse_decimal s1 ∙ hv.value in
    let n3 : parse_decimal (slice 15 20 code) ≡ product = ap parse_decimal s2 ∙ hw.value in
    rw (on, long, n2, n3) (ground arith)
