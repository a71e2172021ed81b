-- ===== src/Commissioning/Manual/RoundTrip.antt =====
-- Manual pairing codes of internal/commissioning/payload.go read back.
use matter_cli.Prelude.{
  ℕ, ◌+◌, ◌-◌, ◌*◌, ◌/◌, ◌%◌, ◌^◌, ◌≤◌, ◌<◌, ◌≡◌, refl, ap, ◌∙◌, true, false, not, ◌&&◌, ◌==◌, List,
  [], ◌∷◌, ◌++◌, length, get_or, length-append, append_assoc, All, All-append, bit_and, bit_or, ok,
  ◌>>=◌, arith, Bool-cases, inl, inr, ◌⊎◌,
}
use matter_cli.Commissioning.Verhoeff.{verhoeff_generate, verhoeff_validate}
use matter_cli.Commissioning.Verhoeff.Detection.{
  IsDigit, verhoeff_validate-generate, verhoeff_generate-lt,
}
use matter_cli.Commissioning.Payload.{
  SetupPayload, flow_standard, flow_custom, short_discriminator, validate_passcode,
}
use matter_cli.Commissioning.Manual.{
  decimal, manual_digits, manual_pairing_code, remove_all, short_payload, with_product,
  parse_digits, parse_manual_pairing_code,
}
use matter_cli.Commissioning.Manual.Parts.{
  IsDiallable, in_manual_code, AreChunks, chunks, AreParts, payload_of, short_payload-parts,
  first_digit, no_product, with_product-parts,
}
use matter_cli.Commissioning.Manual.Decimal.{
  decimal_in-step, decimal_in-end, decimal-IsDecimal, remove_all-digits, first_bad-digits,
}

decimal-one : (n : ℕ) → n < 10 → decimal 1 n ≡ (48 + n) ∷ []
unfolding decimal
decimal-one n h =
    decimal_in-step 9 0 n
    ∙ ap (λ q. q ++ (48 + n % 10) ∷ []) (decimal_in-end 9 (n / 10) (omega arith))
    ∙ ap (λ (d : ℕ). d ∷ []) (omega arith)

accept :
    (code : List ℕ) (q : SetupPayload)
    → All IsDigit code
    → (length code ≡ 11) ⊎ (length code ≡ 21)
    → verhoeff_validate code ≡ true
    → with_product code (short_payload code) ≡ ok q
    → validate_passcode q.passcode ≡ ok tt
    → parse_manual_pairing_code code ≡ ok q
unfolding parse_manual_pairing_code parse_digits
accept code q digits size valid product allowed =
    let whole : remove_all 32 (remove_all 45 code) ≡ code =
      ap (remove_all 32) (remove_all-digits 45 code (omega arith) digits)
      ∙ remove_all-digits 32 code (omega arith) digits in
    let sized : (not (length code == 11) && not (length code == 21)) ≡ false = ground arith in
    ap parse_digits whole
    ∙ rw (sized, first_bad-digits 0 code digits, valid, product, allowed, ◌>>=◌) refl

-- A code with its check digit.
checked :
    (code : List ℕ)
    → All IsDigit code
    → let full = code ++ decimal 1 (verhoeff_generate code) in
      All IsDigit full × (verhoeff_validate full ≡ true) × (length full ≡ length code + 1)
checked code h =
    let g : ℕ = verhoeff_generate code in
    let small : g < 10 = verhoeff_generate-lt code h in
    rw (decimal-one g small) (
      All-append IsDigit code ((48 + g) ∷ []) h (omega arith),
      verhoeff_validate-generate code h,
      length-append code ((48 + g) ∷ []),
    )

abbrev first_of : SetupPayload → ℕ → ℕ
first_of p present = bit_or (present * 2 ^ 2 % 2 ^ 8) (short_discriminator p / 2 ^ 2)

abbrev second_of : SetupPayload → ℕ
second_of p =
    bit_or (bit_and (short_discriminator p) 0x03 * 2 ^ 14 % 2 ^ 32) (bit_and p.passcode 0x3fff)

abbrev third_of : SetupPayload → ℕ
third_of p = bit_and (p.passcode / 2 ^ 14) 0x1fff

-- The ten digits before a product.
front : SetupPayload → ℕ → List ℕ
front p present =
    decimal 1 (first_of p present) ++ (decimal 5 (second_of p) ++ decimal 4 (third_of p))

module _ (p : SetupPayload) (v : IsDiallable p) (present : ℕ) (bit : present < 2) where
  c : AreChunks p present (first_of p present) (second_of p) (third_of p)
  c = chunks p present v bit

  ranges : (first_of p present < 8) × (second_of p < 2 ^ 16) × (third_of p < 2 ^ 13)
  ranges = (
    omega (arith, c.first, v.discriminator),
    omega (arith, c.second),
    omega (arith, c.third, v.passcode),
  )

  leading : (first_of p present < 4) ⊎ (1 ≤ present)
  leading = omega (arith, c.first, v.discriminator)

  parts :
      AreParts
        (first_of p present)
        (second_of p)
        (third_of p)
        (decimal 1 (first_of p present))
        (decimal 5 (second_of p))
        (decimal 4 (third_of p))
  parts = record {
    digit1 =
        decimal-IsDecimal 1 (first_of p present) (omega arith) (omega (arith, ranges.0))
          (omega (arith, ranges.0));
    chunk2 =
        decimal-IsDecimal 5 (second_of p) (omega arith) (omega (arith, ranges.1))
          (omega (arith, ranges.1));
    chunk3 =
        decimal-IsDecimal 4 (third_of p) (omega arith) (omega (arith, ranges.2))
          (omega (arith, ranges.2));
  }

  front-IsDigit : (All IsDigit (front p present)) × (length (front p present) ≡ 10)
  unfolding front
  front-IsDigit =
      let a = parts.digit1 in
      let b = parts.chunk2 in
      let d = parts.chunk3 in
      (
        All-append IsDigit (decimal 1 (first_of p present))
            (decimal 5 (second_of p) ++ decimal 4 (third_of p)) a.digits
            (All-append IsDigit (decimal 5 (second_of p)) (decimal 4 (third_of p)) b.digits
              d.digits),
        omega (
          arith,
          length-append (decimal 1 (first_of p present))
              (decimal 5 (second_of p) ++ decimal 4 (third_of p)),
          length-append (decimal 5 (second_of p)) (decimal 4 (third_of p)),
          a.size,
          b.size,
          d.size,
        ),
      )

  front_regroup :
      (rest : List ℕ)
      → front p present ++ rest
        ≡ decimal 1 (first_of p present)
          ++ (decimal 5 (second_of p) ++ (decimal 4 (third_of p) ++ rest))
  unfolding front
  front_regroup rest =
      append_assoc (decimal 1 (first_of p present))
        (decimal 5 (second_of p) ++ decimal 4 (third_of p)) rest
      ∙ ap (λ q. decimal 1 (first_of p present) ++ q)
          (append_assoc (decimal 5 (second_of p)) (decimal 4 (third_of p)) rest)

  front-first : (rest : List ℕ) → get_or (front p present ++ rest) 0 0 - 48 ≡ first_of p present
  front-first rest =
      ap (λ q. get_or q 0 0 - 48) (front_regroup rest)
      ∙ first_digit (first_of p present) (decimal 1 (first_of p present))
          (decimal 5 (second_of p) ++ (decimal 4 (third_of p) ++ rest)) parts.digit1

  front-payload :
      (rest : List ℕ)
      → short_payload (front p present ++ rest) ≡ record (in_manual_code p) {
        commissioning_flow = flow_standard;
        vendor_id = 0;
        product_id = 0;
      }
  unfolding payload_of in_manual_code
  front-payload rest =
      ap short_payload (front_regroup rest)
      ∙ short_payload-parts (first_of p present) (second_of p) (third_of p)
          (decimal 1 (first_of p present)) (decimal 5 (second_of p)) (decimal 4 (third_of p)) rest
          ranges.0 ranges.2 parts
      ∙ ground (arith, c.first, c.second, c.third, v.discriminator, v.passcode)

printed :
    (p : SetupPayload)
    → p.passcode < 2 ^ 27
    → manual_pairing_code p
      ≡ ok (manual_digits p ++ decimal 1 (verhoeff_generate (manual_digits p)))
unfolding manual_pairing_code
printed p h = ground arith

-- A code with digits that the parser takes for the payload.
parse_checked :
    (p : SetupPayload) (code : List ℕ)
    → IsDiallable p
    → manual_digits p ≡ code
    → All IsDigit code
    → (length code ≡ 10) ⊎ (length code ≡ 20)
    → ((check : List ℕ)
        → with_product (code ++ check) (short_payload (code ++ check)) ≡ ok (in_manual_code p))
    → (manual_pairing_code p >>= parse_manual_pairing_code) ≡ ok (in_manual_code p)
unfolding in_manual_code
parse_checked p code v made digits size read =
    let check : List ℕ = decimal 1 (verhoeff_generate code) in
    let (all, valid, longer) = checked code digits in
    let full : manual_pairing_code p ≡ ok (code ++ check) =
      printed p v.passcode ∙ ap (λ q. ok (q ++ decimal 1 (verhoeff_generate q))) made in
    let sized : (length (code ++ check) ≡ 11) ⊎ (length (code ++ check) ≡ 21) = elim size [
      | inl ten ↦ inl (omega (arith, longer, ten))
      | inr twenty ↦ inr (omega (arith, longer, twenty))
    ] in
    ap (λ r. r >>= parse_manual_pairing_code) full
    ∙ accept (code ++ check) (in_manual_code p) all sized valid (read check) v.allowed

digits_standard :
    (p : SetupPayload) → (p.commissioning_flow == flow_custom) ≡ false → manual_digits p ≡ front p 0
unfolding manual_digits front
digits_standard p off = rw (off, manual_digits) refl

product_digits : SetupPayload → List ℕ
product_digits p = decimal 5 p.vendor_id ++ decimal 5 p.product_id

digits_custom :
    (p : SetupPayload)
    → (p.commissioning_flow == flow_custom) ≡ true
    → manual_digits p ≡ front p 1 ++ product_digits p
unfolding manual_digits front product_digits
digits_custom p on = rw (on, manual_digits) refl

parse_standard :
    (p : SetupPayload)
    → IsDiallable p
    → (p.commissioning_flow == flow_custom) ≡ false
    → (manual_pairing_code p >>= parse_manual_pairing_code) ≡ ok (in_manual_code p)
unfolding in_manual_code
parse_standard p v off =
    let (digits, size) = front-IsDigit p v 0 (omega arith) in
    let small : first_of p 0 < 4 = elim (leading p v 0 (omega arith)) [
      | inl h ↦ h
      | inr h ↦ absurd (omega arith)
    ] in
    parse_checked p (front p 0) v (digits_standard p off) digits (inl size) (λ check.
      ap (with_product (front p 0 ++ check)) (front-payload p v 0 (omega arith) check)
      ∙ no_product (first_of p 0) (front p 0 ++ check) _ small
          (front-first p v 0 (omega arith) check)
      ∙ rw off refl)

parse_custom :
    (p : SetupPayload)
    → IsDiallable p
    → (p.commissioning_flow == flow_custom) ≡ true
    → (manual_pairing_code p >>= parse_manual_pairing_code) ≡ ok (in_manual_code p)
unfolding in_manual_code product_digits
parse_custom p v on =
    let (digits, size) = front-IsDigit p v 1 (omega arith) in
    let vendor =
      decimal-IsDecimal 5 p.vendor_id (omega arith) (omega (arith, v.vendor_id))
        (omega (arith, v.vendor_id)) in
    let product =
      decimal-IsDecimal 5 p.product_id (omega arith) (omega (arith, v.product_id))
        (omega (arith, v.product_id)) in
    let first = (c p v 1 (omega arith)).first in
    let low : 4 ≤ first_of p 1 = omega (arith, first) in
    let regroup : (check : List ℕ)
        → (front p 1 ++ product_digits p) ++ check
          ≡ front p 1 ++ (decimal 5 p.vendor_id ++ (decimal 5 p.product_id ++ check)) =
      λ check.
        append_assoc (front p 1) (product_digits p) check
        ∙ ap (λ q. front p 1 ++ q)
            (append_assoc (decimal 5 p.vendor_id) (decimal 5 p.product_id) check) in
    parse_checked p (front p 1 ++ product_digits p) v (digits_custom p on)
      (All-append IsDigit (front p 1) (product_digits p) digits (
        All-append IsDigit (decimal 5 p.vendor_id) (decimal 5 p.product_id) vendor.digits
          product.digits))
      (inr (
        omega (
          arith,
          length-append (front p 1) (product_digits p),
          length-append (decimal 5 p.vendor_id) (decimal 5 p.product_id),
          size,
          vendor.size,
          product.size,
        )))
      (λ check.
        ap (λ q. with_product q (short_payload q)) (regroup check)
        ∙ ap
            (with_product
              (front p 1 ++ (decimal 5 p.vendor_id ++ (decimal 5 p.product_id ++ check))))
            (front-payload p v 1 (omega arith)
              (decimal 5 p.vendor_id ++ (decimal 5 p.product_id ++ check)))
        ∙ with_product-parts (first_of p 1) p.vendor_id p.product_id (front p 1)
            (decimal 5 p.vendor_id) (decimal 5 p.product_id) check _ low
            (ranges p v 1 (omega arith)).0
            (front-first p v 1 (omega arith)
              (decimal 5 p.vendor_id ++ (decimal 5 p.product_id ++ check)))
            size vendor product v.vendor_id v.product_id
        ∙ rw on refl)

-- A payload with fields that fit and an allowed passcode has a manual pairing code, and the code is
-- parsed to what it says of the payload: the passcode, the upper 4 bits of the discriminator, and
-- in the custom flow the vendor and the product.
pub parse-manual_pairing_code :
    (p : SetupPayload)
    → IsDiallable p
    → (manual_pairing_code p >>= parse_manual_pairing_code) ≡ ok (in_manual_code p)
parse-manual_pairing_code p v = elim (Bool-cases (p.commissioning_flow == flow_custom)) [
  | inl on ↦ parse_custom p v on
  | inr off ↦ parse_standard p v off
]
