-- ===== src/Commissioning/Verhoeff/Detection.antt =====
-- What the check digit of internal/commissioning/payload.go accepts and what it catches.
use matter_cli.Prelude.{
  ℕ, ◌+◌, ◌-◌, ◌%◌, ◌<◌, ◌≤◌, ◌≡◌, ◌≢◌, refl, sym, ap, ◌∙◌, Bool, true, false, not, ◌||◌, ◌&&◌,
  ◌==◌, ltb, List, [], ◌∷◌, ◌++◌, All, All-append, append_assoc, length, arith, Bool-cases, inl,
  inr, ==_iff,
}
use matter_cli.Prelude.Bits.{all_below, all_below_sound}
use mathlib.Core.List.{reverse, reverse-append}
use matter_cli.Commissioning.Verhoeff.{
  verhoeff_d, verhoeff_inv, verhoeff_p, verhoeff_loop, verhoeff_generate, verhoeff_validate,
}

abbrev pub IsDigit : ℕ → Type 0
IsDigit char = (48 ≤ char) × (char < 58)

d_row : ℕ → ℕ → ℕ → Bool
d_row a b c =
    ltb (verhoeff_d a b) 10
    && ((verhoeff_d (verhoeff_d a b) c == verhoeff_d a (verhoeff_d b c))
        && ((a == b || not (verhoeff_d a c == verhoeff_d b c))
            && (a == b || not (verhoeff_d c a == verhoeff_d c b))))

d_table : all_below 10 (λ a. all_below 10 (λ b. all_below 10 (d_row a b))) ≡ true
unfolding all_below d_row verhoeff_d
d_table = refl

inv_row : ℕ → Bool
inv_row a =
    ltb (verhoeff_inv a) 10
    && ((verhoeff_d (verhoeff_inv a) a == 0)
        && ((verhoeff_d 0 a == a) && ((verhoeff_d a 0 == a) && (verhoeff_p 0 a == a))))

inv_table : all_below 10 inv_row ≡ true
unfolding all_below inv_row verhoeff_d verhoeff_inv verhoeff_p
inv_table = refl

p_row : ℕ → ℕ → ℕ → Bool
p_row i a b = ltb (verhoeff_p i a) 10 && (a == b || not (verhoeff_p i a == verhoeff_p i b))

p_table : all_below 8 (λ i. all_below 10 (λ a. all_below 10 (p_row i a))) ≡ true
unfolding all_below p_row verhoeff_p
p_table = refl

record IsGroup (a b c : ℕ) : Type 0 where
  pub closed : verhoeff_d a b < 10
  pub assoc : verhoeff_d (verhoeff_d a b) c ≡ verhoeff_d a (verhoeff_d b c)
  pub cancel_right : verhoeff_d a c ≡ verhoeff_d b c → a ≡ b
  pub cancel_left : verhoeff_d c a ≡ verhoeff_d c b → a ≡ b

group : (a b c : ℕ) → a < 10 → b < 10 → c < 10 → IsGroup a b c
unfolding d_row
group a b c ha hb hc =
    let row : d_row a b c ≡ true =
      all_below_sound 10 (d_row a b) c
        (all_below_sound 10 _ b (all_below_sound 10 _ a d_table ha) hb) hc in
    record {
      closed = ground arith;
      assoc = ground arith;
      cancel_right = λ e. ground arith;
      cancel_left = λ e. ground arith;
    }

permuted :
    (i a b : ℕ)
    → i < 8
    → a < 10
    → b < 10
    → (verhoeff_p i a < 10) × (verhoeff_p i a ≡ verhoeff_p i b → a ≡ b)
unfolding p_row
permuted i a b hi ha hb =
    let row : p_row i a b ≡ true =
      all_below_sound 10 (p_row i a) b
        (all_below_sound 10 _ a (all_below_sound 8 _ i p_table hi) ha) hb in
    (ground arith, λ e. ground arith)

record HasInverse (a : ℕ) : Type 0 where
  pub range : verhoeff_inv a < 10
  pub inverse : verhoeff_d (verhoeff_inv a) a ≡ 0
  pub left_unit : verhoeff_d 0 a ≡ a
  pub right_unit : verhoeff_d a 0 ≡ a
  pub first_place : verhoeff_p 0 a ≡ a

has_inverse : (a : ℕ) → a < 10 → HasInverse a
unfolding inv_row
has_inverse a h =
    let row : inv_row a ≡ true = all_below_sound 10 inv_row a inv_table h in
    record {
      range = ground arith;
      inverse = ground arith;
      left_unit = ground arith;
      right_unit = ground arith;
      first_place = ground arith;
    }

place_lt : (i char : ℕ) → IsDigit char → verhoeff_p (i % 8) (char - 48) < 10
place_lt i char h = (permuted (i % 8) (char - 48) 0 (omega arith) (omega arith) (omega arith)).0

loop_lt : (i c : ℕ) (s : List ℕ) → c < 10 → All IsDigit s → verhoeff_loop i c s < 10
unfolding verhoeff_loop
loop_lt i c [] hc h = hc
loop_lt i c (char ∷ s) hc h =
    loop_lt (i + 1) _ s (group c _ 0 hc (place_lt i char h.0) (omega arith)).closed h.1

-- A factor on the left of the start is one on the left of the result.
loop_factor :
    (i x c : ℕ) (s : List ℕ)
    → x < 10
    → c < 10
    → All IsDigit s
    → verhoeff_loop i (verhoeff_d x c) s ≡ verhoeff_d x (verhoeff_loop i c s)
unfolding verhoeff_loop
loop_factor i x c [] hx hc h = refl
loop_factor i x c (char ∷ s) hx hc h =
    let p : ℕ = verhoeff_p (i % 8) (char - 48) in
    let hp : p < 10 = place_lt i char h.0 in
    ap (λ k. verhoeff_loop (i + 1) k s) (group x c p hx hc hp).assoc
    ∙ loop_factor (i + 1) x (verhoeff_d c p) s hx (group c p 0 hc hp (omega arith)).closed h.1

loop_injective :
    (i a b : ℕ) (s : List ℕ)
    → a < 10
    → b < 10
    → All IsDigit s
    → verhoeff_loop i a s ≡ verhoeff_loop i b s
    → a ≡ b
unfolding verhoeff_loop
loop_injective i a b [] ha hb h e = e
loop_injective i a b (char ∷ s) ha hb h e =
    let hp = place_lt i char h.0 in
    (group a b _ ha hb hp).cancel_right (
      loop_injective (i + 1) _ _ s (group a _ 0 ha hp (omega arith)).closed
        (group b _ 0 hb hp (omega arith)).closed h.1 e)

loop-append :
    (i c : ℕ) (s t : List ℕ)
    → verhoeff_loop i c (s ++ t) ≡ verhoeff_loop (i + length s) (verhoeff_loop i c s) t
unfolding verhoeff_loop
loop-append i c [] t = ap (λ j. verhoeff_loop j c t) (omega arith)
loop-append i c (char ∷ s) t =
    let c' : ℕ = verhoeff_d c (verhoeff_p (i % 8) (char - 48)) in
    loop-append (i + 1) c' s t
    ∙ ap (λ j. verhoeff_loop j (verhoeff_loop (i + 1) c' s) t) (omega arith)

All-reverse : (s : List ℕ) → All IsDigit s → All IsDigit (reverse s)
All-reverse [] h = tt
All-reverse (char ∷ s) h =
    rw (reverse-append (char ∷ []) s)
      (All-append IsDigit (reverse s) (char ∷ []) (All-reverse s h.1) (h.0, tt))

-- A code of digits with its check digit behind it is valid.
pub verhoeff_validate-generate :
    (code : List ℕ)
    → All IsDigit code
    → verhoeff_validate (code ++ ((48 + verhoeff_generate code) ∷ [])) ≡ true
unfolding verhoeff_validate verhoeff_generate verhoeff_loop
verhoeff_validate-generate code h =
    let total : ℕ = verhoeff_loop 1 0 (reverse code) in
    let digits : All IsDigit (reverse code) = All-reverse code h in
    let small : total < 10 = loop_lt 1 0 (reverse code) (omega arith) digits in
    let inv = has_inverse total small in
    let unit = has_inverse (verhoeff_inv total) inv.range in
    let start : verhoeff_d 0 (verhoeff_p 0 (verhoeff_inv total))
        ≡ verhoeff_d (verhoeff_inv total) 0 =
      ap (verhoeff_d 0) unit.first_place ∙ unit.left_unit ∙ sym unit.right_unit in
    let result : verhoeff_loop 1 (verhoeff_d 0 (verhoeff_p 0 (verhoeff_inv total))) (reverse code)
        ≡ 0 =
      ap (λ c. verhoeff_loop 1 c (reverse code)) start
      ∙ loop_factor 1 (verhoeff_inv total) 0 (reverse code) inv.range (omega arith) digits
      ∙ inv.inverse in
    (==_iff _ 0).1 (
      ap (verhoeff_loop 0 0) (reverse-append code ((48 + verhoeff_inv total) ∷ []))
      ∙ ap (λ q. verhoeff_loop 1 (verhoeff_d 0 (verhoeff_p 0 q)) (reverse code)) (omega arith)
      ∙ result)

-- The characters around one place of a reversed code.
loop_around :
    (pre post : List ℕ) (char : ℕ)
    → verhoeff_loop 0 0 (reverse (pre ++ char ∷ post))
      ≡ verhoeff_loop
          (length (reverse post) + 1)
          (verhoeff_d
            (verhoeff_loop 0 0 (reverse post))
            (verhoeff_p (length (reverse post) % 8) (char - 48)))
          (reverse pre)
unfolding verhoeff_loop
loop_around pre post char =
    ap (verhoeff_loop 0 0) (
      reverse-append pre (char ∷ post)
      ∙ ap (λ q. q ++ reverse pre) (reverse-append (char ∷ []) post)
      ∙ append_assoc (reverse post) (char ∷ []) (reverse pre))
    ∙ loop-append 0 0 (reverse post) (char ∷ reverse pre)
    ∙ ap (λ j. verhoeff_loop j (verhoeff_loop 0 0 (reverse post)) (char ∷ reverse pre))
        (omega arith)

-- A valid code of digits is no longer valid when one of its digits, at any place, is replaced by
-- another one.
pub verhoeff_validate-replaced :
    (pre post : List ℕ) (right wrong : ℕ)
    → All IsDigit pre
    → All IsDigit post
    → IsDigit right
    → IsDigit wrong
    → right ≢ wrong
    → verhoeff_validate (pre ++ right ∷ post) ≡ true
    → verhoeff_validate (pre ++ wrong ∷ post) ≡ false
unfolding verhoeff_validate
verhoeff_validate-replaced pre post right wrong hpre hpost hr hw ne valid =
    elim (Bool-cases (verhoeff_loop 0 0 (reverse (pre ++ wrong ∷ post)) == 0)) [
      | inr e ↦ e
      | inl e ↦ absurd (ne (same e))
    ]
  where
    k : ℕ
    k = length (reverse post)

    c : ℕ
    c = verhoeff_loop 0 0 (reverse post)

    hc : c < 10
    hc = loop_lt 0 0 (reverse post) (omega arith) (All-reverse post hpost)

    place : (char : ℕ) → IsDigit char → verhoeff_d c (verhoeff_p (k % 8) (char - 48)) < 10
    place char h = (group c _ 0 hc (place_lt k char h) (omega arith)).closed

    same : (verhoeff_loop 0 0 (reverse (pre ++ wrong ∷ post)) == 0) ≡ true → right ≡ wrong
    same e =
        let zero_right : verhoeff_loop 0 0 (reverse (pre ++ right ∷ post)) ≡ 0 =
          (==_iff _ 0).0 valid in
        let zero_wrong : verhoeff_loop 0 0 (reverse (pre ++ wrong ∷ post)) ≡ 0 = (==_iff _ 0).0 e in
        let factors =
          loop_injective (k + 1) _ _ (reverse pre) (place right hr) (place wrong hw)
            (All-reverse pre hpre)
            (sym (loop_around pre post right)
              ∙ zero_right
              ∙ sym zero_wrong
              ∙ loop_around pre post wrong) in
        let places =
          (group _ _ c (place_lt k right hr) (place_lt k wrong hw) hc).cancel_left factors in
        let digit =
          (permuted (k % 8) (right - 48) (wrong - 48) (omega arith) (omega arith) (omega arith)).1
            places in
        omega arith

pub verhoeff_generate-lt : (code : List ℕ) → All IsDigit code → verhoeff_generate code < 10
unfolding verhoeff_generate
verhoeff_generate-lt code h =
    (has_inverse _ (loop_lt 1 0 (reverse code) (omega arith) (All-reverse code h))).range
