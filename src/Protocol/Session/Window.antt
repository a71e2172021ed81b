-- ===== src/Protocol/Session/Window.antt =====
-- The replay window of internal/protocol/session.go against the list of the counters that it has
-- accepted, newest first.
use Prim.Native.Nat.{max}
use matter_cli.Prelude.{
  ℕ, ◌-◌, ◌*◌, ◌%◌, ◌^◌, ◌≤◌, ◌<◌, ◌≡◌, refl, subst, sym, Bool, true, false, not, ◌&&◌, ◌||◌,
  if◌then◌else◌, ltb, leb, ◌==◌, List, [], ◌∷◌, bit_and, bit_or, Result, ok, err, arith, inl, inr,
  le_or_lt, lt→ltb, ge→ltb,
}
use matter_cli.Prelude.Digits.{
  digit, digit-le, digit-zero, digit-pow, digit-bit_or, digit-mod, digit-shift, bit_and-pow,
  two_pow-pos,
}
use matter_cli.Protocol.Session.{
  PeerMessageCounter, CounterError, too_old, duplicate, window_size, validate,
}

abbrev pub contains : ℕ → List ℕ → Bool
contains c [] = false
contains c (x ∷ xs) = c == x || contains c xs

abbrev pub maximum : List ℕ → ℕ
maximum [] = 0
maximum (x ∷ xs) = max x (maximum xs)

-- The specification: a first counter, a counter above all others, or one of the last 32 that was
-- not there before.
unfoldable pub acceptable : List ℕ → ℕ → Bool
acceptable [] c = true
acceptable (x ∷ xs) c =
    ltb (maximum (x ∷ xs)) c
    || (ltb (maximum (x ∷ xs) - c) window_size && not (contains c (x ∷ xs)))

-- What a counter state holds of the accepted counters `xs`.
abbrev pub HasDigits : ℕ → ℕ → List ℕ → Type 0
HasDigits bitmap m xs =
    (i : ℕ) → i < 32 → digit i bitmap ≡ (if leb i m && contains (m - i) xs then 1 else 0)

pub data Tracks (pc : PeerMessageCounter) : List ℕ → Type 0 where
  fresh : pc.initiated ≡ false → Tracks pc []
  after :
      (x : ℕ) (xs : List ℕ)
      → pc.initiated ≡ true
      → pc.max_seen ≡ maximum (x ∷ xs)
      → HasDigits pc.bitmap (maximum (x ∷ xs)) (x ∷ xs)
      → Tracks pc (x ∷ xs)

pub contains-le : (c : ℕ) (xs : List ℕ) → contains c xs ≡ true → c ≤ maximum xs
contains-le c [] h = cc
contains-le c (x ∷ xs) h = ground (arith, contains-le c xs)

first_digits : (c : ℕ) → HasDigits 1 c (c ∷ [])
first_digits c i h = ground (arith, digit-pow i 0)

at_top : (bitmap m k : ℕ) (xs : List ℕ) → m ≡ k → HasDigits bitmap m xs → HasDigits bitmap k xs
at_top bitmap m k xs e bits = subst (λ j. HasDigits bitmap j xs) e bits

abbrev raised : ℕ → ℕ → ℕ → ℕ
raised bitmap m c = bit_or (if leb 32 (c - m) then 0 else bitmap * 2 ^ (c - m) % 2 ^ 32) 1

-- The window moves up by `diff`.
raised_digits :
    (bitmap m c : ℕ) (xs : List ℕ)
    → HasDigits bitmap m xs
    → m < c
    → maximum xs ≤ m
    → HasDigits (raised bitmap m c) c (c ∷ xs)
raised_digits bitmap m c xs bits lt top i h = ground (
  arith,
  digit-bit_or i (if leb 32 (c - m) then 0 else bitmap * 2 ^ (c - m) % 2 ^ 32) 1,
  digit-zero i,
  digit-pow i 0,
  digit-mod 32 i (bitmap * 2 ^ (c - m)),
  digit-shift (c - m) i bitmap,
  bits (i - (c - m)),
  contains-le (c - i) xs,
)

-- One more counter inside the window.
marked_digits :
    (bitmap m c : ℕ) (xs : List ℕ)
    → HasDigits bitmap m xs
    → c ≤ m
    → m - c < 32
    → HasDigits (bit_or bitmap (2 ^ (m - c))) m (c ∷ xs)
marked_digits bitmap m c xs bits le near i h =
    ground
      (arith, digit-bit_or i bitmap (2 ^ (m - c)), digit-pow i (m - c), bits i, digit-le i bitmap)

-- The answer that the specification gives.
unfoldable pub answer : List ℕ → ℕ → Result CounterError (Unit {0})
answer xs c =
    if acceptable xs c
    then ok tt
    else if ltb (maximum xs - c) window_size
    then err (duplicate c)
    else err (too_old c (maximum xs))

-- The whole step, in terms of what the state tracks.
pub record Agrees (pc : PeerMessageCounter) (xs : List ℕ) (c : ℕ) : Type 0 where
  pub result : (validate pc c).0 ≡ answer xs c
  pub state : Tracks (validate pc c).1 (if acceptable xs c then c ∷ xs else xs)

lt→leb : (m c : ℕ) → m - c < 32 → leb window_size (m - c) ≡ false
lt→leb m c h = ground arith

abbrev tracking : ℕ → ℕ → PeerMessageCounter
tracking m bitmap = record { max_seen = m; initiated = true; bitmap = bitmap }

above_window :
    (m bitmap x : ℕ) (xs : List ℕ) (c : ℕ)
    → m ≡ maximum (x ∷ xs)
    → HasDigits bitmap m (x ∷ xs)
    → m < c
    → Agrees (tracking m bitmap) (x ∷ xs) c
above_window m bitmap x xs c top bits h =
    let fits : acceptable (x ∷ xs) c ≡ true = unfold acceptable in ground arith in
    let highest : c ≡ maximum (c ∷ x ∷ xs) = omega arith in
    record {
      result = unfold validate answer in ground (arith, fits);
      state =
          unfold validate in
          rw (lt→ltb m c h, fits)
            (after c (x ∷ xs) refl highest (
              at_top (raised bitmap m c) c (maximum (c ∷ x ∷ xs)) (c ∷ x ∷ xs) highest
                (raised_digits bitmap m c (x ∷ xs) bits h (omega arith))));
    }

below_window :
    (m bitmap x : ℕ) (xs : List ℕ) (c : ℕ)
    → m ≡ maximum (x ∷ xs)
    → HasDigits bitmap m (x ∷ xs)
    → c ≤ m
    → 32 ≤ m - c
    → Agrees (tracking m bitmap) (x ∷ xs) c
below_window m bitmap x xs c top bits le far =
    let refused : acceptable (x ∷ xs) c ≡ false = unfold acceptable in ground arith in
    record {
      result = unfold validate answer in ground (arith, refused);
      state =
          unfold validate in
          rw (refused, ge→ltb m c le, far_test)
            (after x xs refl top (at_top bitmap m (maximum (x ∷ xs)) (x ∷ xs) top bits));
    }
  where
    far_test : leb window_size (m - c) ≡ true
    far_test = ground arith

in_window :
    (m bitmap x : ℕ) (xs : List ℕ) (c : ℕ) (seen : Bool)
    → m ≡ maximum (x ∷ xs)
    → HasDigits bitmap m (x ∷ xs)
    → c ≤ m
    → m - c < 32
    → contains c (x ∷ xs) ≡ seen
    → Agrees (tracking m bitmap) (x ∷ xs) c
in_window m bitmap x xs c true top bits le near e =
    let refused : acceptable (x ∷ xs) c ≡ false = unfold acceptable in ground arith in
    let marked : bit_and bitmap (2 ^ (m - c)) ≡ 2 ^ (m - c) =
      rw (bit_and-pow (m - c) bitmap) (ground (arith, bits (m - c))) in
    let is_set : (bit_and bitmap (2 ^ (m - c)) == 0) ≡ false =
      ground (arith, marked, two_pow-pos (m - c)) in
    record {
      result =
          unfold validate answer in
          rw (ge→ltb m c le, lt→leb m c near, is_set) (ground (arith, refused));
      state =
          unfold validate in
          rw (refused, ge→ltb m c le, lt→leb m c near, is_set)
            (after x xs refl top (at_top bitmap m (maximum (x ∷ xs)) (x ∷ xs) top bits));
    }
in_window m bitmap x xs c false top bits le near e =
    let fits : acceptable (x ∷ xs) c ≡ true = unfold acceptable in ground arith in
    let marked : bit_and bitmap (2 ^ (m - c)) ≡ 0 =
      rw (bit_and-pow (m - c) bitmap) (ground (arith, bits (m - c))) in
    let is_clear : (bit_and bitmap (2 ^ (m - c)) == 0) ≡ true = ground (arith, marked) in
    let highest : m ≡ maximum (c ∷ x ∷ xs) = omega arith in
    record {
      result =
          unfold validate answer in
          rw (ge→ltb m c le, lt→leb m c near, is_clear) (ground (arith, fits));
      state =
          unfold validate in
          rw (fits, ge→ltb m c le, lt→leb m c near, is_clear)
            (after c (x ∷ xs) refl highest (
              at_top (bit_or bitmap (2 ^ (m - c))) m (maximum (c ∷ x ∷ xs)) (c ∷ x ∷ xs) highest
                (marked_digits bitmap m c (x ∷ xs) bits le near)));
    }

tracked :
    (m bitmap x : ℕ) (xs : List ℕ) (c : ℕ)
    → m ≡ maximum (x ∷ xs)
    → HasDigits bitmap m (x ∷ xs)
    → Agrees (tracking m bitmap) (x ∷ xs) c
tracked m bitmap x xs c top bits = elim (le_or_lt c m) [
  | inr h ↦ above_window m bitmap x xs c top bits h
  | inl h ↦ elim (le_or_lt 32 (m - c)) [
    | inl far ↦ below_window m bitmap x xs c top bits h far
    | inr near ↦ in_window m bitmap x xs c (contains c (x ∷ xs)) top bits h near refl
  ]
]

-- From a state that tracks the accepted counters `xs`, `validate` answers for every counter as the
-- specification does, errors included, and its new state tracks the counters accepted then.
pub validate-Agrees :
    (pc : PeerMessageCounter) (xs : List ℕ) (c : ℕ) → Tracks pc xs → Agrees pc xs c
validate-Agrees pc [] c (fresh off) = record {
  result = unfold validate answer acceptable in ground arith;
  state =
      unfold validate acceptable in
      rw off (
        after c [] refl (omega arith)
          (at_top 1 c (maximum (c ∷ [])) (c ∷ []) (omega arith) (first_digits c)));
}
validate-Agrees pc (x ∷ xs) c (after _ _ on top bits) =
    let shape : tracking pc.max_seen pc.bitmap ≡ pc = ground arith in
    subst (λ p. Agrees p (x ∷ xs) c) shape
      (tracked pc.max_seen pc.bitmap x xs c top
        (at_top pc.bitmap (maximum (x ∷ xs)) pc.max_seen (x ∷ xs) (sym top) bits))
