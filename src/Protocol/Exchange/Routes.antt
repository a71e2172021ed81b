-- ===== src/Protocol/Exchange/Routes.antt =====
-- internal/protocol/exchange.go: the keys of exchanges, and the map from them to pointers.
use matter_cli.Prelude.{
  ℕ, Bool, true, false, if◌then◌else◌, ◌==◌, ◌&&◌, Option, none, some, List, [], ◌∷◌, ◌≡◌, ◌≢◌,
  refl, sym, ap, ◌∙◌, ◌⊎◌, inl, inr, arith, Bool-cases,
}

pub record ExchangeKey : Type 0 where
  pub session_id : ℕ
  pub exchange_id : ℕ
  pub is_local : Bool

unfoldable pub same_bool : Bool → Bool → Bool
same_bool true b = b
same_bool false true = false
same_bool false false = true

unfoldable pub same_route : ExchangeKey → ExchangeKey → Bool
same_route k j =
    k.session_id == j.session_id
    && k.exchange_id == j.exchange_id
    && same_bool k.is_local j.is_local

-- The number of an object in place of a pointer to it.
abbrev pub RouteTable : Type 0
RouteTable = List (ExchangeKey × ℕ)

unfoldable pub find : ExchangeKey → RouteTable → Option ℕ
find key [] = none
find key ((at_key, object) ∷ routes) =
    if same_route at_key key then some object else find key routes

unfoldable pub put : ExchangeKey → ℕ → RouteTable → RouteTable
put key object [] = (key, object) ∷ []
put key object ((at_key, old) ∷ routes) =
    let rest = put key object routes in
    if same_route at_key key then (key, object) ∷ routes else (at_key, old) ∷ rest

unfoldable pub remove : ExchangeKey → RouteTable → RouteTable
remove key [] = []
remove key ((at_key, object) ∷ routes) =
    let rest = remove key routes in if same_route at_key key then rest else (at_key, object) ∷ rest

true≢false : true ≢ false
true≢false e = cc

same_bool_sound : (a b : Bool) → same_bool a b ≡ true → a ≡ b
unfolding same_bool
same_bool_sound true b h = sym h
same_bool_sound false true h = cc
same_bool_sound false false h = refl

same_bool_refl : (a : Bool) → same_bool a a ≡ true
unfolding same_bool
same_bool_refl true = refl
same_bool_refl false = refl

pub same_route_refl : (k : ExchangeKey) → same_route k k ≡ true
unfolding same_route
same_route_refl k = rw (same_bool_refl k.is_local) (ground arith)

same_parts :
    (k j : ExchangeKey)
    → same_route k j ≡ true
    → (k.session_id ≡ j.session_id) × (k.exchange_id ≡ j.exchange_id) × (k.is_local ≡ j.is_local)
unfolding same_route
same_parts k j h = elim (Bool-cases (same_bool k.is_local j.is_local)) [
  | inl y ↦ (ground arith, ground arith, same_bool_sound k.is_local j.is_local y)
  | inr n ↦ absurd (ground arith)
]

key_eq :
    (k j : ExchangeKey)
    → k.session_id ≡ j.session_id
    → k.exchange_id ≡ j.exchange_id
    → k.is_local ≡ j.is_local
    → k ≡ j
key_eq k j a b c =
    ap (λ x. record { session_id = x; exchange_id = k.exchange_id; is_local = k.is_local }) a
    ∙ ap (λ x. record { session_id = j.session_id; exchange_id = x; is_local = k.is_local }) b
    ∙ ap (λ x. record { session_id = j.session_id; exchange_id = j.exchange_id; is_local = x }) c

pub same_route_sound : (k j : ExchangeKey) → same_route k j ≡ true → k ≡ j
same_route_sound k j h = let (a, b, c) = same_parts k j h in key_eq k j a b c

-- A key that is not `k` but is `j` tells the two apart.
differs :
    (i k j : ExchangeKey) → same_route i k ≡ false → same_route i j ≡ true → same_route k j ≡ false
differs i k j n z = elim (Bool-cases (same_route k j)) [
  | inr w ↦ w
  | inl w ↦
      let same = same_route_sound i j z ∙ sym (same_route_sound k j w) in
      absurd (true≢false (sym (same_route_refl k) ∙ ap (λ x. same_route x k) (sym same) ∙ n))
]

find-put :
    (k j : ExchangeKey) (object : ℕ) (routes : RouteTable)
    → find j (put k object routes) ≡ (if same_route k j then some object else find j routes)
unfolding find put
find-put k j object [] = refl
find-put k j object ((at_key, old) ∷ routes) = elim (Bool-cases (same_route at_key k)) [
  | inl y ↦
      rw (put, y, same_route_sound at_key k y)
        (elim (Bool-cases (same_route k j)) [ inl z ↦ rw z refl | inr z ↦ rw z refl ])
  | inr n ↦
      rw (put, n)
        (elim (Bool-cases (same_route at_key j)) [
          | inl z ↦ rw (find, z, differs at_key k j n z) refl
          | inr z ↦ rw (find, z) (find-put k j object routes)
        ])
]

find-remove :
    (k j : ExchangeKey) (routes : RouteTable)
    → find j (remove k routes) ≡ (if same_route k j then none else find j routes)
unfolding find remove
find-remove k j [] = elim (Bool-cases (same_route k j)) [ inl y ↦ rw y refl | inr n ↦ rw n refl ]
find-remove k j ((at_key, object) ∷ routes) = elim (Bool-cases (same_route at_key k)) [
  | inl y ↦
      rw (remove, y)
        (find-remove k j routes
          ∙ rw (same_route_sound at_key k y)
              (elim (Bool-cases (same_route k j)) [ inl z ↦ rw z refl | inr z ↦ rw z refl ]))
  | inr n ↦
      rw (remove, n)
        (elim (Bool-cases (same_route at_key j)) [
          | inl z ↦ rw (find, z, differs at_key k j n z) refl
          | inr z ↦ rw (find, z) (find-remove k j routes)
        ])
]

-- An entry after a write or a deletion.
pub put-entry :
    (k j : ExchangeKey) (object other : ℕ) (routes : RouteTable)
    → find j (put k object routes) ≡ some other
    → ((k ≡ j) × (object ≡ other)) ⊎ (find j routes ≡ some other)
put-entry k j object other routes e = elim (Bool-cases (same_route k j)) [
  | inl y ↦ inl (same_route_sound k j y, cc (rw (find-put k j object routes, y) at e))
  | inr n ↦ inr (rw (find-put k j object routes, n) at e)
]

pub remove-entry :
    (k j : ExchangeKey) (other : ℕ) (routes : RouteTable)
    → find j (remove k routes) ≡ some other
    → (k ≢ j) × (find j routes ≡ some other)
remove-entry k j other routes e = elim (Bool-cases (same_route k j)) [
  | inl y ↦ absurd (cc (rw (find-remove k j routes, y) at e))
  | inr n ↦ (
    λ same. true≢false (sym (same_route_refl k) ∙ ap (λ x. same_route k x) same ∙ n),
    rw (find-remove k j routes, n) at e,
  )
]
