-- ===== src/Prelude/Maps.antt =====
-- Go maps with numeric keys as association lists: a write replaces the entry of its key.
use matter_cli.Prelude.Tests.{◌==◌, if◌then◌else◌, Bool-cases, ==_iff, ==_no}
use matter_cli.Prelude.Lists.{length}
use Prim.Native.Nat.{ℕ, ◌+◌}
use mathlib.Core.Path.{◌≡◌, refl}
use mathlib.Core.Logic.{◌≢◌, ◌⊎◌, inl, inr}
use mathlib.Core.Option.{Option, none, some}
use mathlib.Core.List.{List, [], ◌∷◌}
use native.Mathlib.Omega.{arith}

abbrev pub Map {ℓ} : Type ℓ → Type ℓ
Map V = List (ℕ × V)

module _ {ℓ} {V : Type ℓ} where
  unfoldable pub lookup : ℕ → Map V → Option V
  lookup key [] = none
  lookup key ((at_key, value) ∷ entries) = if at_key == key then some value else lookup key entries

  unfoldable pub insert : ℕ → V → Map V → Map V
  insert key new [] = (key, new) ∷ []
  insert key new ((at_key, value) ∷ entries) =
      let rest = insert key new entries in
      if at_key == key then (key, new) ∷ entries else (at_key, value) ∷ rest

  unfoldable pub delete : ℕ → Map V → Map V
  delete key [] = []
  delete key ((at_key, value) ∷ entries) =
      let rest = delete key entries in if at_key == key then rest else (at_key, value) ∷ rest

module _ {ℓ} {V : Type ℓ} where
  pub lookup-insert :
      (written read : ℕ) (new : V) (entries : Map V)
      → lookup read (insert written new entries)
        ≡ (if written == read then some new else lookup read entries)
  unfolding lookup insert
  lookup-insert written read new [] = refl
  lookup-insert written read new (entry ∷ entries) =
      ground (arith, lookup-insert written read new entries)

  pub lookup-delete :
      (k j : ℕ) (m : Map V) → lookup j (delete k m) ≡ (if k == j then none else lookup j m)
  unfolding lookup delete
  lookup-delete k j [] = ground arith
  lookup-delete k j ((i, w) ∷ m) = ground (arith, lookup-delete k j m)

  pub length-insert_new :
      (k : ℕ) (v : V) (m : Map V) → lookup k m ≡ none → length (insert k v m) ≡ length m + 1
  unfolding lookup insert
  length-insert_new k v [] h = omega arith
  length-insert_new k v ((i, w) ∷ m) h = ground (arith, length-insert_new k v m)

module _ {ℓ} {V : Type ℓ} where
  -- An entry after a write is the one written, or one of before with another key.
  pub insert-entry :
      (k j : ℕ) (v w : V) (m : Map V)
      → lookup j (insert k v m) ≡ some w
      → ((k ≡ j) × (v ≡ w)) ⊎ ((k ≢ j) × (lookup j m ≡ some w))
  insert-entry k j v w m e = elim (Bool-cases (k == j)) [
    | inl y ↦ inl ((==_iff k j).0 y, cc (rw (lookup-insert k j v m, y) at e))
    | inr n ↦ inr (==_no k j n, rw (lookup-insert k j v m, n) at e)
  ]

  pub delete-entry :
      (k j : ℕ) (w : V) (m : Map V)
      → lookup j (delete k m) ≡ some w
      → (k ≢ j) × (lookup j m ≡ some w)
  delete-entry k j w m e = elim (Bool-cases (k == j)) [
    | inl y ↦ absurd (cc (rw (lookup-delete k j m, y) at e))
    | inr n ↦ (==_no k j n, rw (lookup-delete k j m, n) at e)
  ]

pub ruleset map_laws = (lookup-insert, lookup-delete)
