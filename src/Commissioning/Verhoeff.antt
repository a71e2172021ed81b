-- ===== src/Commissioning/Verhoeff.antt =====
-- internal/commissioning/payload.go: the Verhoeff check digit of a manual pairing code.
pub mod Detection
use matter_cli.Prelude.{ℕ, ◌+◌, ◌-◌, ◌%◌, ◌==◌, Bool, List, [], ◌∷◌, get_or}
use mathlib.Core.List.{reverse}

abbrev table_d : List (List ℕ)
table_d =
    (0 ∷ 1 ∷ 2 ∷ 3 ∷ 4 ∷ 5 ∷ 6 ∷ 7 ∷ 8 ∷ 9 ∷ [])
    ∷ (1 ∷ 2 ∷ 3 ∷ 4 ∷ 0 ∷ 6 ∷ 7 ∷ 8 ∷ 9 ∷ 5 ∷ [])
    ∷ (2 ∷ 3 ∷ 4 ∷ 0 ∷ 1 ∷ 7 ∷ 8 ∷ 9 ∷ 5 ∷ 6 ∷ [])
    ∷ (3 ∷ 4 ∷ 0 ∷ 1 ∷ 2 ∷ 8 ∷ 9 ∷ 5 ∷ 6 ∷ 7 ∷ [])
    ∷ (4 ∷ 0 ∷ 1 ∷ 2 ∷ 3 ∷ 9 ∷ 5 ∷ 6 ∷ 7 ∷ 8 ∷ [])
    ∷ (5 ∷ 9 ∷ 8 ∷ 7 ∷ 6 ∷ 0 ∷ 4 ∷ 3 ∷ 2 ∷ 1 ∷ [])
    ∷ (6 ∷ 5 ∷ 9 ∷ 8 ∷ 7 ∷ 1 ∷ 0 ∷ 4 ∷ 3 ∷ 2 ∷ [])
    ∷ (7 ∷ 6 ∷ 5 ∷ 9 ∷ 8 ∷ 2 ∷ 1 ∷ 0 ∷ 4 ∷ 3 ∷ [])
    ∷ (8 ∷ 7 ∷ 6 ∷ 5 ∷ 9 ∷ 3 ∷ 2 ∷ 1 ∷ 0 ∷ 4 ∷ [])
    ∷ (9 ∷ 8 ∷ 7 ∷ 6 ∷ 5 ∷ 4 ∷ 3 ∷ 2 ∷ 1 ∷ 0 ∷ [])
    ∷ []

abbrev table_inv : List ℕ
table_inv = 0 ∷ 4 ∷ 3 ∷ 2 ∷ 1 ∷ 5 ∷ 6 ∷ 7 ∷ 8 ∷ 9 ∷ []

abbrev table_p : List (List ℕ)
table_p =
    (0 ∷ 1 ∷ 2 ∷ 3 ∷ 4 ∷ 5 ∷ 6 ∷ 7 ∷ 8 ∷ 9 ∷ [])
    ∷ (1 ∷ 5 ∷ 7 ∷ 6 ∷ 2 ∷ 8 ∷ 3 ∷ 0 ∷ 9 ∷ 4 ∷ [])
    ∷ (5 ∷ 8 ∷ 0 ∷ 3 ∷ 7 ∷ 9 ∷ 6 ∷ 1 ∷ 4 ∷ 2 ∷ [])
    ∷ (8 ∷ 9 ∷ 1 ∷ 6 ∷ 0 ∷ 4 ∷ 3 ∷ 5 ∷ 2 ∷ 7 ∷ [])
    ∷ (9 ∷ 4 ∷ 5 ∷ 3 ∷ 1 ∷ 2 ∷ 6 ∷ 8 ∷ 7 ∷ 0 ∷ [])
    ∷ (4 ∷ 2 ∷ 8 ∷ 6 ∷ 5 ∷ 7 ∷ 3 ∷ 9 ∷ 0 ∷ 1 ∷ [])
    ∷ (2 ∷ 7 ∷ 9 ∷ 3 ∷ 8 ∷ 0 ∷ 6 ∷ 4 ∷ 1 ∷ 5 ∷ [])
    ∷ (7 ∷ 0 ∷ 4 ∷ 6 ∷ 9 ∷ 1 ∷ 3 ∷ 2 ∷ 5 ∷ 8 ∷ [])
    ∷ []

unfoldable pub verhoeff_d : ℕ → ℕ → ℕ
verhoeff_d c p = get_or (get_or table_d c []) p 0

unfoldable pub verhoeff_inv : ℕ → ℕ
verhoeff_inv c = get_or table_inv c 0

unfoldable pub verhoeff_p : ℕ → ℕ → ℕ
verhoeff_p i d = get_or (get_or table_p i []) d 0

-- The loop over the reversed characters, from position `i` on.
unfoldable pub verhoeff_loop : ℕ → ℕ → List ℕ → ℕ
verhoeff_loop i c [] = c
verhoeff_loop i c (char ∷ chars) =
    verhoeff_loop (i + 1) (verhoeff_d c (verhoeff_p (i % 8) (char - 48))) chars

unfoldable pub verhoeff_generate : List ℕ → ℕ
verhoeff_generate s = verhoeff_inv (verhoeff_loop 1 0 (reverse s))

unfoldable pub verhoeff_validate : List ℕ → Bool
verhoeff_validate s = verhoeff_loop 0 0 (reverse s) == 0
