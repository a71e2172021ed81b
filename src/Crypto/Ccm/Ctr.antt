-- ===== src/Crypto/Ccm/Ctr.antt =====
-- The CTR mode of internal/crypto/aesccm.go: it keeps the length, and a second run undoes it.
use matter_cli.Prelude.{
  ℕ, zero, suc, ◌+◌, ◌≤◌, ◌<◌, ◌≡◌, refl, ap, ◌⊎◌, inl, inr, List, [], ◌∷◌, ◌++◌, length, take,
  drop, All, arith, length-append, length-take, length-drop, take-append-drop, take-length_append,
  drop-length_append, All-take, All-drop, All-append, append-nil, take_all, drop_all, le_or_lt,
  ◌≡⟨◌⟩◌, ◌∎,
}
use matter_cli.Prelude.Bits.{IsByte}
use matter_cli.Crypto.Ccm.{block_size, xor_bytes, counter_block, ctr_loop}
use matter_cli.Crypto.Ccm.Xor.{xor-xor, length-xor, xor-IsByte}

-- What the construction needs of a block cipher under one key: its result is a block of bytes.
pub record IsBlockCipher (encrypt : List ℕ → List ℕ) : Type 0 where
  pub size : (b : List ℕ) → length (encrypt b) ≡ block_size
  pub bytes : (b : List ℕ) → All IsByte (encrypt b)

module _ (encrypt : List ℕ → List ℕ) (cipher : IsBlockCipher encrypt) where
  chunk-length :
      (a src : List ℕ)
      → length (xor_bytes (take block_size src) (encrypt a)) ≡ length (take block_size src)
  chunk-length a src =
      length-xor (take block_size src) (encrypt a)
        (omega (arith, cipher.size a, length-take block_size src))

  ctr_step :
      (rounds : ℕ) (nonce : List ℕ) (ctr : ℕ) (src : List ℕ)
      → 0 < length src
      → ctr_loop encrypt (suc rounds) nonce ctr src
        ≡ xor_bytes (take block_size src) (encrypt (counter_block nonce ctr))
          ++ ctr_loop encrypt rounds nonce (ctr + 1) (drop block_size src)
  unfolding ctr_loop
  ctr_step rounds nonce ctr [] h = absurd (omega arith)
  ctr_step rounds nonce ctr (b ∷ bs) h = refl

  ctr_loop-nil : (rounds : ℕ) (nonce : List ℕ) (ctr : ℕ) → ctr_loop encrypt rounds nonce ctr [] ≡ []
  unfolding ctr_loop
  ctr_loop-nil zero nonce ctr = refl
  ctr_loop-nil (suc rounds) nonce ctr = refl

  pub length-ctr_loop :
      (rounds : ℕ) (nonce : List ℕ) (ctr : ℕ) (src : List ℕ)
      → length src ≤ rounds
      → length (ctr_loop encrypt rounds nonce ctr src) ≡ length src
  length-ctr_loop rounds nonce ctr [] h = rw (ctr_loop-nil rounds nonce ctr)
  length-ctr_loop zero nonce ctr (b ∷ bs) h = absurd (omega arith)
  length-ctr_loop (suc rounds) nonce ctr (b ∷ bs) h =
      rw (ctr_step rounds nonce ctr (b ∷ bs) (omega arith), length-append)
        (omega (
          arith,
          chunk-length (counter_block nonce ctr) (b ∷ bs),
          length-take block_size (b ∷ bs),
          length-drop block_size (b ∷ bs),
          length-ctr_loop rounds nonce (ctr + 1) (drop block_size (b ∷ bs))
              (omega (arith, length-drop block_size (b ∷ bs))),
        ))

  pub ctr_loop-IsByte :
      (rounds : ℕ) (nonce : List ℕ) (ctr : ℕ) (src : List ℕ)
      → All IsByte src
      → All IsByte (ctr_loop encrypt rounds nonce ctr src)
  ctr_loop-IsByte rounds nonce ctr [] h = rw (ctr_loop-nil rounds nonce ctr) tt
  ctr_loop-IsByte zero nonce ctr (b ∷ bs) h = unfold ctr_loop in tt
  ctr_loop-IsByte (suc rounds) nonce ctr (b ∷ bs) h =
      rw (ctr_step rounds nonce ctr (b ∷ bs) (omega arith)) (
        All-append IsByte (xor_bytes (take block_size (b ∷ bs)) (encrypt (counter_block nonce ctr)))
          _
          (xor-IsByte (take block_size (b ∷ bs)) (encrypt (counter_block nonce ctr))
            (All-take IsByte block_size (b ∷ bs) h) (cipher.bytes (counter_block nonce ctr)))
          (ctr_loop-IsByte rounds nonce (ctr + 1) _ (All-drop IsByte block_size (b ∷ bs) h)))

  -- Cutting a block off an xored block and what follows: it is whole, or nothing follows.
  cut_block :
      (chunk rest : List ℕ)
      → (length chunk ≡ block_size) ⊎ ((rest ≡ []) × (length chunk ≤ block_size))
      → (take block_size (chunk ++ rest) ≡ chunk) × (drop block_size (chunk ++ rest) ≡ rest)
  cut_block chunk rest (inl e) =
      (take-length_append block_size chunk rest e, drop-length_append block_size chunk rest e)
  cut_block chunk rest (inr (e, h)) =
      rw (e, append-nil) (take_all block_size chunk h, drop_all block_size chunk h)

  block_cases :
      (rounds : ℕ) (nonce : List ℕ) (ctr : ℕ) (src : List ℕ)
      → (length (take block_size src) ≡ block_size)
        ⊎ ((ctr_loop encrypt rounds nonce ctr (drop block_size src) ≡ [])
            × (length (take block_size src) ≤ block_size))
  block_cases rounds nonce ctr src = elim (le_or_lt block_size (length src)) [
    | inl h ↦ inl (omega (arith, length-take block_size src))
    | inr h ↦ inr (
      rw (drop_all block_size src (omega arith)) (ctr_loop-nil rounds nonce ctr),
      omega (arith, length-take block_size src),
    )
  ]

  pub ctr_loop-ctr_loop :
      (rounds : ℕ) (nonce : List ℕ) (ctr : ℕ) (src : List ℕ)
      → length src ≤ rounds
      → All IsByte src
      → ctr_loop encrypt rounds nonce ctr (ctr_loop encrypt rounds nonce ctr src) ≡ src
  ctr_loop-ctr_loop rounds nonce ctr [] h by =
      rw (ctr_loop-nil rounds nonce ctr, ctr_loop-nil rounds nonce ctr)
  ctr_loop-ctr_loop zero nonce ctr (b ∷ bs) h by = absurd (omega arith)
  ctr_loop-ctr_loop (suc rounds) nonce ctr (b ∷ bs) h by =
      let src : List ℕ = b ∷ bs in
      let key : List ℕ = encrypt (counter_block nonce ctr) in
      let chunk : List ℕ = xor_bytes (take block_size src) key in
      let rest : List ℕ = ctr_loop encrypt rounds nonce (ctr + 1) (drop block_size src) in
      let size : length chunk ≡ length (take block_size src) =
        chunk-length (counter_block nonce ctr) src in
      let cut : (take block_size (chunk ++ rest) ≡ chunk)
          × (drop block_size (chunk ++ rest) ≡ rest) =
        cut_block chunk rest (rw size (block_cases rounds nonce (ctr + 1) src)) in
      ctr_loop encrypt (suc rounds) nonce ctr (ctr_loop encrypt (suc rounds) nonce ctr src)
      ≡⟨ ap (ctr_loop encrypt (suc rounds) nonce ctr)
          (ctr_step rounds nonce ctr src (omega arith)) ⟩
        ctr_loop encrypt (suc rounds) nonce ctr (chunk ++ rest)
      ≡⟨ ctr_step rounds nonce ctr (chunk ++ rest)
          (omega (arith, length-append chunk rest, size, length-take block_size src)) ⟩
        xor_bytes (take block_size (chunk ++ rest)) key
        ++ ctr_loop encrypt rounds nonce (ctr + 1) (drop block_size (chunk ++ rest))
      ≡⟨ (rw (cut.0, cut.1)) ⟩ xor_bytes chunk key ++ ctr_loop encrypt rounds nonce (ctr + 1) rest
      ≡⟨ (cc (
        xor-xor (take block_size src) key
            (omega (arith, cipher.size (counter_block nonce ctr), length-take block_size src))
            (All-take IsByte block_size src by) (cipher.bytes (counter_block nonce ctr)),
        ctr_loop-ctr_loop rounds nonce (ctr + 1) (drop block_size src)
            (omega (arith, length-drop block_size src)) (All-drop IsByte block_size src by),
      )) ⟩
        take block_size src ++ drop block_size src
      ≡⟨ take-append-drop block_size src ⟩ src ∎
