-- ===== src/Crypto/Ccm/Seal.antt =====
-- `AESCCMEncrypt` and `AESCCMDecrypt` of internal/crypto/aesccm.go against one another.
use matter_cli.Prelude.{
  ℕ, ◌+◌, ◌-◌, ◌^◌, ◌≤◌, ◌<◌, ◌≡◌, refl, sym, ◌∙◌, Bool, true, false, List, ◌++◌, length, take,
  drop, length-append, length-take, take-length_append, drop-length_append, take-append-drop, All,
  All-take, All-drop, All-append, length-drop, Result, ◌>>=◌, ok, err, arith, if◌then◌else◌,
}
use matter_cli.Prelude.Bits.{IsByte}
use matter_cli.Crypto.Ccm.{
  authentication_failed, tag_size, nonce_size, CcmError, xor_bytes, bytes_eq, ccm_cbc_mac,
  counter_block, ctr_loop, ccm_ctr, aes_ccm_encrypt, aes_ccm_decrypt,
}
use matter_cli.Crypto.Ccm.Xor.{xor-xor, length-xor, xor-IsByte, bytes_eq_refl, bytes_eq→eq}
use matter_cli.Crypto.Ccm.Mac.{IsBlock, cbc_mac-IsBlock}
use matter_cli.Crypto.Ccm.Ctr.{IsBlockCipher, length-ctr_loop, ctr_loop-IsByte, ctr_loop-ctr_loop}

ok-injective : {a b : List ℕ} → ◌≡◌ {A = Result CcmError (List ℕ)} (ok a) (ok b) → a ≡ b
ok-injective e = cc

accepted :
    (b : Bool) (p : List ℕ) {q : List ℕ}
    → (if b then ok p else err authentication_failed) ≡ ok q
    → (b ≡ true) × (p ≡ q)
accepted true p e = (refl, cc)
accepted false p e = cc

module _ (aes : List ℕ → List ℕ → List ℕ)
    (cipher : (key : List ℕ) → length key ≡ 16 → IsBlockCipher (aes key)) where
  seal_parts :
      (key nonce plaintext aad : List ℕ)
      → length key ≡ 16
      → length nonce ≡ nonce_size
      → length plaintext < 2 ^ 16
      → aes_ccm_encrypt aes key nonce plaintext aad
        ≡ ok (
            ctr_loop (aes key) (length plaintext) nonce 1 plaintext
            ++ xor_bytes
                (ccm_cbc_mac (aes key) nonce plaintext aad)
                (take tag_size (aes key (counter_block nonce 0))))
  unfolding aes_ccm_encrypt ccm_ctr
  seal_parts key nonce plaintext aad hk hn hp = ground arith

  open_parts :
      (key nonce ct tag aad : List ℕ)
      → length key ≡ 16
      → length nonce ≡ nonce_size
      → length tag ≡ tag_size
      → aes_ccm_decrypt aes key nonce (ct ++ tag) aad ≡ (
          let plaintext = ctr_loop (aes key) (length ct) nonce 1 ct in
          if bytes_eq
            (xor_bytes tag (take tag_size (aes key (counter_block nonce 0))))
            (ccm_cbc_mac (aes key) nonce plaintext aad)
          then ok plaintext
          else err authentication_failed)
  unfolding aes_ccm_decrypt ccm_ctr
  open_parts key nonce ct tag aad hk hn ht =
      let size : length (ct ++ tag) - tag_size ≡ length ct = omega (arith, length-append ct tag) in
      rw
        (
          size,
          take-length_append (length ct) ct tag refl,
          drop-length_append (length ct) ct tag refl,
        )
        (ground (arith, length-append ct tag))

  pad-size :
      (key nonce : List ℕ)
      → length key ≡ 16
      → length (take tag_size (aes key (counter_block nonce 0))) ≡ tag_size
  pad-size key nonce hk = omega (
    arith,
    length-take tag_size (aes key (counter_block nonce 0)),
    (cipher key hk).size (counter_block nonce 0),
  )

  pad-bytes :
      (key nonce : List ℕ)
      → length key ≡ 16
      → All IsByte (take tag_size (aes key (counter_block nonce 0)))
  pad-bytes key nonce hk =
      All-take IsByte tag_size _ ((cipher key hk).bytes (counter_block nonce 0))

  -- A sealed message has the plaintext's length and 16 more, and consists of bytes, where the key has
  -- 16 bytes, the nonce 13, the plaintext is of less than 2 ^ 16 bytes, and the block cipher maps any
  -- block to 16 bytes.
  pub aes_ccm_encrypt_shape :
      (key nonce plaintext aad : List ℕ) (sealed : List ℕ)
      → length key ≡ 16
      → length nonce ≡ nonce_size
      → length plaintext < 2 ^ 16
      → All IsByte plaintext
      → aes_ccm_encrypt aes key nonce plaintext aad ≡ ok sealed
      → (length sealed ≡ length plaintext + tag_size) × All IsByte sealed
  aes_ccm_encrypt_shape key nonce plaintext aad sealed hk hn hp by e =
      let E : List ℕ → List ℕ = aes key in
      let ct : List ℕ = ctr_loop E (length plaintext) nonce 1 plaintext in
      let mac : List ℕ = ccm_cbc_mac E nonce plaintext aad in
      let pad : List ℕ = take tag_size (E (counter_block nonce 0)) in
      let block : IsBlock mac = cbc_mac-IsBlock E (cipher key hk) nonce plaintext aad in
      let parts : ct ++ xor_bytes mac pad ≡ sealed =
        ok-injective (sym (seal_parts key nonce plaintext aad hk hn hp) ∙ e) in
      rw (← parts) (
        omega (
          arith,
          length-append ct (xor_bytes mac pad),
          length-ctr_loop E (cipher key hk) (length plaintext) nonce 1 plaintext (omega arith),
          length-xor mac pad (omega (arith, pad-size key nonce hk, block.size)),
          block.size,
        ),
        All-append IsByte ct (xor_bytes mac pad)
            (ctr_loop-IsByte E (cipher key hk) (length plaintext) nonce 1 plaintext by)
            (xor-IsByte mac pad block.bytes (pad-bytes key nonce hk)),
      )

  -- Encryption succeeds and decryption gives the plaintext back, where the key has 16 bytes, the nonce
  -- 13, the plaintext is of less than 2 ^ 16 bytes, and the block cipher maps any block to 16 bytes.
  pub decrypt-encrypt :
      (key nonce plaintext aad : List ℕ)
      → length key ≡ 16
      → length nonce ≡ nonce_size
      → length plaintext < 2 ^ 16
      → All IsByte plaintext
      → (aes_ccm_encrypt aes key nonce plaintext aad >>= λ sealed.
          aes_ccm_decrypt aes key nonce sealed aad)
        ≡ ok plaintext
  decrypt-encrypt key nonce plaintext aad hk hn hp by =
      let ct : List ℕ = ctr_loop (aes key) (length plaintext) nonce 1 plaintext in
      let mac : List ℕ = ccm_cbc_mac (aes key) nonce plaintext aad in
      let pad : List ℕ = take tag_size (aes key (counter_block nonce 0)) in
      let block : IsBlock mac = cbc_mac-IsBlock (aes key) (cipher key hk) nonce plaintext aad in
      let size : length ct ≡ length plaintext =
        length-ctr_loop (aes key) (cipher key hk) (length plaintext) nonce 1 plaintext
          (omega arith) in
      let tag : length (xor_bytes mac pad) ≡ tag_size = omega (
        arith,
        length-xor mac pad (omega (arith, pad-size key nonce hk, block.size)),
        block.size,
      ) in
      rw (
        seal_parts key nonce plaintext aad hk hn hp,
        open_parts key nonce ct (xor_bytes mac pad) aad hk hn tag,
        size,
        ctr_loop-ctr_loop (aes key) (cipher key hk) (length plaintext) nonce 1 plaintext
            (omega arith) by,
        xor-xor mac pad (omega (arith, pad-size key nonce hk, block.size)) block.bytes
            (pad-bytes key nonce hk),
        bytes_eq_refl mac,
      )

  decrypt_sizes :
      (key nonce sealed aad plaintext : List ℕ)
      → aes_ccm_decrypt aes key nonce sealed aad ≡ ok plaintext
      → (length key ≡ 16) × (length nonce ≡ nonce_size) × (tag_size ≤ length sealed)
  unfolding aes_ccm_decrypt
  decrypt_sizes key nonce sealed aad plaintext e = ground arith

  reseal :
      (key nonce ct tag aad plaintext : List ℕ)
      → length key ≡ 16
      → length nonce ≡ nonce_size
      → length tag ≡ tag_size
      → length ct < 2 ^ 16
      → All IsByte ct
      → All IsByte tag
      → aes_ccm_decrypt aes key nonce (ct ++ tag) aad ≡ ok plaintext
      → aes_ccm_encrypt aes key nonce plaintext aad ≡ ok (ct ++ tag)
  reseal key nonce ct tag aad plaintext hk hn ht hc bc bt e =
      let E : List ℕ → List ℕ = aes key in
      let pad : List ℕ = take tag_size (E (counter_block nonce 0)) in
      let opened : List ℕ = ctr_loop E (length ct) nonce 1 ct in
      let mac : List ℕ = ccm_cbc_mac E nonce opened aad in
      let (same, is_plain) =
        accepted (bytes_eq (xor_bytes tag pad) mac) opened
          (sym (open_parts key nonce ct tag aad hk hn ht) ∙ e) in
      let size : length opened ≡ length ct =
        length-ctr_loop E (cipher key hk) (length ct) nonce 1 ct (omega arith) in
      rw (
        ← is_plain,
        seal_parts key nonce opened aad hk hn (omega (arith, size)),
        size,
        ctr_loop-ctr_loop E (cipher key hk) (length ct) nonce 1 ct (omega arith) bc,
        ← bytes_eq→eq (xor_bytes tag pad) mac same,
        xor-xor tag pad (omega (arith, pad-size key nonce hk)) bt (pad-bytes key nonce hk),
      )

  -- What decryption accepts, of less than 2 ^ 16 + 16 bytes, is what encryption makes of the plaintext
  -- that it returns, with the same key, nonce and associated data: nothing else is accepted. The block
  -- cipher maps any block to 16 bytes.
  pub encrypt-decrypt :
      (key nonce sealed aad plaintext : List ℕ)
      → length sealed < 2 ^ 16 + tag_size
      → All IsByte sealed
      → aes_ccm_decrypt aes key nonce sealed aad ≡ ok plaintext
      → aes_ccm_encrypt aes key nonce plaintext aad ≡ ok sealed
  encrypt-decrypt key nonce sealed aad plaintext h by e =
      let (hk, hn, hs) = decrypt_sizes key nonce sealed aad plaintext e in
      let n : ℕ = length sealed - tag_size in
      let joined : take n sealed ++ drop n sealed ≡ sealed = take-append-drop n sealed in
      rw (← joined) (
        reseal key nonce (take n sealed) (drop n sealed) aad plaintext hk hn
          (omega (arith, length-drop n sealed)) (omega (arith, length-take n sealed))
          (All-take IsByte n sealed by) (All-drop IsByte n sealed by) (rw joined e))
