-- ===== src/Tests/Crypto.antt =====
-- internal/crypto/aesccm.go at concrete inputs, with a block cipher made up of an input's bytes.
use matter_cli.Prelude.{
  ℕ, ◌%◌, ◌≡◌, refl, List, [], ◌∷◌, length, get_or, Result, ok, err, ◌>>=◌, arith,
}
use matter_cli.Crypto.Ccm.{
  ccm_ctr, ctr_loop, ccm_cbc_mac, ccm_mac_aad, ccm_mac_data, mac_blocks, counter_block, pad_block,
  put_length, xor_bytes, bytes_eq, CcmError, aes_ccm_encrypt, aes_ccm_decrypt,
}
use matter_cli.Crypto.Ccm.Ctr.{IsBlockCipher}
use matter_cli.Crypto.Ccm.Seal.{decrypt-encrypt, encrypt-decrypt}

-- Bytes 0, 1, 14 and 15 of the block, and twelve fixed ones.
abbrev pub block_of : List ℕ → List ℕ → List ℕ
block_of key b =
    get_or b 15 0 % 256
    ∷ get_or b 14 0 % 256
    ∷ get_or b 0 0 % 256
    ∷ get_or b 1 0 % 256
    ∷ 11
    ∷ 22
    ∷ 33
    ∷ 44
    ∷ 55
    ∷ 66
    ∷ 77
    ∷ 88
    ∷ 99
    ∷ 110
    ∷ 121
    ∷ 132
    ∷ []

pub block_cipher : (key : List ℕ) → length key ≡ 16 → IsBlockCipher (block_of key)
block_cipher key h = record { size = λ b. refl; bytes = λ b. ground arith }

abbrev pub key : List ℕ
key = 1 ∷ 2 ∷ 3 ∷ 4 ∷ 5 ∷ 6 ∷ 7 ∷ 8 ∷ 9 ∷ 10 ∷ 11 ∷ 12 ∷ 13 ∷ 14 ∷ 15 ∷ 16 ∷ []

abbrev nonce : List ℕ
nonce = 0 ∷ 1 ∷ 0 ∷ 0 ∷ 0 ∷ 9 ∷ 8 ∷ 7 ∷ 6 ∷ 5 ∷ 4 ∷ 3 ∷ 2 ∷ []

abbrev plaintext : List ℕ
plaintext = 200 ∷ 100 ∷ 50 ∷ 25 ∷ []

abbrev aad : List ℕ
aad = 5 ∷ 6 ∷ []

abbrev sealed_bytes : Result CcmError (List ℕ) → List ℕ
sealed_bytes (ok bytes) = bytes
sealed_bytes (err _) = []

abbrev sealed : List ℕ
sealed = sealed_bytes (aes_ccm_encrypt block_of key nonce plaintext aad)

made : aes_ccm_encrypt block_of key nonce plaintext aad ≡ ok sealed
unfolding aes_ccm_encrypt
made = refl

decrypt-encrypt_example :
    (aes_ccm_encrypt block_of key nonce plaintext aad >>= λ s.
    aes_ccm_decrypt block_of key nonce s aad)
    ≡ ok plaintext
decrypt-encrypt_example =
    decrypt-encrypt block_of block_cipher key nonce plaintext aad refl refl (omega arith)
      (ground arith)

abbrev sealed_literal : List ℕ
sealed_literal =
    201 ∷ 100 ∷ 51 ∷ 25 ∷ 132 ∷ 121 ∷ 77 ∷ 29 ∷ 0 ∷ 0 ∷ 0 ∷ 0 ∷ 0 ∷ 0 ∷ 0 ∷ 0 ∷ 0 ∷ 0 ∷ 0 ∷ 0 ∷ []

opened : aes_ccm_decrypt block_of key nonce sealed_literal aad ≡ ok plaintext
unfolding aes_ccm_decrypt ccm_ctr ctr_loop ccm_cbc_mac ccm_mac_aad ccm_mac_data mac_blocks
    counter_block pad_block put_length xor_bytes bytes_eq
opened = refl

encrypt-decrypt_example : aes_ccm_encrypt block_of key nonce plaintext aad ≡ ok sealed_literal
encrypt-decrypt_example =
    encrypt-decrypt block_of block_cipher key nonce sealed_literal aad plaintext (omega arith)
      (ground arith) opened
