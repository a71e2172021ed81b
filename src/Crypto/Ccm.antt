-- ===== src/Crypto/Ccm.antt =====
-- internal/crypto/aesccm.go: AES-CCM with a 13-byte nonce and a 16-byte tag, over a block cipher
-- `aes`, which takes the key and a block (crypto/aes, `NewCipher` and `Encrypt`).
pub mod Xor
pub mod Ctr
pub mod Mac
pub mod Seal
use Prim.Native.Nat.{bit_xor}
use matter_cli.Prelude.{
  ℕ, zero, suc, ◌+◌, ◌-◌, ◌*◌, ◌/◌, ◌%◌, ◌^◌, Bool, true, false, not, ◌&&◌, if◌then◌else◌, ltb,
  ◌==◌, List, [], ◌∷◌, ◌++◌, length, take, drop, replicate, bit_or, Result, ok, err,
}

abbrev pub tag_size : ℕ
tag_size = 16

abbrev pub nonce_size : ℕ
nonce_size = 13

abbrev pub len_field_size : ℕ
len_field_size = 15 - nonce_size

abbrev pub block_size : ℕ
block_size = 16

pub data CcmError : Type 0 where
  bad_key_size : ℕ → CcmError
  bad_nonce_size : ℕ → CcmError
  plaintext_too_long : CcmError
  ciphertext_too_short : CcmError
  authentication_failed : CcmError

-- The destination is as long as the shorter operand at every call.
unfoldable pub xor_bytes : List ℕ → List ℕ → List ℕ
xor_bytes [] bs = []
xor_bytes (a ∷ as') [] = []
xor_bytes (a ∷ as') (b ∷ bs) = bit_xor a b ∷ xor_bytes as' bs

-- Big-endian, `size` bytes.
unfoldable pub put_length : ℕ → ℕ → List ℕ
put_length zero val = []
put_length (suc size) val = put_length size (val / 256) ++ (val % 256 ∷ [])

-- `subtle.ConstantTimeCompare(a, b) == 1`
unfoldable pub bytes_eq : List ℕ → List ℕ → Bool
bytes_eq [] [] = true
bytes_eq [] (b ∷ bs) = false
bytes_eq (a ∷ as') [] = false
bytes_eq (a ∷ as') (b ∷ bs) = a == b && bytes_eq as' bs

-- `copy` into a zeroed block.
unfoldable pub pad_block : List ℕ → List ℕ
pad_block bytes = bytes ++ replicate (block_size - length bytes) 0

-- A_i: the flags, the nonce and the counter.
unfoldable pub counter_block : List ℕ → ℕ → List ℕ
counter_block nonce ctr = (len_field_size - 1) ∷ (nonce ++ put_length len_field_size ctr)

module _ (encrypt : List ℕ → List ℕ) where
  -- One round of CBC-MAC for each 16 bytes, as far as the rounds go.
  unfoldable pub mac_blocks : ℕ → List ℕ → List ℕ → List ℕ
  mac_blocks zero x bytes = x
  mac_blocks (suc rounds) x bytes =
      mac_blocks rounds (encrypt (xor_bytes x (take block_size bytes))) (drop block_size bytes)

  -- The length encoding goes in front, and zeros fill the last block.
  unfoldable pub ccm_mac_aad : List ℕ → List ℕ → List ℕ
  ccm_mac_aad x aad =
      let la = length aad in
      let len_enc : List ℕ =
        if ltb la (2 ^ 16 - 2 ^ 8)
        then (la / 256 % 256) ∷ (la % 256) ∷ []
        else 0xff ∷ 0xfe ∷ put_length 4 (la % 2 ^ 32) in
      let joined = len_enc ++ aad in
      let remainder = length joined % block_size in
      let padded =
        if remainder == 0 then joined else joined ++ replicate (block_size - remainder) 0 in
      mac_blocks (length padded / block_size) x padded

  -- The full blocks, then a last partial block filled with zeros.
  unfoldable pub ccm_mac_data : List ℕ → List ℕ → List ℕ
  ccm_mac_data x bytes =
      let n = length bytes in
      let full = n / block_size in
      let x' = mac_blocks full x bytes in
      if ltb (full * block_size) n
      then encrypt (xor_bytes x' (pad_block (drop (full * block_size) bytes)))
      else x'

  unfoldable pub ccm_cbc_mac : List ℕ → List ℕ → List ℕ → List ℕ
  ccm_cbc_mac nonce plaintext aad =
      let base = bit_or (len_field_size - 1) ((tag_size - 2) / 2 * 2 ^ 3) in
      let flags = if length aad == 0 then base else bit_or base (2 ^ 6) in
      let b0 = flags ∷ (nonce ++ put_length len_field_size (length plaintext)) in
      let x = encrypt b0 in
      let x' = if length aad == 0 then x else ccm_mac_aad x aad in
      take tag_size (ccm_mac_data x' plaintext)

  -- The loop over `src` from counter `ctr`; each round takes a byte at least, so `length src`
  -- rounds are enough.
  unfoldable pub ctr_loop : ℕ → List ℕ → ℕ → List ℕ → List ℕ
  ctr_loop zero nonce ctr src = []
  ctr_loop (suc rounds) nonce ctr [] = []
  ctr_loop (suc rounds) nonce ctr (b ∷ bs) =
      xor_bytes (take block_size (b ∷ bs)) (encrypt (counter_block nonce ctr))
      ++ ctr_loop rounds nonce (ctr + 1) (drop block_size (b ∷ bs))

  -- The new `dst` and the new `tag`.
  unfoldable pub ccm_ctr : List ℕ → List ℕ → List ℕ → List ℕ × List ℕ
  ccm_ctr nonce src tag = (
    ctr_loop (length src) nonce 1 src,
    xor_bytes tag (take tag_size (encrypt (counter_block nonce 0))),
  )

module _ (aes : List ℕ → List ℕ → List ℕ) where
  unfoldable pub aes_ccm_encrypt : List ℕ → List ℕ → List ℕ → List ℕ → Result CcmError (List ℕ)
  aes_ccm_encrypt key nonce plaintext aad =
      if not (length key == 16)
      then err (bad_key_size (length key))
      else if not (length nonce == nonce_size)
      then err (bad_nonce_size (length nonce))
      else if ltb (2 ^ (8 * len_field_size) - 1) (length plaintext)
      then err plaintext_too_long
      else (let tag = ccm_cbc_mac (aes key) nonce plaintext aad in
          let (out, enc_tag) = ccm_ctr (aes key) nonce plaintext tag in ok (out ++ enc_tag))

  unfoldable pub aes_ccm_decrypt : List ℕ → List ℕ → List ℕ → List ℕ → Result CcmError (List ℕ)
  aes_ccm_decrypt key nonce sealed aad =
      if not (length key == 16)
      then err (bad_key_size (length key))
      else if not (length nonce == nonce_size)
      then err (bad_nonce_size (length nonce))
      else if ltb (length sealed) tag_size
      then err ciphertext_too_short
      else (let ct_len = length sealed - tag_size in
          let (plaintext, tag) =
            ccm_ctr (aes key) nonce (take ct_len sealed) (drop ct_len sealed) in
          if bytes_eq tag (ccm_cbc_mac (aes key) nonce plaintext aad)
          then ok plaintext
          else err authentication_failed)
