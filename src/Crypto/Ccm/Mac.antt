-- ===== src/Crypto/Ccm/Mac.antt =====
-- The CBC-MAC of internal/crypto/aesccm.go is always one block of bytes.
use matter_cli.Prelude.{
  ℕ, zero, suc, ◌≡◌, List, length, take, drop, take_all, All, arith, Bool, true, false,
  if◌then◌else◌,
}
use matter_cli.Prelude.Bits.{IsByte}
use matter_cli.Crypto.Ccm.{block_size, tag_size, mac_blocks, ccm_mac_aad, ccm_mac_data, ccm_cbc_mac}
use matter_cli.Crypto.Ccm.Ctr.{IsBlockCipher}

pub record IsBlock (x : List ℕ) : Type 0 where
  pub size : length x ≡ block_size
  pub bytes : All IsByte x

module _ (encrypt : List ℕ → List ℕ) (cipher : IsBlockCipher encrypt) where
  encrypt-IsBlock : (x : List ℕ) → IsBlock (encrypt x)
  encrypt-IsBlock x = record { size = cipher.size x; bytes = cipher.bytes x }

  mac_blocks-IsBlock :
      (rounds : ℕ) (x bytes : List ℕ) → IsBlock x → IsBlock (mac_blocks encrypt rounds x bytes)
  unfolding mac_blocks
  mac_blocks-IsBlock zero x bytes h = h
  mac_blocks-IsBlock (suc rounds) x bytes h =
      mac_blocks-IsBlock rounds _ (drop block_size bytes) (encrypt-IsBlock _)

  if-IsBlock : (b : Bool) (x y : List ℕ) → IsBlock x → IsBlock y → IsBlock (if b then x else y)
  if-IsBlock true x y h k = h
  if-IsBlock false x y h k = k

  mac_aad-IsBlock : (x aad : List ℕ) → IsBlock x → IsBlock (ccm_mac_aad encrypt x aad)
  unfolding ccm_mac_aad
  mac_aad-IsBlock x aad h = mac_blocks-IsBlock _ x _ h

  mac_data-IsBlock : (x bytes : List ℕ) → IsBlock x → IsBlock (ccm_mac_data encrypt x bytes)
  unfolding ccm_mac_data
  mac_data-IsBlock x bytes h = if-IsBlock _ _ _ (encrypt-IsBlock _) (mac_blocks-IsBlock _ x bytes h)

  take-IsBlock : (x : List ℕ) → IsBlock x → IsBlock (take tag_size x)
  take-IsBlock x h = rw (take_all tag_size x (omega (arith, h.size))) h

  pub cbc_mac-IsBlock :
      (nonce plaintext aad : List ℕ) → IsBlock (ccm_cbc_mac encrypt nonce plaintext aad)
  unfolding ccm_cbc_mac
  cbc_mac-IsBlock nonce plaintext aad = take-IsBlock _ (
      mac_data-IsBlock _ plaintext
        (if-IsBlock _ _ _ (encrypt-IsBlock _) (mac_aad-IsBlock _ aad (encrypt-IsBlock _))))
