-- ===== src/Crypto.antt =====
-- internal/crypto: the AES-CCM construction. The block cipher is Go's crypto/aes, a parameter.
pub mod Ccm
