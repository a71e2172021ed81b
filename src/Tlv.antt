-- ===== src/Tlv.antt =====
-- internal/tlv: the TLV encoding, written and read one element at a time.
pub mod Types
pub mod Tags
pub mod Writer
pub mod Reader
pub mod Values
pub mod Elements
pub mod RoundTrip
pub mod Document
