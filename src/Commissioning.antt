-- ===== src/Commissioning.antt =====
-- internal/commissioning: the text codes of a setup payload, and network credentials.
pub mod Packing
pub mod Base38
pub mod Payload
pub mod Manual
pub mod Network
pub mod Verhoeff
