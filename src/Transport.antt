-- ===== src/Transport.antt =====
-- internal/transport: BTP segmentation over BLE, and the message reliability protocol.
pub mod Btp
pub mod Mrp
