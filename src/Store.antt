-- ===== src/Store.antt =====
-- internal/store: what the store keeps, and what it promises.
pub mod Types
pub mod Flat
pub mod Memory
