-- ===== src/Tests.antt =====
-- Runs of the models at concrete inputs, one file per part.
mod Crypto
mod Commissioning
mod Protocol
mod Sessions
mod Transport
mod Tlv
mod Exchanges
mod Mrp
mod Stores
mod Interaction
