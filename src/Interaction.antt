-- ===== src/Interaction.antt =====
-- internal/interaction: paths, reports and the other messages of the Interaction Model, and its client.
pub mod Path
pub mod Status
pub mod Reports
pub mod Reassemble
pub mod Client
