-- ===== src/Config.antt =====
-- internal/natsconfig: the configuration of the NATS server, and how it is made and rendered.
pub mod Types
pub mod Quantities
pub mod Permissions
pub mod Convert
pub mod Quote
pub mod Writer
pub mod UserWriter
pub mod Generate
pub mod Document
pub mod Rendering
pub mod Deterministic
