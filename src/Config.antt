-- ===== src/Config.antt =====
-- The configuration (package config).
pub mod Transport
