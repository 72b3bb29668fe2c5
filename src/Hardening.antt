-- ===== src/Hardening.antt =====
-- hardening.h: what the server checks of everything that a client sends.
pub mod Names
pub mod Password
pub mod Lru
pub mod Bucket
pub mod Connections
