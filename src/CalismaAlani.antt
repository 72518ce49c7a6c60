-- ===== src/CalismaAlani.antt =====
-- Workspaces (core/turkish_code/calisma_alani): configuration, registry, lifecycle, manager.
pub mod Yapilandirma
pub mod Kayit
pub mod Yonetici
