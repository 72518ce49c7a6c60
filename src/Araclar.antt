-- ===== src/Araclar.antt =====
-- The tool runtime (core/turkish_code/araclar): permission decisions, the registry, the dispatcher.
pub mod Izin
pub mod Kayit
pub mod Dagitici
