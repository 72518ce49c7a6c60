-- ===== src/Yetenekler.antt =====
-- The skill runtime (core/turkish_code/yetenekler): registry, lifecycle, dispatcher, scoped tools.
pub mod Kayit
pub mod Yasam
pub mod Dagitici
