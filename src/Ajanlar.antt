-- ===== src/Ajanlar.antt =====
-- The agent runtime (core/turkish_code/ajanlar): sessions, their lifecycle, the agent registry.
pub mod Modeller
pub mod Oturum
pub mod Yasam
pub mod Kayit
pub mod Dagitici
