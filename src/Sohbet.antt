-- ===== src/Sohbet.antt =====
-- Conversations (core/turkish_code/sohbet): messages and history, lifecycle, turns.
pub mod Gecmis
pub mod Yasam
pub mod Dagitici
