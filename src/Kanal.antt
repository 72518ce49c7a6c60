-- ===== src/Kanal.antt =====
-- The Core Channel (core/turkish_code/kanal): frames, messages, correlation, dispatch.
pub mod Cerceve
pub mod Json
pub mod Mesaj
pub mod Dagitim
pub mod Eslesme
