-- ===== src/Eklentiler.antt =====
-- The plugins: core/turkish_code/eklentiler.
pub mod Modeller
pub mod Izin
pub mod Kopru
pub mod Kayit
pub mod Dogrulama
pub mod Yukleyici
pub mod Yasam
