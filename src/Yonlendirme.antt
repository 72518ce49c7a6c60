-- ===== src/Yonlendirme.antt =====
-- Model routing (core/turkish_code/yonlendirme): capabilities, quota, candidates, scores, the
-- router, failover.
pub mod Kota
pub mod Yetenek
pub mod Adaylar
pub mod Puan
pub mod Siralama
pub mod Dayaniklilik
pub mod Yonlendirici
