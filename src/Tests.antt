-- ===== src/Tests.antt =====
-- The theorems at concrete inputs.
mod Depo
mod Kanal
mod Ajanlar
mod Araclar
mod Eklentiler
mod Yonlendirme
mod Adaylar
mod Goc
mod Gozlem
mod Yetenekler
mod CalismaAlani
mod Sohbet
