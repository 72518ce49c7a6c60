-- ===== src/Depo.antt =====
-- Storage (core/turkish_code/depo): the event journal and the schema migrations.
pub mod Journal
pub mod Goc
