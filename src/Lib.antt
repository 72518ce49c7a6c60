-- ===== src/Lib.antt =====
-- The core of turkish.code, a desktop coding assistant: the Python process under core/turkish_code
-- that serves the shell over a pair of pipes, routes requests to language models, runs agents and
-- their tools under permissions, and keeps a journal. A method of the code is a function of the state
-- it works on; what it raises is the `err` of a `Result` (Hata), beside the state as it is then.
--
-- The parts, and how they interact:
-- * Kanal is core/turkish_code/kanal. Kanal/Cerceve: the length-prefixed frames (cerceve.py,
--   `_read_exactly` of aktarim.py) and the read loop (`_read_loop` of sunucu.py) over the bytes of
--   the stream, in Cerceve/Codec and Cerceve/Loop what they guarantee. Kanal/Mesaj: the JSON-RPC
--   messages of mesaj.py, read by `parse_frame` of dogrulama.py. Kanal/Dagitim: dagitim.py and
--   iptal.py, from a message to its handler and back to a response. Kanal/Eslesme: the pending
--   requests of eslesme.py. Whether `_handle_frame` raises for a payload is a parameter of the read
--   loop.
-- * Depo/Journal is depo/journal.py: append, recovery at opening, reading; Journal/Frames,
--   Journal/Recovery and Journal/Reopening hold the proofs. Depo/Goc is the migration runner,
--   migrate.py over the transaction scope of db.py.
-- * Ajanlar is ajanlar: Oturum is the session with its runs and its conversation (oturum.py, durum.py,
--   modeller.py), Yasam the lifecycle of the sessions of a store (yasam.py), Kayit the registry of
--   agents and the routing to them (kayit.py, `_resolve` of dagitici.py), Dagitici a dispatch in the two
--   steps around its await, between which others run (dagitici.py, iptal.py). A lifecycle call that halts
--   a session calls `cancel_active_runs` of Oturum.
-- * Araclar is araclar: Izin the permission policy (izin.py), Kayit the registry (kayit.py), Dagitici
--   the dispatcher (dagitici.py, iptal.py, hata.py), which asks a gate such as the policy.
-- * Eklentiler is eklentiler: Izin the plugins' grants and the gate that wraps the session's gate
--   (izin.py), Kopru the bridge that puts a plugin's tools into the registry of Araclar (izin.py),
--   Kayit and Yasam the plugins' registry and lifecycle (kayit.py, yasam.py) over that bridge,
--   Dogrulama the validation of a manifest (manifest.py, dogrulama.py) and Yukleyici the loader that
--   turns TOML tables into registered plugins (yukleyici.py).
-- * Yonlendirme is yonlendirme: Kota the usage and the cooldowns (quota), Yetenek the requirements of a
--   task (capability), Adaylar the candidates that meet them (candidates.py, over manager.py of
--   core/turkish_code/saglayicilar) and whose provider is not cooling down in Kota, Dayaniklilik the
--   retries and the failover over the ranked candidates (resilience.py), which enters cooldowns in
--   Kota. Between them, Puan computes the scores (scoring, benchmark), Siralama the ranking and the
--   decision (scoring/combine.py, decision.py), and Yonlendirici is the router (router.py) over all of
--   these; Yonlendirici/Routed hands its decision to Dayaniklilik.
-- * Yetenekler is yetenekler: Kayit the skills' registry (kayit.py), Yasam their lifecycle (yasam.py),
--   which registers exactly the enabled ones, Dagitici the invocation of a skill and the tools in its
--   scope (dagitici.py, baglam.py), over the registry of Kayit and the dispatcher of Araclar.
-- * CalismaAlani is calisma_alani: Yapilandirma a workspace's configuration (modeller.py), Kayit the
--   sessions and their registry (oturum.py, kayit.py), Yonetici the lifecycle and the manager over this
--   one registry (yasam.py, yonetici.py).
-- * Sohbet is sohbet: Gecmis the history and the context of a turn (modeller.py, gecmis.py, baglam.py),
--   Yasam the conversations and their lifecycle (oturum.py, yasam.py), Dagitici a turn (dagitici.py,
--   motor.py), in the two steps between which other turns may run.
-- * Gozlem is gozlem: the metric catalogue and the collector (catalog.py, collect.py).
-- Base holds the shared names: tests, lists over the native numbers, dictionaries, orders, bytes. Tests holds
-- the theorems at concrete inputs.
--
-- Parameters: `zlib.crc32`, with the bound that it is below 2 ^ 32; the JSON library, of which one
-- round trip uses that it reads back what it printed, and what `dict` makes of a list of pairs; the
-- providers' streams and the clock; the permission gate; what the handlers and the tools do, and what
-- the rest of the process does while a tool call or a skill is awaited; the answers of the agents and of the memory source; the providers'
-- health and reliability, and the arithmetic of the scores, of which the ranking uses that it is
-- ordered and the gating that a product with 0 is 0; what an SQL statement does to a database; the
-- redactor and the numbers of the metrics; what the plugins' files hold, the matches of the regular
-- expressions for ids and versions, and the tools of a manifest.
--
-- Fuel: a round of the read loop takes at least the four bytes of a header off the stream, so one more
-- than the length of the stream is enough (Kanal/Cerceve/Loop, `read_loop-fuel`). The scan of the
-- journal takes one more than the length of the file: a record has at least eight bytes
-- (Depo/Journal/Reopening, `scan-fuel`). The retry loop recurs on the retries that are left, all other
-- loops on a list.
--
-- Not modelled: SQL storage beyond the migrations, embeddings, retrieval, the providers' HTTP, logging,
-- the configuration of the process, benchmark probes, the reading of files, and the shell: they
-- are I/O, or interfaces without code. Texts for users and logs are left
-- out of the errors. Instants are ticks; a JSON number is an integer.
mod Base
pub mod Hata
pub mod Gozlem
pub mod Kanal
pub mod Depo
pub mod Ajanlar
pub mod Araclar
pub mod Eklentiler
pub mod Yonlendirme
pub mod Yetenekler
pub mod CalismaAlani
pub mod Sohbet
mod Tests
