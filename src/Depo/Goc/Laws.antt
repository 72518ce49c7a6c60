-- ===== src/Depo/Goc/Laws.antt =====
-- How far a run of `migrate` of core/turkish_code/depo/migrate.py comes, and how the next continues.
use turkish_code.Base.{ℕ, ◌≡◌, ◌≢◌, ◌<◌, true, false, List, [], All, ◌⊎◌, String}
use turkish_code.Hata.{AppError, Result, code_of, ok, err, app}
use turkish_code.Depo.Goc.{Migration, Database}
use turkish_code.Depo.Goc.Steps.{pending, Stopped, Completed}

module _ {D : Type 0} (execute : String → D → AppError ⊎ D) where
  -- The database is newer than each of the migrations, of which there is one.
  abbrev pub IsNewer : List Migration → Database D → Type 0
  IsNewer ms db = (ms ≢ []) × All (λ m. m.version < db.user_version) ms

  -- What the end of a run says of the database that it leaves.
  abbrev pub Explains : List Migration → Database D → Result ℕ → Database D → Type 0
  Explains ms db (ok v) after =
      Completed execute (pending db.user_version ms) ms db after × (v ≡ after.user_version)
  Explains ms db (err (app e)) after =
      ((code_of e ≡ "storage.schema_downgrade") × (after ≡ db) × IsNewer ms db)
      ⊎ Stopped execute (pending db.user_version ms) ms db after e
  Explains ms db (err _) after = true ≡ false
