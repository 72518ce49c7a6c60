-- ===== src/Tests/Goc.antt =====
-- The migrations of core/turkish_code/depo/migrate.py over a database that lists its statements.
use turkish_code.Base.{false, String, List, [], ◌∷◌, ◌++◌, ◌⊎◌, inl, inr, str_eq, if◌then◌else◌}
use turkish_code.Hata.{ErrorKind, AppError, app_error, no_cause}
use turkish_code.Depo.Goc.{Migration, Database}

-- One statement fails, the others are noted down.
abbrev execute : String → List String → AppError ⊎ List String
execute s done =
    if str_eq s "bad"
    then inl (app_error ErrorKind.internal "storage.sql" false no_cause)
    else inr (done ++ s ∷ [])

abbrev first : Migration
first = record { version = 1; name = "init"; statements = "create" ∷ [] }

abbrev second : Migration
second = record { version = 2; name = "broken"; statements = "alter" ∷ "bad" ∷ [] }

abbrev fresh : Database (List String)
fresh = record { user_version = 0; content = [] }
