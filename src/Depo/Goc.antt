-- ===== src/Depo/Goc.antt =====
-- Schema migrations: core/turkish_code/depo/migrate.py, over the transaction scope of db.py. What a
-- statement does to the content of the database is the parameter `execute`; beginning, committing
-- and rolling back a transaction succeed, and no statement sets `user_version` by itself.
pub mod Loading
pub mod Steps
pub mod Laws
use turkish_code.Base.{
  ℕ, String, Bool, true, false, List, [], ◌∷◌, Option, none, some, ◌⊎◌, inl, inr, if◌then◌else◌,
  ltb, leb, ◌==◌,
}
use turkish_code.Base.Order.{sorted}
use turkish_code.Hata.{
  ErrorKind, AppError, app_error, Raised, app, caused_by, Result, ok, err, raise_app,
}

pub record Migration : Type 0 where
  pub version : ℕ
  pub name : String
  pub statements : List String

pub record Database (D : Type 0) : Type 0 where
  pub user_version : ℕ
  pub content : D

-- `_validate`
abbrev pub seen_before : ℕ → List ℕ → Bool
seen_before v [] = false
seen_before v (w ∷ ws) = if v == w then true else seen_before v ws

unfoldable pub validate_loop : List ℕ → List Migration → Bool
validate_loop seen [] = true
validate_loop seen (m ∷ ms) =
    let rest = validate_loop (m.version ∷ seen) ms in
    if ltb m.version 1 then false else if seen_before m.version seen then false else rest

-- `load_migrations`, from the migrations that the directory holds, in its order.
unfoldable pub load_migrations : List Migration → Result (List Migration)
load_migrations found =
    let migrations = sorted (λ (a b : Migration). leb a.version b.version) found in
    if validate_loop [] migrations then ok migrations else err Raised.value_error

-- What a method returns or raises, and the database that it leaves.
pub record Migrated (D A : Type 0) : Type 0 where
  pub result : Result A
  pub database : Database D

unfoldable pub migration_failed : AppError → AppError
migration_failed cause =
    app_error ErrorKind.internal "storage.migration_failed" false (caused_by cause)

abbrev pub last_version : Migration → List Migration → ℕ
last_version m [] = m.version
last_version m (n ∷ ms) = last_version n ms

module _ {D : Type 0} (execute : String → D → AppError ⊎ D) where
  -- `async with db.transaction()`: the body's changes are committed, or rolled back if it raises.
  abbrev pub transaction :
      (Database D → AppError ⊎ Database D) → Database D → Option AppError × Database D
  transaction body db = elim (body db) [ inl e ↦ (some e, db) | inr after ↦ (none, after) ]

  abbrev pub execute_all : List String → D → AppError ⊎ D
  execute_all [] content = inr content
  execute_all (s ∷ ss) content = elim (execute s content) [
    | inl e ↦ inl e
    | inr after ↦ execute_all ss after
  ]

  -- The body of the transaction of `_apply`.
  unfoldable pub migration_body : Migration → Database D → AppError ⊎ Database D
  migration_body m db = elim (execute_all m.statements db.content) [
    | inl e ↦ inl e
    | inr content ↦ inr (record { user_version = m.version; content = content })
  ]

  abbrev renamed : Option AppError × Database D → Option AppError × Database D
  renamed (some e, after) = (some (migration_failed e), after)
  renamed (none, after) = (none, after)

  unfoldable pub apply_migration : Migration → Database D → Option AppError × Database D
  apply_migration m db = renamed (transaction (migration_body m) db)

  -- An error ends the loop.
  abbrev pub go_on :
      (Database D → Option AppError × Database D)
      → Option AppError × Database D
      → Option AppError × Database D
  go_on next (some e, after) = (some e, after)
  go_on next (none, after) = next after

  -- The loop of `migrate`; `current` is the version that was read before it.
  unfoldable pub migrate_loop :
      (current : ℕ) → List Migration → Database D → Option AppError × Database D
  migrate_loop current [] db = (none, db)
  migrate_loop current (m ∷ ms) db =
      let later = migrate_loop current ms db in
      let applied = go_on (migrate_loop current ms) (apply_migration m db) in
      if ltb current m.version then applied else later

  abbrev pub finish : ℕ → Option AppError × Database D → Migrated D ℕ
  finish target (none, db) = record { result = ok target; database = db }
  finish target (some e, db) = record { result = err (app e); database = db }

  unfoldable pub migrate : List Migration → Database D → Migrated D ℕ
  migrate [] db = record { result = ok db.user_version; database = db }
  migrate (m ∷ ms) db =
      let target = last_version m ms in
      if ltb target db.user_version
      then record {
        result = raise_app ErrorKind.conflict "storage.schema_downgrade";
        database = db;
      }
      else finish target (migrate_loop db.user_version (m ∷ ms) db)
