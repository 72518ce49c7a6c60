-- ===== src/Depo/Goc/Steps.antt =====
-- What a run of the loop of core/turkish_code/depo/migrate.py leaves when a migration fails.
use turkish_code.Base.{
  not-lt→ltb, ℕ, ◌≤◌, ◌<◌, ◌≡◌, refl, ap, arith, inl, inr, List, [], ◌∷◌, ◌++◌, Option, none, some,
  All, filter, ltb, ◌⊎◌, String, Bool-cases,
}
use turkish_code.Hata.{AppError}
use turkish_code.Depo.Goc.{Migration, Database, migration_body, apply_migration, migrate_loop}
use turkish_code.Depo.Goc.Loading.{IsAscending}

-- The migrations above a version.
abbrev pub pending : ℕ → List Migration → List Migration
pending v ms = filter (λ m. ltb v m.version) ms

-- Between the version read before the loop and the one reached lies no migration to come.
abbrev pub Between : ℕ → ℕ → List Migration → Type 0
Between current reached ms = All (λ m. ltb current m.version ≡ ltb reached m.version) ms

pub Between-next :
    (current : ℕ) (m : Migration) (ms : List Migration)
    → current < m.version
    → All (λ n. m.version < n.version) ms
    → Between current m.version ms
Between-next current m [] h all = tt
Between-next current m (n ∷ ns) h all =
    (ground (arith, h, all.0), Between-next current m ns h all.1)

pending-Between :
    (current reached : ℕ) (ms : List Migration)
    → Between current reached ms
    → pending reached ms ≡ pending current ms
pending-Between current reached [] h = refl
pending-Between current reached (m ∷ ms) h =
    ground (arith, h.0, pending-Between current reached ms h.1)

-- A migration that is not above the version reached is not pending.
pub pending-below :
    (v : ℕ) (m : Migration) (ms todo : List Migration)
    → m.version ≤ v
    → pending v ms ≡ todo
    → pending v (m ∷ ms) ≡ todo
pending-below v m ms todo h e = ground (arith, not-lt→ltb v m.version h, e)

module _ {D : Type 0} (execute : String → D → AppError ⊎ D) where
  -- The migrations are applied one after the other, each as a whole.
  pub data Applies : List Migration → Database D → Database D → Type 0 where
    applies_none : (db : Database D) → Applies [] db db
    applies_one :
        (m : Migration) (ms : List Migration) (db mid after : Database D)
        → apply_migration execute m db ≡ (none, mid)
        → Applies ms mid after
        → Applies (m ∷ ms) db after

  -- A run over `todo` that ended with an error: it stands right before the migration that failed.
  pub record Stopped (todo ms : List Migration) (db after : Database D) (e : AppError)
      : Type 0 where
    pub done : List Migration
    pub failed : Migration
    pub rest : List Migration
    pub splits : todo ≡ done ++ failed ∷ rest
    pub applied : Applies done db after
    pub fails : apply_migration execute failed after ≡ (some e, after)
    pub resumes : pending after.user_version ms ≡ failed ∷ rest
    pub later : db.user_version ≤ after.user_version

  -- A run over `todo` that came to its end.
  pub record Completed (todo ms : List Migration) (db after : Database D) : Type 0 where
    pub applied : Applies todo db after
    pub nothing_left : pending after.user_version ms ≡ []
    pub later : db.user_version ≤ after.user_version
    pub bounded :
        (t : ℕ) → db.user_version ≤ t → All (λ m. m.version ≤ t) ms → after.user_version ≤ t

  pub apply_migration-version :
      (m : Migration) (db mid : Database D)
      → apply_migration execute m db ≡ (none, mid)
      → mid.user_version ≡ m.version
  unfolding apply_migration migration_body
  apply_migration-version m db mid h = ground (arith, h)

  apply_migration-failed :
      (m : Migration) (db mid : Database D) (e : AppError)
      → apply_migration execute m db ≡ (some e, mid)
      → mid ≡ db
  unfolding apply_migration migration_body
  apply_migration-failed m db mid e h = ground (arith, h)

  pub Applied-cases :
      (x : Option AppError × Database D)
      → ((mid : Database D) × (x ≡ (none, mid)))
        ⊎ ((e : AppError) × (mid : Database D) × (x ≡ (some e, mid)))
  Applied-cases (none, mid) = inl (mid, refl)
  Applied-cases (some e, mid) = inr (e, mid, refl)

  pub loop-Stopped :
      (current : ℕ) (ms : List Migration) (db after : Database D) (e : AppError)
      → IsAscending ms
      → Between current db.user_version ms
      → migrate_loop execute current ms db ≡ (some e, after)
      → Stopped (pending current ms) ms db after e
  unfolding migrate_loop
  loop-Stopped current [] db after e asc btw h = ground (arith, h)
  loop-Stopped current (m ∷ ms) db after e asc btw h = elim (Bool-cases (ltb current m.version)) [
    | inr old ↦
        let ih = loop-Stopped current ms db after e asc.1 btw.1 (ground (arith, h, old)) in
        record {
          done = ih.done;
          failed = ih.failed;
          rest = ih.rest;
          splits = rw old ih.splits;
          applied = ih.applied;
          fails = ih.fails;
          resumes =
              pending-below after.user_version m ms _ (ground (arith, old, btw.0, ih.later))
                ih.resumes;
          later = ih.later;
        }
    | inl new ↦ elim (Applied-cases (apply_migration execute m db)) [
      | inl (mid, a) ↦
          let v = apply_migration-version m db mid a in
          let ih =
            loop-Stopped current ms mid after e asc.1
              (rw v (Between-next current m ms (ground (arith, new)) asc.0))
              (ground (arith, h, new, a)) in
          record {
            done = m ∷ ih.done;
            failed = ih.failed;
            rest = ih.rest;
            splits = rw new (ap (λ l. m ∷ l) ih.splits);
            applied = applies_one m ih.done db mid after a ih.applied;
            fails = ih.fails;
            resumes =
                pending-below after.user_version m ms _ (ground (arith, v, ih.later)) ih.resumes;
            later = ground (arith, new, btw.0, v, ih.later);
          }
      | inr (e', mid, a) ↦
          let same = apply_migration-failed m db mid e' a in
          let here : after ≡ db = ground (arith, h, new, a, same) in
          let code : e ≡ e' = ground (arith, h, new, a) in
          record {
            done = [];
            failed = m;
            rest = pending current ms;
            splits = rw new refl;
            applied = rw here (applies_none db);
            fails = ground (arith, a, here, code, same);
            resumes =
                ground (arith, here, btw.0, new, pending-Between current db.user_version ms btw.1);
            later = ground (arith, here);
          }
    ]
  ]
