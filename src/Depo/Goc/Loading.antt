-- ===== src/Depo/Goc/Loading.antt =====
-- What `load_migrations` of core/turkish_code/depo/migrate.py accepts.
use turkish_code.Base.{
  subst, Bool-cases, ℕ, ◌≤◌, ◌<◌, ◌≡◌, ◌≢◌, arith, Bool, true, inl, inr, List, [], ◌∷◌, All, leb,
}
use turkish_code.Base.Order.{sorted, IsSorted, IsPreorder, sorted-IsSorted, sorted-perm}
use turkish_code.Hata.{ok}
use turkish_code.Depo.Goc.{Migration, seen_before, validate_loop, load_migrations}
use mathlib.Core.List.{Perm}

-- Each version is below all the later ones.
abbrev pub IsAscending : List Migration → Type 0
IsAscending [] = Unit
IsAscending (m ∷ ms) = All (λ n. m.version < n.version) ms × IsAscending ms

abbrev by_version : Migration → Migration → Bool
by_version a b = leb a.version b.version

by_version-IsPreorder : IsPreorder by_version
by_version-IsPreorder = record { total = λ a b h. ground arith; trans = λ a b c h k. ground arith }

-- A version that was seen does not come again.
validate_loop-fresh :
    (v : ℕ) (seen : List ℕ) (ms : List Migration)
    → validate_loop seen ms ≡ true
    → seen_before v seen ≡ true
    → All (λ n. n.version ≢ v) ms
unfolding validate_loop
validate_loop-fresh v seen [] h s = tt
validate_loop-fresh v seen (m ∷ ms) h s = (
  λ e. ground (arith, h, s, e),
  validate_loop-fresh v (m.version ∷ seen) ms (ground (arith, h)) (ground (arith, s)),
)

All-strictly_above :
    (m : Migration) (ms : List Migration)
    → All (λ n. by_version m n ≡ true) ms
    → All (λ n. n.version ≢ m.version) ms
    → All (λ n. m.version < n.version) ms
All-strictly_above m [] a b = tt
All-strictly_above m (n ∷ ns) a b = (ground (arith, a.0, b.0), All-strictly_above m ns a.1 b.1)

validate_loop-IsAscending :
    (seen : List ℕ) (ms : List Migration)
    → validate_loop seen ms ≡ true
    → IsSorted by_version ms
    → IsAscending ms × All (λ m. 1 ≤ m.version) ms
unfolding validate_loop
validate_loop-IsAscending seen [] h s = (tt, tt)
validate_loop-IsAscending seen (m ∷ ms) h s =
    let rest : validate_loop (m.version ∷ seen) ms ≡ true = ground (arith, h) in
    let ih = validate_loop-IsAscending (m.version ∷ seen) ms rest s.1 in
    let first : seen_before m.version (m.version ∷ seen) ≡ true = ground arith in
    (
      (
        All-strictly_above m ms s.0
            (validate_loop-fresh m.version (m.version ∷ seen) ms rest first),
        ih.0,
      ),
      (ground (arith, h), ih.1),
    )

-- Migrations that load are those that were found, with versions from 1 on, each of them once, in
-- ascending order.
pub load_migrations-IsAscending :
    (found migrations : List Migration)
    → load_migrations found ≡ ok migrations
    → Perm migrations found × IsAscending migrations × All (λ m. 1 ≤ m.version) migrations
unfolding load_migrations
load_migrations-IsAscending found migrations h =
    let chosen = sorted by_version found in
    let valid = λ (e : validate_loop [] (sorted by_version found) ≡ true).
      validate_loop-IsAscending [] chosen e
        (sorted-IsSorted by_version by_version-IsPreorder found) in
    elim (Bool-cases (validate_loop [] chosen)) [
      | inl e ↦
          let same : chosen ≡ migrations = ground (arith, h, e) in
          subst (λ ms. Perm ms found × IsAscending ms × All (λ (m : Migration). 1 ≤ m.version) ms)
            same (sorted-perm by_version found, (valid e).0, (valid e).1)
      | inr e ↦ ground (arith, h, e)
    ]
