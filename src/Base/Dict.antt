-- ===== src/Base/Dict.antt =====
-- Python's `dict` with text keys, as an association list in insertion order: an update keeps the
-- place of its key, a new key goes to the end.
use Prim.Native.String.{String}
use mathlib.Core.Path.{◌≡◌}
use mathlib.Core.Bool.{Bool, true, false}
use mathlib.Core.Option.{Option, none, some}
use mathlib.Core.List.{List, [], ◌∷◌}
use native.Mathlib.Omega.{arith}
use text.Mathlib.Text.{◌==◌}
use text.Mathlib.TextEquality.{eq_iff}
use turkish_code.Base.Tests.{if◌then◌else◌}

abbrev pub Dict {ℓ} : Type ℓ → Type ℓ
Dict V = List (String × V)

module _ {ℓ} {V : Type ℓ} where
  -- `d.get(key)`
  unfoldable pub lookup : String → Dict V → Option V
  lookup key (entry ∷ rest) = if entry.0 == key then some entry.1 else lookup key rest
  lookup key [] = none

  -- `d[key] = value`
  unfoldable pub insert : String → V → Dict V → Dict V
  insert key value (entry ∷ rest) =
      let later = insert key value rest in
      if entry.0 == key then (entry.0, value) ∷ rest else entry ∷ later
  insert key value [] = (key, value) ∷ []

  -- `d.pop(key, None)`, `del d[key]` behind a membership test.
  unfoldable pub pop : String → Dict V → Dict V
  pop key (entry ∷ rest) =
      let later = pop key rest in if entry.0 == key then later else entry ∷ later
  pop key [] = []

  -- A dict after an assignment,
  pub lookup-insert :
      (key asked : String) (value : V) (d : Dict V)
      → lookup asked (insert key value d) ≡ (if key == asked then some value else lookup asked d)
  unfolding lookup insert
  lookup-insert key asked value (entry ∷ rest) = ground (
    arith,
    lookup-insert key asked value rest,
    eq_iff entry.0 key,
    eq_iff entry.0 asked,
    eq_iff key asked,
  )
  lookup-insert key asked value [] = ground arith

  -- and after a removal.
  pub lookup-pop :
      (key asked : String) (d : Dict V)
      → lookup asked (pop key d) ≡ (if key == asked then none else lookup asked d)
  unfolding lookup pop
  lookup-pop key asked (entry ∷ rest) =
      ground (
        arith,
        lookup-pop key asked rest,
        eq_iff entry.0 key,
        eq_iff entry.0 asked,
        eq_iff key asked,
      )
  lookup-pop key asked [] = ground arith

abbrev pub contains : String → List String → Bool
contains k [] = false
contains k (j ∷ js) = if j == k then true else contains k js

abbrev pub is_some {ℓ} : {A : Type ℓ} → Option A → Bool
is_some none = false
is_some (some a) = true
