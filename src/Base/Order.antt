-- ===== src/Base/Order.antt =====
-- Python's `sorted`, which is stable, and the orders of texts and of tuples, as tests "is not above".
use Prim.Native.Char.{code}
use Prim.Native.String.{String, [] as empty, ◌∷◌ as letter}
use mathlib.Core.Path.{◌≡◌}
use mathlib.Core.Logic.{inl, inr, ◌⊎◌}
use mathlib.Core.Bool.{Bool, true, false}
use mathlib.Core.List.{List, [], ◌∷◌, Perm}
use mathlib.Core.List.Perm
use native.Mathlib.Omega.{arith}
use turkish_code.Base.Tests.{ltb, ◌==◌, if◌then◌else◌, Bool-cases}
use turkish_code.Base.Lists.{All}

-- `s <= t`, by the numbers of the characters.
unfoldable pub text_leb : String → String → Bool
text_leb empty t = true
text_leb (letter c s) empty = false
text_leb (letter c s) (letter d t) =
    let rest = text_leb s t in
    if ltb (code c) (code d) then true else if code c == code d then rest else false

-- Tuples of two parts.
abbrev pub then_by {ℓ} : {A : Type ℓ} → (A → A → Bool) → (A → A → Bool) → A → A → Bool
then_by first later a b = if first a b then (if first b a then later a b else true) else false

-- Two members are in order, one way or the other; and so are the ends of two steps.
pub record IsPreorder {ℓ} {A : Type ℓ} (le : A → A → Bool) : Type ℓ where
  pub total : (a b : A) → le a b ≡ false → le b a ≡ true
  pub trans : (a b c : A) → le a b ≡ true → le b c ≡ true → le a c ≡ true

text_leb_total : (s t : String) → text_leb s t ≡ false → text_leb t s ≡ true
unfolding text_leb
text_leb_total (letter c s) (letter d t) h = ground (arith, text_leb_total s t)
text_leb_total empty t h = ground arith
text_leb_total (letter c s) empty h = ground arith

text_leb_trans : (s t u : String) → text_leb s t ≡ true → text_leb t u ≡ true → text_leb s u ≡ true
unfolding text_leb
text_leb_trans empty t u h k = ground arith
text_leb_trans (letter c s) empty u h k = ground arith
text_leb_trans (letter c s) (letter d t) empty h k = ground arith
text_leb_trans (letter c s) (letter d t) (letter e u) h k = ground (arith, text_leb_trans s t u)

pub text_leb-IsPreorder : IsPreorder text_leb
text_leb-IsPreorder = record { total = text_leb_total; trans = text_leb_trans }

module _ {ℓ} {A : Type ℓ} where
  -- Where a pair of keys puts one before the other: by the first, or on a tie there by the later.
  pub then_by-cases :
      (first later : A → A → Bool) (a b : A)
      → then_by first later a b ≡ true
      → (first b a ≡ false) ⊎ ((first a b ≡ true) × (first b a ≡ true) × (later a b ≡ true))
  then_by-cases first later a b h = elim (Bool-cases (first b a)) [
    | inr e ↦ inl e
    | inl e ↦ inr (ground (arith, h), e, ground (arith, h, e))
  ]

  pub then_by-IsPreorder :
      (first later : A → A → Bool)
      → IsPreorder first
      → IsPreorder later
      → IsPreorder (then_by first later)
  then_by-IsPreorder first later f l = record {
    total = λ a b h. ground (arith, f.total a b, l.total a b);
    trans = λ a b c h k. ground (arith, f.trans a b c, f.trans b c a, f.trans c a b, l.trans a b c);
  }

  -- The order of a key, rising or falling.
  pub key-IsPreorder {κ} :
      {K : Type κ} (le : K → K → Bool) (key : A → K)
      → IsPreorder le
      → IsPreorder (λ a b. le (key a) (key b))
  key-IsPreorder le key p = record {
    total = λ a b. p.total (key a) (key b);
    trans = λ a b c. p.trans (key a) (key b) (key c);
  }

  pub falling-IsPreorder {κ} :
      {K : Type κ} (le : K → K → Bool) (key : A → K)
      → IsPreorder le
      → IsPreorder (λ a b. le (key b) (key a))
  falling-IsPreorder le key p = record {
    total = λ a b. p.total (key b) (key a);
    trans = λ a b c h k. p.trans (key c) (key b) (key a) k h;
  }

module _ {ℓ} {A : Type ℓ} (le : A → A → Bool) where
  unfoldable pub insert_sorted : A → List A → List A
  insert_sorted x [] = x ∷ []
  insert_sorted x (y ∷ ys) =
      let later = insert_sorted x ys in if le x y then x ∷ y ∷ ys else y ∷ later

  -- `sorted`: an element goes before those that it is not above, so equal ones keep their order.
  unfoldable pub sorted : List A → List A
  sorted [] = []
  sorted (x ∷ xs) = insert_sorted x (sorted xs)

  -- Every member is not above the later ones.
  abbrev pub IsSorted : List A → Type ℓ
  IsSorted [] = Unit
  IsSorted (x ∷ xs) = All (λ y. le x y ≡ true) xs × IsSorted xs

  All-insert_sorted {κ} :
      (IsGood : A → Type κ) (x : A) (xs : List A)
      → IsGood x
      → All IsGood xs
      → All IsGood (insert_sorted x xs)
  unfolding insert_sorted
  All-insert_sorted IsGood x [] good all = (good, tt)
  All-insert_sorted IsGood x (y ∷ ys) good all = elim (Bool-cases (le x y)) [
    | inl e ↦ rw (e, insert_sorted) (good, all)
    | inr e ↦ rw (e, insert_sorted) (all.0, All-insert_sorted IsGood x ys good all.1)
  ]

  pub All-sorted {κ} : (IsGood : A → Type κ) (xs : List A) → All IsGood xs → All IsGood (sorted xs)
  unfolding sorted
  All-sorted IsGood [] all = tt
  All-sorted IsGood (x ∷ xs) all =
      All-insert_sorted IsGood x (sorted xs) all.0 (All-sorted IsGood xs all.1)

  insert_sorted-perm : (x : A) (xs : List A) → Perm (insert_sorted x xs) (x ∷ xs)
  unfolding insert_sorted
  insert_sorted-perm x [] = Perm.rfl
  insert_sorted-perm x (y ∷ ys) = elim (Bool-cases (le x y)) [
    | inl e ↦ rw (e, insert_sorted) Perm.rfl
    | inr e ↦
        rw (e, insert_sorted)
          (Perm.trans (Perm.cons y (insert_sorted-perm x ys)) (Perm.swap x y ys))
  ]

  pub sorted-perm : (xs : List A) → Perm (sorted xs) xs
  unfolding sorted
  sorted-perm [] = Perm.rfl
  sorted-perm (x ∷ xs) =
      Perm.trans (insert_sorted-perm x (sorted xs)) (Perm.cons x (sorted-perm xs))

module _ {ℓ} {A : Type ℓ} (le : A → A → Bool) (order : IsPreorder le) where
  below-All :
      (x y : A) (ys : List A)
      → le x y ≡ true
      → All (λ z. le y z ≡ true) ys
      → All (λ z. le x z ≡ true) ys
  below-All x y [] h all = tt
  below-All x y (z ∷ zs) h all = (order.trans x y z h all.0, below-All x y zs h all.1)

  insert_sorted-IsSorted :
      (x : A) (xs : List A) → IsSorted le xs → IsSorted le (insert_sorted le x xs)
  unfolding insert_sorted
  insert_sorted-IsSorted x [] h = (tt, tt)
  insert_sorted-IsSorted x (y ∷ ys) h = elim (Bool-cases (le x y)) [
    | inl e ↦ rw (e, insert_sorted) ((e, below-All x y ys e h.0), h)
    | inr e ↦
        rw (e, insert_sorted)
          (
            All-insert_sorted le (λ z. le y z ≡ true) x ys (order.total x y e) h.0,
            insert_sorted-IsSorted x ys h.1,
          )
  ]

  pub sorted-IsSorted : (xs : List A) → IsSorted le (sorted le xs)
  unfolding sorted
  sorted-IsSorted [] = tt
  sorted-IsSorted (x ∷ xs) = insert_sorted-IsSorted x (sorted le xs) (sorted-IsSorted xs)
