-- ===== src/Yonlendirme/Yonlendirici/Laws.antt =====
-- What the decision of core/turkish_code/yonlendirme/router.py holds.
use turkish_code.Base.{
  ℕ, ◌≡◌, arith, String, Bool, true, inl, inr, List, [], ◌∷◌, Option, none, some, map, filter, All,
  Bool-cases, eq_iff, eq_refl, if◌then◌else◌, str_eq, ◌&&◌,
}
use turkish_code.Base.Dict.{is_some}
use turkish_code.Base.Order.{All-sorted}
use turkish_code.Yonlendirme.Yetenek.{CapabilityNeed}
use turkish_code.Yonlendirme.Kota.{QuotaStore}
use turkish_code.Yonlendirme.Adaylar.{Served, CandidateSet}
use turkish_code.Yonlendirme.Puan.{
  Arithmetic, ModelWeights, CostMode, HealthStatus, BenchmarkStore, weights_for_mode,
}
use turkish_code.Yonlendirme.Siralama.{
  ScoredCandidate, rank_candidates, build_decision, ranks_before, score_candidate,
}
use turkish_code.Yonlendirme.Dayaniklilik.{Candidate, Candidates, candidate_at}
use turkish_code.Yonlendirme.Yonlendirici.{
  put_candidate, key_of, put_served, put_all, put_fallback, score, is_healthy, ranked_primaries,
  scored_fallback, decide,
}

-- The predicate holds of what is there.
abbrev OnSome : {A : Type 0} → (A → Type 0) → Option A → Type 0
OnSome IsGood none = Unit
OnSome IsGood (some x) = IsGood x

-- The key has a candidate.
abbrev pub IsKnown : Candidates → String × String → Type 0
IsKnown entries k = is_some (candidate_at k entries) ≡ true

candidate_at-put_candidate :
    (k j : String × String) (c : Candidate) (entries : Candidates)
    → candidate_at j (put_candidate k c entries)
      ≡ (if str_eq k.0 j.0 && str_eq k.1 j.1 then some c else candidate_at j entries)
unfolding candidate_at put_candidate
candidate_at-put_candidate k j c [] = ground arith
candidate_at-put_candidate k j c (entry ∷ rest) = ground (
  arith,
  candidate_at-put_candidate k j c rest,
  eq_iff entry.0.0 k.0,
  eq_iff entry.0.1 k.1,
  eq_iff entry.0.0 j.0,
  eq_iff entry.0.1 j.1,
  eq_iff k.0 j.0,
  eq_iff k.1 j.1,
)

IsKnown-put_candidate :
    (k j : String × String) (c : Candidate) (entries : Candidates)
    → IsKnown entries j
    → IsKnown (put_candidate k c entries) j
IsKnown-put_candidate k j c entries h = ground (arith, candidate_at-put_candidate k j c entries)

IsKnown-put_candidate_self :
    (k : String × String) (c : Candidate) (entries : Candidates)
    → IsKnown (put_candidate k c entries) k
IsKnown-put_candidate_self k c entries =
    ground (arith, candidate_at-put_candidate k k c entries, eq_refl k.0, eq_refl k.1)

IsKnown-put_all :
    (cs : List Served) (j : String × String) (entries : Candidates)
    → IsKnown entries j
    → IsKnown (put_all cs entries) j
IsKnown-put_all [] j entries h = h
IsKnown-put_all (c ∷ cs) j entries h =
    IsKnown-put_all cs j (put_served c entries) (IsKnown-put_candidate (key_of c) j _ entries h)

All-put_all :
    (cs : List Served) (entries : Candidates)
    → All (λ c. IsKnown (put_all cs entries) (key_of c)) cs
All-put_all [] entries = tt
All-put_all (c ∷ cs) entries = (
  IsKnown-put_all cs (key_of c) (put_served c entries)
      (IsKnown-put_candidate_self (key_of c) _ entries),
  All-put_all cs (put_served c entries),
)

module _ {F : Type 0} (a : Arithmetic F) (health : Served → HealthStatus) (now : Served → ℕ)
    (reliability : String → F) (window : ℕ) (need : CapabilityNeed) (quota : QuotaStore)
    (benchmarks : BenchmarkStore F) where
  abbrev scored : ModelWeights F → Served → ScoredCandidate F
  scored = score a health now reliability window need quota benchmarks

  -- The ids of a scored candidate name an entry.
  abbrev pub IsListed : Candidates → ScoredCandidate F → Type 0
  IsListed entries s = IsKnown entries (s.provider_id, s.model_id)

  abbrev healthy : ScoredCandidate F → Bool
  healthy = is_healthy a health now reliability window need quota benchmarks

  score-IsListed :
      (entries : Candidates) (weights : ModelWeights F) (c : Served)
      → IsKnown entries (key_of c)
      → IsListed entries (scored weights c)
  unfolding score score_candidate
  score-IsListed entries weights c h = h

  healthy-IsListed :
      (entries : Candidates) (weights : ModelWeights F) (cs : List Served)
      → All (λ c. IsKnown entries (key_of c)) cs
      → All (IsListed entries) (filter healthy (map (scored weights) cs))
  healthy-IsListed entries weights [] all = tt
  healthy-IsListed entries weights (c ∷ cs) all = elim (Bool-cases (healthy (scored weights c))) [
    | inl e ↦
        rw e (score-IsListed entries weights c all.0, healthy-IsListed entries weights cs all.1)
    | inr e ↦ rw e (healthy-IsListed entries weights cs all.1)
  ]

  ranked_primaries-IsListed :
      (entries : Candidates) (weights : ModelWeights F) (cs : List Served)
      → All (λ c. IsKnown entries (key_of c)) cs
      → All
          (IsListed entries)
          (ranked_primaries a health now reliability window need quota benchmarks weights cs)
  unfolding rank_candidates
  ranked_primaries-IsListed entries weights cs all =
      All-sorted (ranks_before a) (IsListed entries) _ (healthy-IsListed entries weights cs all)

  build_decision-IsListed :
      (entries : Candidates) (ranked : List (ScoredCandidate F))
      (fallback : Option (ScoredCandidate F))
      → All (IsListed entries) ranked
      → OnSome (IsListed entries) fallback
      → All (IsListed entries) (build_decision ranked fallback).ranked_candidates
  unfolding build_decision
  build_decision-IsListed entries (s ∷ ss) fallback all h = all
  build_decision-IsListed entries [] (some s) all h = (h, tt)
  build_decision-IsListed entries [] none all h = tt

  All-put_fallback :
      (cs served : List Served) (fallback : Option Served)
      → All (λ c. IsKnown (put_all cs []) (key_of c)) served
      → All (λ c. IsKnown (put_fallback fallback (put_all cs [])) (key_of c)) served
  All-put_fallback cs served none all = all
  All-put_fallback cs [] (some f) all = tt
  All-put_fallback cs (c ∷ later) (some f) all = (
    IsKnown-put_candidate (key_of f) (key_of c) _ (put_all cs []) all.0,
    All-put_fallback cs later (some f) all.1,
  )

  fallback-IsListed :
      (entries : Candidates) (weights : ModelWeights F) (fallback : Option Served)
      → OnSome
          (IsListed (put_fallback fallback entries))
          (scored_fallback a health now reliability window need quota benchmarks weights fallback)
  fallback-IsListed entries weights none = tt
  fallback-IsListed entries weights (some f) =
      score-IsListed (put_served f entries) weights f
        (IsKnown-put_candidate_self (key_of f) _ entries)

  pub decide-IsListed :
      (mode : CostMode) (set : CandidateSet)
      → let d = decide a health now reliability window need quota benchmarks mode set in
        All (IsListed d.1) d.0.ranked_candidates
  decide-IsListed mode set =
      let weights = weights_for_mode a mode in
      let primaries = put_all set.primaries [] in
      let entries = put_fallback set.offline_fallback primaries in
      build_decision-IsListed entries _ _
        (ranked_primaries-IsListed entries weights set.primaries (
          All-put_fallback set.primaries set.primaries set.offline_fallback
            (All-put_all set.primaries [])))
        (fallback-IsListed primaries weights set.offline_fallback)
