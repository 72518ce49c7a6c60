-- ===== src/Yonlendirme/Siralama/Laws.antt =====
-- How core/turkish_code/yonlendirme/scoring/combine.py orders the candidates.
use turkish_code.Base.{
  Bool, List, [], ◌∷◌, String, none, some, ◌≡◌, true, false, inl, inr, All, All-map,
}
use turkish_code.Base.Dict.{lookup}
use turkish_code.Base.Order.{
  IsPreorder, IsSorted, then_by, then_by-cases, text_leb, text_leb-IsPreorder, then_by-IsPreorder,
  key-IsPreorder, falling-IsPreorder, sorted-perm, sorted-IsSorted,
}
use turkish_code.Yonlendirme.Puan.{Arithmetic, ScoreBreakdown}
use turkish_code.Yonlendirme.Siralama.{
  ScoredCandidate, ranks_before, rank_candidates, reliability_of, cost_of,
}
use mathlib.Core.List.{Perm}

module _ {F : Type 0} (a : Arithmetic F) where
  -- What a breakdown says under a name; 0 where it says nothing.
  abbrev pub named : String → ScoreBreakdown F → F
  named name b = elim (lookup name b.factors) [ none ↦ a.of_nat 0 | some x ↦ x ]

  abbrev pub Above : F → F → Type 0
  Above x y = a.not_above x y ≡ false

  -- Neither is above the other.
  abbrev pub Tied : F → F → Type 0
  Tied x y = (a.not_above y x ≡ true) × (a.not_above x y ≡ true)

  abbrev pub provider_reliability : ScoredCandidate F → F
  provider_reliability c = named "reliability" c.provider_breakdown

  abbrev pub model_cost : ScoredCandidate F → F
  model_cost c = named "cost" c.model_breakdown

  -- Why one candidate stands before another.
  pub data Outranks (c d : ScoredCandidate F) : Type 0 where
    by_score : Above c.final_score d.final_score → Outranks c d
    by_reliability :
        Tied c.final_score d.final_score
        → Above (provider_reliability c) (provider_reliability d)
        → Outranks c d
    by_cost :
        Tied c.final_score d.final_score
        → Tied (provider_reliability c) (provider_reliability d)
        → Above (model_cost c) (model_cost d)
        → Outranks c d
    by_provider :
        Tied c.final_score d.final_score
        → Tied (provider_reliability c) (provider_reliability d)
        → Tied (model_cost c) (model_cost d)
        → text_leb d.provider_id c.provider_id ≡ false
        → Outranks c d
    by_model :
        Tied c.final_score d.final_score
        → Tied (provider_reliability c) (provider_reliability d)
        → Tied (model_cost c) (model_cost d)
        → (text_leb c.provider_id d.provider_id ≡ true)
          × (text_leb d.provider_id c.provider_id ≡ true)
        → text_leb c.model_id d.model_id ≡ true
        → Outranks c d

  abbrev pub IsBestFirst : List (ScoredCandidate F) → Type 0
  IsBestFirst [] = Unit
  IsBestFirst (c ∷ cs) = All (Outranks c) cs × IsBestFirst cs

module _ {F : Type 0} (a : Arithmetic F) (order : IsPreorder a.not_above) where
  ranks_before-IsPreorder : IsPreorder (ranks_before a)
  unfolding ranks_before
  ranks_before-IsPreorder =
      then_by-IsPreorder _ _
        (falling-IsPreorder a.not_above (λ (c : ScoredCandidate F). c.final_score) order)
        (then_by-IsPreorder _ _ (falling-IsPreorder a.not_above (reliability_of a) order) (
          then_by-IsPreorder _ _ (falling-IsPreorder a.not_above (cost_of a) order) (
            then_by-IsPreorder _ _
              (key-IsPreorder text_leb (λ (c : ScoredCandidate F). c.provider_id)
                text_leb-IsPreorder)
              (key-IsPreorder text_leb (λ (c : ScoredCandidate F). c.model_id)
                text_leb-IsPreorder))))

  -- The parts of the sort key, and what is left of it behind each.
  abbrev by_model_id : ScoredCandidate F → ScoredCandidate F → Bool
  by_model_id c d = text_leb c.model_id d.model_id

  abbrev by_provider_id : ScoredCandidate F → ScoredCandidate F → Bool
  by_provider_id c d = text_leb c.provider_id d.provider_id

  abbrev falling_cost : ScoredCandidate F → ScoredCandidate F → Bool
  falling_cost c d = a.not_above (model_cost a d) (model_cost a c)

  abbrev falling_reliability : ScoredCandidate F → ScoredCandidate F → Bool
  falling_reliability c d = a.not_above (provider_reliability a d) (provider_reliability a c)

  abbrev falling_score : ScoredCandidate F → ScoredCandidate F → Bool
  falling_score c d = a.not_above d.final_score c.final_score

  abbrev then_provider : ScoredCandidate F → ScoredCandidate F → Bool
  then_provider = then_by by_provider_id by_model_id

  abbrev then_cost : ScoredCandidate F → ScoredCandidate F → Bool
  then_cost = then_by falling_cost then_provider

  abbrev then_reliability : ScoredCandidate F → ScoredCandidate F → Bool
  then_reliability = then_by falling_reliability then_cost

  ranks_before-Outranks : (c d : ScoredCandidate F) → ranks_before a c d ≡ true → Outranks a c d
  unfolding ranks_before
  ranks_before-Outranks c d h = elim (then_by-cases falling_score then_reliability c d h) [
    | inl e ↦ by_score e
    | inr (s, s', h1) ↦ elim (then_by-cases falling_reliability then_cost c d h1) [
      | inl e ↦ by_reliability (s, s') e
      | inr (r, r', h2) ↦ elim (then_by-cases falling_cost then_provider c d h2) [
        | inl e ↦ by_cost (s, s') (r, r') e
        | inr (k, k', h3) ↦ elim (then_by-cases by_provider_id by_model_id c d h3) [
          | inl e ↦ by_provider (s, s') (r, r') (k, k') e
          | inr (p, p', h4) ↦ by_model (s, s') (r, r') (k, k') (p, p') h4
        ]
      ]
    ]
  ]

  IsSorted-IsBestFirst :
      (cs : List (ScoredCandidate F)) → IsSorted (ranks_before a) cs → IsBestFirst a cs
  IsSorted-IsBestFirst [] s = tt
  IsSorted-IsBestFirst (c ∷ cs) s =
      (All-map _ _ cs (λ d h. ranks_before-Outranks c d h) s.0, IsSorted-IsBestFirst cs s.1)

  -- Where the scores are ordered, ranking rearranges the candidates so that each one outranks all
  -- the later ones: its final score is above the other's; or on a tie there, the reliability of its
  -- provider is; or on a further tie, the cost factor of its model is; then the provider's id
  -- decides, which comes first as a text, then the model's id.
  pub rank_candidates-IsSorted :
      (cs : List (ScoredCandidate F))
      → Perm (rank_candidates a cs) cs × IsBestFirst a (rank_candidates a cs)
  unfolding rank_candidates
  rank_candidates-IsSorted cs = (
    sorted-perm (ranks_before a) cs,
    IsSorted-IsBestFirst _ (sorted-IsSorted (ranks_before a) ranks_before-IsPreorder cs),
  )
