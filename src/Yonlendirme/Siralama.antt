-- ===== src/Yonlendirme/Siralama.antt =====
-- Ranking and the decision: core/turkish_code/yonlendirme/scoring/combine.py and decision.py.
pub mod Laws
use turkish_code.Base.{ℕ, String, Bool, true, false, List, [], ◌∷◌, Option, none, some}
use turkish_code.Base.Dict.{lookup}
use turkish_code.Base.Order.{text_leb, then_by, sorted}
use turkish_code.Yonlendirme.Puan.{Arithmetic, ScoreBreakdown}

pub record ScoredCandidate (F : Type 0) : Type 0 where
  pub model_id : String
  pub provider_id : String
  pub model_breakdown : ScoreBreakdown F
  pub provider_breakdown : ScoreBreakdown F
  pub final_score : F

module _ {F : Type 0} (a : Arithmetic F) where
  unfoldable pub score_candidate :
      (model_id provider_id : String) (model_breakdown provider_breakdown : ScoreBreakdown F)
      → ScoredCandidate F
  score_candidate model_id provider_id model_breakdown provider_breakdown = record {
    model_id = model_id;
    provider_id = provider_id;
    model_breakdown = model_breakdown;
    provider_breakdown = provider_breakdown;
    final_score = a.times model_breakdown.total provider_breakdown.total;
  }

  -- `factors.get(name, 0.0)`
  abbrev pub factor : String → ScoreBreakdown F → F
  factor name b = elim (lookup name b.factors) [ none ↦ a.of_nat 0 | some x ↦ x ]

  abbrev pub reliability_of : ScoredCandidate F → F
  reliability_of c = factor "reliability" c.provider_breakdown

  abbrev pub cost_of : ScoredCandidate F → F
  cost_of c = factor "cost" c.model_breakdown

  -- `sort_key`: a part that is negated there is compared the other way round.
  unfoldable pub ranks_before : ScoredCandidate F → ScoredCandidate F → Bool
  ranks_before =
      then_by (λ c d. a.not_above d.final_score c.final_score)
        (then_by (λ c d. a.not_above (reliability_of d) (reliability_of c))
          (then_by (λ c d. a.not_above (cost_of d) (cost_of c))
            (then_by (λ c d. text_leb c.provider_id d.provider_id)
              (λ c d. text_leb c.model_id d.model_id))))

  unfoldable pub rank_candidates : List (ScoredCandidate F) → List (ScoredCandidate F)
  unfolding ranks_before
  rank_candidates = sorted ranks_before

pub record RoutingDecision (F : Type 0) : Type 0 where
  pub ranked_candidates : List (ScoredCandidate F)
  pub used_offline_fallback : Bool

module _ {F : Type 0} where
  unfoldable pub selected : RoutingDecision F → Option (ScoredCandidate F)
  selected d = elim d.ranked_candidates [ [] ↦ none | c ∷ cs ↦ some c ]

  unfoldable pub is_unroutable : RoutingDecision F → Bool
  is_unroutable d = elim d.ranked_candidates [ [] ↦ true | c ∷ cs ↦ false ]

  unfoldable pub build_decision :
      List (ScoredCandidate F) → Option (ScoredCandidate F) → RoutingDecision F
  build_decision (c ∷ cs) fallback = record {
    ranked_candidates = c ∷ cs;
    used_offline_fallback = false;
  }
  build_decision [] (some fallback) = record {
    ranked_candidates = fallback ∷ [];
    used_offline_fallback = true;
  }
  build_decision [] none = record { ranked_candidates = []; used_offline_fallback = false }
