-- ===== src/Yonlendirme/Yonlendirici.antt =====
-- The router: `select` of core/turkish_code/yonlendirme/router.py. The health checks of the
-- providers, the reliability and the clock are parameters of the section.
pub mod Laws
pub mod Routed
use turkish_code.Base.{
  ℕ, zero, suc, String, Bool, not, List, [], ◌∷◌, Option, none, some, map, filter, str_eq, ◌&&◌,
  if◌then◌else◌,
}
use turkish_code.Base.Dict.{Dict}
use turkish_code.Hata.{Result, ok, ◌>>=◌}
use turkish_code.Yonlendirme.Yetenek.{CapabilityNeed}
use turkish_code.Yonlendirme.Kota.{
  QuotaStore, usage_in_window, is_cooling_down, compute_quota_state,
}
use turkish_code.Yonlendirme.Adaylar.{
  ModelInfo, Provider, ProviderManager, Served, CandidateSet, generate_candidates,
}
use turkish_code.Yonlendirme.Puan.{
  Arithmetic, PerformanceProfile, ModelWeights, ModelScoreInputs, CostMode, HealthStatus,
  BenchmarkStore, benchmark_get, weights_for_mode, model_score, provider_score, soft_fit,
  seed_quality, average, smaller,
}
use turkish_code.Yonlendirme.Siralama.{
  ScoredCandidate, RoutingDecision, score_candidate, rank_candidates, build_decision, factor,
}
use turkish_code.Yonlendirme.Dayaniklilik.{Candidate, Candidates}

-- `lookup[...] = candidate`
unfoldable pub put_candidate : String × String → Candidate → Candidates → Candidates
put_candidate k c [] = (k, c) ∷ []
put_candidate k c (entry ∷ rest) =
    let later = put_candidate k c rest in
    if str_eq entry.0.0 k.0 && str_eq entry.0.1 k.1 then (entry.0, c) ∷ rest else entry ∷ later

-- The failover reads the ids of a candidate; its call of `chat` goes to what they name.
abbrev pub key_of : Served → String × String
key_of c = (c.server.id, c.model.id)

abbrev pub put_served : Served → Candidates → Candidates
put_served c =
    put_candidate (key_of c) (record { provider_id = c.server.id; model_id = c.model.id })

abbrev pub put_all : List Served → Candidates → Candidates
put_all [] entries = entries
put_all (c ∷ cs) entries = put_all cs (put_served c entries)

abbrev pub put_fallback : Option Served → Candidates → Candidates
put_fallback none entries = entries
put_fallback (some c) entries = put_served c entries

module _ {F : Type 0} (a : Arithmetic F) where
  unfoldable pub model_inputs :
      ModelInfo → CapabilityNeed → Option (PerformanceProfile F) → ModelScoreInputs F
  model_inputs model need profile =
      let fit_values = map (λ (f : String × F). f.1) (soft_fit a model.capabilities need) in
      record {
        capability_fit = average a fit_values;
        quality = elim profile [ none ↦ seed_quality a model.capabilities | some p ↦ p.quality ];
        turkish_quality = a.over (a.of_nat model.capabilities.multilingual_tr) (a.of_nat 2);
        latency =
            a.over
              (a.of_nat (elim profile [
                | none ↦ model.capabilities.latency_class
                | some p ↦ p.latency_class
              ]))
              (a.of_nat 2);
        cost = a.over (a.of_nat model.capabilities.cost_class) (a.of_nat 3);
        context_fit = elim need.context_window [
          | none ↦ a.of_nat 1
          | some r ↦ elim r.value [
            | zero ↦ a.of_nat 1
            | suc n ↦
                smaller a (a.of_nat 1) (a.over (a.of_nat model.context_window) (a.of_nat (suc n)))
          ]
        ];
      }

module _ {F : Type 0} (a : Arithmetic F) (health : Served → HealthStatus) (now : Served → ℕ)
    (reliability : String → F) (window : ℕ) (need : CapabilityNeed) (quota : QuotaStore)
    (benchmarks : BenchmarkStore F) where
  -- `_score`; `health` and `now` are what the provider and the clock answer while it runs.
  unfoldable pub score : ModelWeights F → Served → ScoredCandidate F
  score weights c =
      let profile = benchmark_get c.server.id c.model.id benchmarks in
      let usage = usage_in_window (now c) window c.server.id quota in
      let cooling = is_cooling_down (now c) c.server.id quota in
      score_candidate a c.model.id c.server.id
        (model_score a (model_inputs a c.model need profile) weights)
        (provider_score a (record {
          health = health c;
          quota = compute_quota_state c.server.quota_limits usage cooling;
          reliability = reliability c.server.id;
        }))

  abbrev pub is_healthy : ScoredCandidate F → Bool
  is_healthy s = not (a.not_above (factor a "health" s.provider_breakdown) (a.of_nat 0))

  abbrev pub ranked_primaries : ModelWeights F → List Served → List (ScoredCandidate F)
  ranked_primaries weights primaries =
      rank_candidates a (filter is_healthy (map (score weights) primaries))

  abbrev pub scored_fallback : ModelWeights F → Option Served → Option (ScoredCandidate F)
  scored_fallback weights none = none
  scored_fallback weights (some c) = some (score weights c)

  -- What `select` makes of the candidates.
  abbrev pub decide : CostMode → CandidateSet → RoutingDecision F × Candidates
  decide mode set =
      let weights = weights_for_mode a mode in
      (
        build_decision (ranked_primaries weights set.primaries)
            (scored_fallback weights set.offline_fallback),
        put_fallback set.offline_fallback (put_all set.primaries []),
      )

  unfoldable pub select :
      ProviderManager → CostMode → (generated_at : ℕ) → Result (RoutingDecision F × Candidates)
  select manager mode generated_at =
      generate_candidates manager need generated_at quota >>= λ set. ok (decide mode set)
