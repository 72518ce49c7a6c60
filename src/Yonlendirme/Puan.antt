-- ===== src/Yonlendirme/Puan.antt =====
-- Scores: core/turkish_code/yonlendirme/scoring (weights.py, model_score.py, provider_score.py),
-- `soft_fit` of capability/match.py, and the benchmark profile that a score reads.
use turkish_code.Base.{
  ℕ, zero, suc, String, Bool, List, [], ◌∷◌, Option, none, some, map, if◌then◌else◌, length, str_eq,
  ◌&&◌,
}
use turkish_code.Base.Dict.{Dict}
use turkish_code.Yonlendirme.Yetenek.{
  CapabilitySet, CapabilityNeed, Requirement, Role, same_role, same_flag,
}
use turkish_code.Yonlendirme.Kota.{Fraction, CooldownState, ProviderQuotaState}

-- Python's `float`: what the scores are made of.
pub record Arithmetic (F : Type 0) : Type 0 where
  pub of_nat : ℕ → F
  pub plus : F → F → F
  pub times : F → F → F
  pub over : F → F → F
  pub not_above : F → F → Bool

pub record ScoreBreakdown (F : Type 0) : Type 0 where
  pub factors : Dict F
  pub total : F

pub record ModelWeights (F : Type 0) : Type 0 where
  pub capability_fit : F
  pub quality : F
  pub turkish_quality : F
  pub latency : F
  pub cost : F
  pub context_fit : F

pub record ModelScoreInputs (F : Type 0) : Type 0 where
  pub capability_fit : F
  pub quality : F
  pub turkish_quality : F
  pub latency : F
  pub cost : F
  pub context_fit : F

pub data CostMode : Type 0 where
  performance balanced economy : CostMode

pub data HealthStatus : Type 0 where
  up degraded cooling_down down : HealthStatus

pub record ProviderScoreInputs (F : Type 0) : Type 0 where
  pub health : HealthStatus
  pub quota : ProviderQuotaState
  pub reliability : F

-- `PerformanceProfile` of benchmark/profile.py, with the score of its `QualitySignal`.
pub record PerformanceProfile (F : Type 0) : Type 0 where
  pub latency_class : ℕ
  pub quality : F

module _ {F : Type 0} (a : Arithmetic F) where
  abbrev decimal : ℕ → ℕ → F
  decimal n d = a.over (a.of_nat n) (a.of_nat d)

  unfoldable pub weights_for_mode : CostMode → ModelWeights F
  weights_for_mode performance = record {
    capability_fit = a.of_nat 1;
    quality = a.of_nat 1;
    turkish_quality = a.of_nat 1;
    latency = a.of_nat 1;
    cost = decimal 1 10;
    context_fit = decimal 1 2;
  }
  weights_for_mode balanced = record {
    capability_fit = a.of_nat 1;
    quality = a.of_nat 1;
    turkish_quality = a.of_nat 1;
    latency = a.of_nat 1;
    cost = a.of_nat 1;
    context_fit = a.of_nat 1;
  }
  weights_for_mode economy = record {
    capability_fit = a.of_nat 1;
    quality = decimal 1 2;
    turkish_quality = decimal 1 2;
    latency = decimal 1 2;
    cost = a.of_nat 1;
    context_fit = decimal 1 2;
  }

  -- `sum`
  abbrev pub sum_all : List F → F
  sum_all xs = sum_from (a.of_nat 0) xs
    where
      sum_from : F → List F → F
      sum_from acc [] = acc
      sum_from acc (x ∷ xs) = sum_from (a.plus acc x) xs

  abbrev pub smaller : F → F → F
  smaller x y = if a.not_above x y then x else y

  abbrev pub average : List F → F
  average [] = a.of_nat 1
  average (x ∷ xs) = a.over (sum_all (x ∷ xs)) (a.of_nat (length (x ∷ xs)))

  abbrev named_weights : ModelScoreInputs F → ModelWeights F → List (String × F × F)
  named_weights inputs weights =
      ("capabilityFit", weights.capability_fit, inputs.capability_fit)
      ∷ ("quality", weights.quality, inputs.quality)
      ∷ ("turkishQuality", weights.turkish_quality, inputs.turkish_quality)
      ∷ ("latency", weights.latency, inputs.latency)
      ∷ ("cost", weights.cost, inputs.cost)
      ∷ ("contextFit", weights.context_fit, inputs.context_fit)
      ∷ []

  unfoldable pub model_score : ModelScoreInputs F → ModelWeights F → ScoreBreakdown F
  model_score inputs weights =
      let named = named_weights inputs weights in
      let factors = map (λ (n : String × F × F). (n.0, a.times n.1 n.2)) named in
      let total_weight = sum_all (map (λ (n : String × F × F). n.1) named) in
      record {
        factors = factors;
        total =
            if a.not_above total_weight (a.of_nat 0)
            then a.of_nat 0
            else a.over (sum_all (map (λ (f : String × F). f.1) factors)) total_weight;
      }

  unfoldable pub health_factor : HealthStatus → F
  health_factor up = a.of_nat 1
  health_factor degraded = decimal 1 2
  health_factor cooling_down = a.of_nat 0
  health_factor down = a.of_nat 0

  abbrev of_fraction : Fraction → F
  of_fraction f = a.over (a.of_nat f.num) (a.of_nat f.den)

  -- The declared headrooms.
  abbrev declared : Option Fraction → List F → List F
  declared none rest = rest
  declared (some f) rest = of_fraction f ∷ rest

  abbrev pub cooldown_factor : CooldownState → F
  cooldown_factor CooldownState.cooling_down = a.of_nat 0
  cooldown_factor CooldownState.available = a.of_nat 1

  unfoldable pub provider_score : ProviderScoreInputs F → ScoreBreakdown F
  unfolding health_factor
  provider_score inputs =
      let headroom =
        average
          (declared inputs.quota.headroom_requests (declared inputs.quota.headroom_tokens [])) in
      let health = health_factor inputs.health in
      let cooldown = cooldown_factor inputs.quota.cooldown in
      record {
        factors =
            ("health", health)
            ∷ ("quotaHeadroom", headroom)
            ∷ ("cooldownState", cooldown)
            ∷ ("reliability", inputs.reliability)
            ∷ [];
        total =
            a.times (a.times health cooldown)
              (a.over (a.plus headroom inputs.reliability) (a.of_nat 2));
      }

  -- `_fit`, at its kinds of value.
  abbrev fit_flag : Bool → Bool → F
  fit_flag required offered = if same_flag required offered then a.of_nat 1 else a.of_nat 0

  abbrev fit_role : Role → Role → F
  fit_role required offered = if same_role required offered then a.of_nat 1 else a.of_nat 0

  abbrev fit_level : ℕ → ℕ → F
  fit_level zero offered = a.of_nat 1
  fit_level (suc n) offered = smaller (a.of_nat 1) (a.over (a.of_nat offered) (a.of_nat (suc n)))

  -- One member of `named`, where it is set and soft.
  abbrev soft : {T : Type 0} → String → (T → T → F) → Option (Requirement T) → T → Dict F → Dict F
  soft name fit none offered rest = rest
  soft name fit (some r) offered rest = if r.hard then rest else (name, fit r.value offered) ∷ rest

  unfoldable pub soft_fit : CapabilitySet → CapabilityNeed → Dict F
  soft_fit c need = soft "role" fit_role need.role c.role (
      soft "reasoning" fit_level need.reasoning c.reasoning (
        soft "code_aptitude" fit_level need.code_aptitude c.code_aptitude (
          soft "context_window" fit_level need.context_window c.context_window (
            soft "tool_use" fit_level need.tool_use c.tool_use (
              soft "vision" fit_flag need.vision c.vision (
                soft "multilingual_tr" fit_level need.multilingual_tr c.multilingual_tr (
                  soft "latency_class" fit_level need.latency_class c.latency_class (
                    soft "max_output" fit_level need.max_output c.max_output
                      (soft "streaming" fit_flag need.streaming c.streaming [])))))))))

  -- The score of `seed_quality` of benchmark/quality.py.
  unfoldable pub seed_quality : CapabilitySet → F
  seed_quality c =
      a.over
        (a.plus (a.plus (decimal c.reasoning 3) (decimal c.code_aptitude 3))
          (decimal c.multilingual_tr 2))
        (a.of_nat 3)

-- `InMemoryBenchmarkStore` of benchmark/store.py.
abbrev pub BenchmarkStore : Type 0 → Type 0
BenchmarkStore F = List ((String × String) × PerformanceProfile F)

module _ {F : Type 0} where
  unfoldable pub benchmark_get : String → String → BenchmarkStore F → Option (PerformanceProfile F)
  benchmark_get p m [] = none
  benchmark_get p m (((p', m'), profile) ∷ rest) =
      if str_eq p' p && str_eq m' m then some profile else benchmark_get p m rest
