-- ===== src/Tests/Adaylar.antt =====
-- The candidates of core/turkish_code/yonlendirme/candidates.py for two concrete providers.
use turkish_code.Base.{
  ℕ, ◌+◌, ◌*◌, ◌/◌, leb, inl, ◌≢◌, arith, String, ◌≡◌, refl, true, false, [], ◌∷◌, none, some,
}
use turkish_code.Base.Dict.{lookup}
use turkish_code.Hata.{Raised, ok}
use turkish_code.Yonlendirme.Yetenek.{Role, CapabilitySet, CapabilityNeed, matches_hard}
use turkish_code.Yonlendirme.Kota.{QuotaStore, is_cooling_down, cooldown_until}
use turkish_code.Yonlendirme.Adaylar.{
  CandidateSet, Served, generate_loop, ModelInfo, Provider, ProviderManager, all_models, provider,
  generate_candidates,
}
use mathlib.Core.List.{Perm}
use turkish_code.Base.Order.{IsPreorder}
use turkish_code.Yonlendirme.Puan.{Arithmetic, HealthStatus, balanced, weights_for_mode}
use turkish_code.Yonlendirme.Siralama.{ScoredCandidate, RoutingDecision, rank_candidates}
use turkish_code.Yonlendirme.Siralama.Laws.{IsBestFirst, rank_candidates-IsSorted}
use turkish_code.Yonlendirme.Dayaniklilik.{
  Attempt, Ending, Ended, Candidate, Candidates, execute_with_failover,
}
use turkish_code.Yonlendirme.Yonlendirici.{select, decide, score}
use turkish_code.Yonlendirme.Yonlendirici.Routed.{keys, select-execute_with_failover, score-gated}
use turkish_code.Yonlendirme.Adaylar.Laws.{none_served, one_served, generate_candidates-selects}

abbrev abilities : CapabilitySet
abilities = record {
  role = Role.chat;
  reasoning = 2;
  code_aptitude = 1;
  context_window = 8000;
  tool_use = 1;
  vision = false;
  multilingual_tr = 2;
  latency_class = 1;
  cost_class = 3;
  max_output = 1000;
  streaming = true;
}

-- A strong reasoner, and preferably one that sees.
abbrev need : CapabilityNeed
need = record {
  role = some (record { value = Role.chat; hard = true });
  reasoning = some (record { value = 2; hard = true });
  code_aptitude = none;
  context_window = none;
  tool_use = none;
  vision = some (record { value = true; hard = false });
  multilingual_tr = none;
  latency_class = none;
  max_output = none;
  streaming = none;
}

abbrev cloud : Provider
cloud = record { id = "groq"; is_offline_fallback = false; quota_limits = [] }

abbrev local : Provider
local = record { id = "ollama"; is_offline_fallback = true; quota_limits = [] }

abbrev cloud_model : ModelInfo
cloud_model = record {
  id = "m1";
  provider_id = "groq";
  capabilities = abilities;
  context_window = 8000;
}

abbrev weak_model : ModelInfo
weak_model = record {
  id = "m0";
  provider_id = "groq";
  capabilities = record abilities { reasoning = 1 };
  context_window = 8000;
}

abbrev local_model : ModelInfo
local_model = record {
  id = "m2";
  provider_id = "ollama";
  capabilities = abilities;
  context_window = 8000;
}

abbrev manager : ProviderManager
manager = record {
  providers = ("groq", cloud) ∷ ("ollama", local) ∷ [];
  cached = ("groq", weak_model ∷ cloud_model ∷ []) ∷ ("ollama", local_model ∷ []) ∷ [];
}

abbrev quota : QuotaStore
quota = record { usage = []; cooldowns = [] }

generate_candidates-selects_example :
    generate_candidates manager need 5 quota
    ≡ ok (record {
      primaries = record { model = cloud_model; server = cloud } ∷ [];
      offline_fallback = some (record { model = local_model; server = local });
    })
unfolding lookup all_models provider matches_hard is_cooling_down cooldown_until
generate_candidates-selects_example =
    generate_candidates-selects manager need 5 quota
      (record { model = weak_model; server = cloud }
        ∷ record { model = cloud_model; server = cloud }
        ∷ record { model = local_model; server = local }
        ∷ [])
      (one_served weak_model cloud (cloud_model ∷ local_model ∷ []) _ refl (
        one_served cloud_model cloud (local_model ∷ []) _ refl
          (one_served local_model local [] _ refl none_served)))

-- Scores in whole numbers.
abbrev whole : Arithmetic ℕ
whole = record {
  of_nat = λ n. n;
  plus = λ m n. m + n;
  times = λ m n. m * n;
  over = λ m n. m / n;
  not_above = leb;
}

whole-IsPreorder : IsPreorder leb
whole-IsPreorder = record { total = λ a b h. ground arith; trans = λ a b c h k. ground arith }

abbrev health : Served → HealthStatus
health c = HealthStatus.up

abbrev reliability : String → ℕ
reliability p = 1

abbrev candidates : CandidateSet
candidates = record {
  primaries = record { model = cloud_model; server = cloud } ∷ [];
  offline_fallback = some (record { model = local_model; server = local });
}

abbrev decided : RoutingDecision ℕ × Candidates
decided = decide whole health (λ c. 5) reliability 60 need quota [] balanced candidates

abbrev answers : Candidate → ℕ → Attempt
answers c n = record { chunks = "merhaba" ∷ []; ending = Ending.finished }

select-execute_with_failover_example :
    (execute_with_failover answers (λ n. n) 2 60 decided.1 (keys decided.0) 0 quota).ended
    ≢ Ended.raised Raised.key_error
unfolding select generate_candidates generate_loop all_models provider lookup matches_hard
    is_cooling_down cooldown_until
select-execute_with_failover_example =
    select-execute_with_failover whole health (λ c. 5) reliability 60 need quota [] answers (λ n. n)
      2 60 manager balanced 5 decided.0 decided.1 0 quota refl

abbrev scored : String → ℕ → ScoredCandidate ℕ
scored m n = record {
  model_id = m;
  provider_id = "groq";
  model_breakdown = record { factors = []; total = n };
  provider_breakdown = record { factors = []; total = 1 };
  final_score = n;
}

rank_candidates-IsSorted_example :
    Perm
      (rank_candidates whole (scored "m1" 2 ∷ scored "m2" 3 ∷ []))
      (scored "m1" 2 ∷ scored "m2" 3 ∷ [])
    × IsBestFirst whole (rank_candidates whole (scored "m1" 2 ∷ scored "m2" 3 ∷ []))
rank_candidates-IsSorted_example =
    rank_candidates-IsSorted whole whole-IsPreorder (scored "m1" 2 ∷ scored "m2" 3 ∷ [])

score-gated_example :
    (score whole
      (λ c. HealthStatus.down)
      (λ c. 5)
      reliability
      60
      need
      quota
      []
      (weights_for_mode whole balanced)
      (record { model = cloud_model; server = cloud })).final_score
    ≡ 0
score-gated_example =
    score-gated whole (λ c. HealthStatus.down) (λ c. 5) reliability 60 need quota []
      (λ x. omega arith) (λ x. omega arith) (weights_for_mode whole balanced)
      (record { model = cloud_model; server = cloud }) (inl (inl refl))
