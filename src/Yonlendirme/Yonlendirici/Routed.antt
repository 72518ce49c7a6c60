-- ===== src/Yonlendirme/Yonlendirici/Routed.antt =====
-- The decision of core/turkish_code/yonlendirme/router.py handed to the failover of resilience.py.
use turkish_code.Base.{
  subst, ◌⊎◌, ℕ, ◌≡◌, ◌≢◌, refl, ap, arith, String, Bool, true, inl, inr, List, [], ◌∷◌, Option,
  none, some, map, All, Option-cases,
}
use turkish_code.Hata.{Result, ok, err, Raised, AppError}
use turkish_code.Yonlendirme.Yetenek.{CapabilityNeed}
use turkish_code.Yonlendirme.Kota.{
  CooldownState, UsageTotals, QuotaStore, is_cooling_down, compute_quota_state,
}
use turkish_code.Yonlendirme.Adaylar.{ProviderManager, Served, generate_candidates}
use turkish_code.Yonlendirme.Puan.{
  cooldown_factor, ProviderScoreInputs, provider_score, health_factor, ModelWeights, Arithmetic,
  CostMode, HealthStatus, BenchmarkStore,
}
use turkish_code.Yonlendirme.Siralama.{score_candidate, ScoredCandidate, RoutingDecision}
use turkish_code.Yonlendirme.Dayaniklilik.{
  Attempt, Outcome, Tried, Candidate, Candidates, candidate_at, Ended, Executed, after_attempt,
  execute_loop, execute_with_failover, attempt_with_retry,
}
use turkish_code.Yonlendirme.Yonlendirici.{Dict, score, select, decide}
use turkish_code.Yonlendirme.Yonlendirici.Laws.{IsKnown, decide-IsListed}

-- What the failover reads of the ranked candidates.
abbrev pub keys : {F : Type 0} → RoutingDecision F → List (String × String)
keys d = map (λ s. (s.provider_id, s.model_id)) d.ranked_candidates

module _ (chat : Candidate → ℕ → Attempt) (clock : ℕ → ℕ) (max_retries cooldown : ℕ)
    (by_key : Candidates) where
  after_attempt-no_key_error :
      (rest : Option AppError → ℕ → QuotaStore → Executed) (c : Candidate) (q : QuotaStore)
      (t : Tried) (o : Outcome)
      → ((last : Option AppError) (n : ℕ) (q' : QuotaStore)
          → (rest last n q').ended ≢ Ended.raised Raised.key_error)
      → (after_attempt chat clock max_retries cooldown rest c q t o).ended
        ≢ Ended.raised Raised.key_error
  after_attempt-no_key_error rest c q t Outcome.returned h = ground arith
  after_attempt-no_key_error rest c q t Outcome.crash h = ground arith
  after_attempt-no_key_error rest c q t (Outcome.raised e) h = h (some e) _ _

  execute_loop-no_key_error :
      (ranked : List (String × String)) (last : Option AppError) (n : ℕ) (q : QuotaStore)
      → All (IsKnown by_key) ranked
      → (execute_loop chat clock max_retries cooldown by_key ranked last n q).ended
        ≢ Ended.raised Raised.key_error
  unfolding execute_loop
  execute_loop-no_key_error [] last n q all = ground arith
  execute_loop-no_key_error (k ∷ ranked) last n q all =
      elim (Option-cases (candidate_at k by_key)) [
        | inl absent ↦ ground (arith, absent, all.0)
        | inr (c, here) ↦
            rw (here, execute_loop)
              (after_attempt-no_key_error
                (execute_loop chat clock max_retries cooldown by_key ranked) c q
                (attempt_with_retry chat max_retries c n)
                (attempt_with_retry chat max_retries c n).outcome
                (λ last' m q'. execute_loop-no_key_error ranked last' m q' all.1))
      ]

Result-cases : {A : Type 0} (r : Result A) → ((a : A) × (r ≡ ok a)) ⊎ ((e : Raised) × (r ≡ err e))
Result-cases (ok a) = inl (a, refl)
Result-cases (err e) = inr (e, refl)

All-keys :
    {F : Type 0} (entries : Candidates) (ss : List (ScoredCandidate F))
    → All (λ s. IsKnown entries (s.provider_id, s.model_id)) ss
    → All (IsKnown entries) (map (λ s. (s.provider_id, s.model_id)) ss)
All-keys entries [] all = tt
All-keys entries (s ∷ ss) all = (all.0, All-keys entries ss all.1)

module _ {F : Type 0} (a : Arithmetic F) (health : Served → HealthStatus) (now : Served → ℕ)
    (reliability : String → F) (window : ℕ) (need : CapabilityNeed) (quota : QuotaStore)
    (benchmarks : BenchmarkStore F) where
  abbrev routed : ProviderManager → CostMode → ℕ → Result (RoutingDecision F × Candidates)
  routed = select a health now reliability window need quota benchmarks

  select-IsKnown :
      (m : ProviderManager) (mode : CostMode) (generated_at : ℕ) (d : RoutingDecision F)
      (entries : Candidates)
      → routed m mode generated_at ≡ ok (d, entries)
      → All (IsKnown entries) (keys d)
  unfolding select
  select-IsKnown m mode generated_at d entries h =
      elim (Result-cases (generate_candidates m need generated_at quota)) [
        | inl (set, e) ↦
            let made = decide a health now reliability window need quota benchmarks mode set in
            let same : made ≡ (d, entries) = ground (arith, h, e) in
            subst (λ (x : RoutingDecision F × Candidates). All (IsKnown x.1) (keys x.0)) same
              (All-keys _ _
                (decide-IsListed a health now reliability window need quota benchmarks mode set))
        | inr (x, e) ↦ ground (arith, h, e)
      ]

  -- A decision of the router can be executed as it is: with the candidates that `select` returns
  -- beside it, the failover over its ranked candidates never raises a KeyError, whatever the
  -- providers answer.
  pub select-execute_with_failover :
      (chat : Candidate → ℕ → Attempt) (clock : ℕ → ℕ) (max_retries cooldown : ℕ)
      (m : ProviderManager) (mode : CostMode) (generated_at : ℕ) (d : RoutingDecision F)
      (entries : Candidates) (n : ℕ) (q : QuotaStore)
      → select a health now reliability window need quota benchmarks m mode generated_at
        ≡ ok (d, entries)
      → (execute_with_failover chat clock max_retries cooldown entries (keys d) n q).ended
        ≢ Ended.raised Raised.key_error
  unfolding execute_with_failover
  select-execute_with_failover chat clock max_retries cooldown m mode generated_at d entries n q h =
      execute_loop-no_key_error chat clock max_retries cooldown entries (keys d) none n q
        (select-IsKnown m mode generated_at d entries h)

  module _ (right : (x : F) → a.times x (a.of_nat 0) ≡ a.of_nat 0)
      (left : (x : F) → a.times (a.of_nat 0) x ≡ a.of_nat 0) where
    product_gated :
        (x y z : F) → (x ≡ a.of_nat 0) ⊎ (y ≡ a.of_nat 0) → a.times (a.times x y) z ≡ a.of_nat 0
    product_gated x y z (inl e) = rw (e, left) (left z)
    product_gated x y z (inr e) = rw (e, right) (left z)

    dead_factor : (x y : F) → y ≡ a.of_nat 0 → a.times x y ≡ a.of_nat 0
    dead_factor x y e = rw e (right x)

    provider_score-gated :
        (inputs : ProviderScoreInputs F)
        → ((inputs.health ≡ HealthStatus.down) ⊎ (inputs.health ≡ HealthStatus.cooling_down))
          ⊎ (inputs.quota.cooldown ≡ CooldownState.cooling_down)
        → (provider_score a inputs).total ≡ a.of_nat 0
    unfolding provider_score health_factor
    provider_score-gated inputs (inl (inl e)) = product_gated _ _ _ (inl (ap (health_factor a) e))
    provider_score-gated inputs (inl (inr e)) = product_gated _ _ _ (inl (ap (health_factor a) e))
    provider_score-gated inputs (inr e) = product_gated _ _ _ (inr (ap (cooldown_factor a) e))

    cooling_state :
        (limits : Dict ℕ) (usage : UsageTotals) (cooling : Bool)
        → cooling ≡ true
        → (compute_quota_state limits usage cooling).cooldown ≡ CooldownState.cooling_down
    unfolding compute_quota_state
    cooling_state limits usage cooling e = rw e refl

    -- Where a product with 0 is 0, a candidate scores 0 whose provider is down or cooling down, by
    -- its own health or by the quota store, however good the model is.
    pub score-gated :
        (weights : ModelWeights F) (c : Served)
        → ((health c ≡ HealthStatus.down) ⊎ (health c ≡ HealthStatus.cooling_down))
          ⊎ (is_cooling_down (now c) c.server.id quota ≡ true)
        → (score a health now reliability window need quota benchmarks weights c).final_score
          ≡ a.of_nat 0
    unfolding score score_candidate
    score-gated weights c (inl h) = dead_factor _ _ (provider_score-gated _ (inl h))
    score-gated weights c (inr h) =
        dead_factor _ _ (provider_score-gated _ (inr (cooling_state _ _ _ h)))
