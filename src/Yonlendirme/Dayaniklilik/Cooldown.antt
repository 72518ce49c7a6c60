-- ===== src/Yonlendirme/Dayaniklilik/Cooldown.antt =====
-- Which cooldowns the failover of core/turkish_code/yonlendirme/resilience.py enters.
use turkish_code.Base.{
  ℕ, zero, suc, ◌+◌, ◌≡◌, ◌≤◌, inl, inr, sym, ◌∙◌, String, true, List, [], ◌∷◌, Option, none, some,
  arith, Bool-cases, Option-cases, str_eq, eq_refl, subst,
}
use turkish_code.Hata.{AppError}
use turkish_code.Base.Dict.{lookup-insert}
use turkish_code.Yonlendirme.Kota.{QuotaStore, cooldown_until, enter_cooldown}
use turkish_code.Yonlendirme.Dayaniklilik.{
  Ending, Attempt, Outcome, Tried, Candidate, Candidates, candidate_at, Executed, is_rate_limit,
  attempt_loop, attempt_with_retry, cool, after_attempt, execute_loop, execute_with_failover,
}
use turkish_code.Yonlendirme.Dayaniklilik.Failover.{round}
use turkish_code.Yonlendirme.Dayaniklilik.Laws.{attempt_with_retry-calls}

-- The provider is cooling down until `b` at least.
abbrev pub CoolsUntil : String → ℕ → QuotaStore → Type 0
CoolsUntil p b q = (u : ℕ) × (cooldown_until p q ≡ some u) × (b ≤ u)

module _ (chat : Candidate → ℕ → Attempt) (now : ℕ → ℕ) (max_retries cooldown : ℕ)
    (by_key : Candidates) where
  abbrev tried : Candidate → ℕ → Tried
  tried = attempt_with_retry chat max_retries

  abbrev loop : List (String × String) → Option AppError → ℕ → QuotaStore → Executed
  loop = execute_loop chat now max_retries cooldown by_key

  module _ (p : String) (b from : ℕ) (later : (m : ℕ) → from ≤ m → b ≤ now m + cooldown) where
    cool-CoolsUntil :
        (e : AppError) (c : Candidate) (m : ℕ) (q : QuotaStore)
        → from ≤ m
        → CoolsUntil p b q
        → CoolsUntil p b (cool chat now max_retries cooldown e c m q)
    unfolding enter_cooldown cooldown_until
    cool-CoolsUntil e c m q h (u, at, le) = elim (Bool-cases (is_rate_limit e)) [
      | inr other ↦ rw other (u, at, le)
      | inl limited ↦ rw limited (elim (Bool-cases (str_eq c.provider_id p)) [
        | inl same ↦ (
          now m + cooldown,
          lookup-insert c.provider_id p (now m + cooldown) q.cooldowns ∙ ground arith,
          later m h,
        )
        | inr other ↦
            (u, lookup-insert c.provider_id p (now m + cooldown) q.cooldowns ∙ ground arith, le)
      ])
    ]

    after_attempt-CoolsUntil :
        (rest : Option AppError → ℕ → QuotaStore → Executed) (q : QuotaStore) (c : Candidate)
        (t : Tried) (o : Outcome)
        → from ≤ t.calls
        → CoolsUntil p b q
        → ((last : Option AppError) (m : ℕ) (q' : QuotaStore)
            → from ≤ m
            → CoolsUntil p b q'
            → CoolsUntil p b (rest last m q').quota)
        → CoolsUntil p b (after_attempt chat now max_retries cooldown rest c q t o).quota
    after_attempt-CoolsUntil rest q c t Outcome.returned h cools ih = cools
    after_attempt-CoolsUntil rest q c t Outcome.crash h cools ih = cools
    after_attempt-CoolsUntil rest q c t (Outcome.raised e) h cools ih =
        ih (some e) t.calls _ h (cool-CoolsUntil e c t.calls q h cools)

    execute_loop-CoolsUntil :
        (ranked : List (String × String)) (last : Option AppError) (n : ℕ) (q : QuotaStore)
        → from ≤ n
        → CoolsUntil p b q
        → CoolsUntil p b (loop ranked last n q).quota
    unfolding execute_loop
    execute_loop-CoolsUntil [] last n q h cools = cools
    execute_loop-CoolsUntil (k ∷ ranked) last n q h cools =
        elim (Option-cases (candidate_at k by_key)) [
          | inl absent ↦ rw (absent, execute_loop) cools
          | inr (c, here) ↦
              rw (here, execute_loop)
                (after_attempt-CoolsUntil (loop ranked) q c (tried c n) (tried c n).outcome
                  (omega (arith, attempt_with_retry-calls chat max_retries c n)) cools
                  (execute_loop-CoolsUntil ranked))
        ]

  attempt_loop-refused :
      (left : ℕ) (c : Candidate) (n : ℕ) (e : AppError)
      → (chat c n).ending ≡ Ending.failed e
      → is_rate_limit e ≡ true
      → attempt_loop chat left c n
        ≡ record { out = (chat c n).chunks; calls = n + 1; outcome = Outcome.raised e }
  unfolding attempt_loop
  attempt_loop-refused zero c n e h limited = ground arith
  attempt_loop-refused (suc left) c n e h limited = ground arith

  cool-refused :
      (e : AppError) (c : Candidate) (m : ℕ) (q : QuotaStore)
      → is_rate_limit e ≡ true
      → CoolsUntil c.provider_id (now m + cooldown) (cool chat now max_retries cooldown e c m q)
  unfolding enter_cooldown cooldown_until
  cool-refused e c m q limited = rw limited (
    now m + cooldown,
    lookup-insert c.provider_id c.provider_id (now m + cooldown) q.cooldowns
        ∙ ground (arith, eq_refl c.provider_id),
    omega arith,
  )

  -- Where the best candidate is refused for its rate, its provider is cooling down afterwards for
  -- at least the cooldown from that refusal on, whatever the later candidates do, if the clock
  -- never runs back.
  pub execute_with_failover-cools :
      (k : String × String) (ranked : List (String × String)) (c : Candidate) (n : ℕ)
      (q : QuotaStore) (e : AppError)
      → ((m m' : ℕ) → m ≤ m' → now m ≤ now m')
      → candidate_at k by_key ≡ some c
      → (chat c n).ending ≡ Ending.failed e
      → is_rate_limit e ≡ true
      → CoolsUntil c.provider_id
          (now (n + 1) + cooldown)
          (execute_with_failover chat now max_retries cooldown by_key (k ∷ ranked) n q).quota
  unfolding execute_with_failover
  execute_with_failover-cools k ranked c n q e mono here refused limited =
      subst (λ (x : Executed). CoolsUntil c.provider_id (now (n + 1) + cooldown) x.quota)
        (sym (
          round chat now max_retries cooldown by_key k ranked none c n q
            (record { out = (chat c n).chunks; calls = n + 1; outcome = Outcome.raised e }) here
            (unfold attempt_with_retry in attempt_loop-refused max_retries c n e refused limited)))
        (execute_loop-CoolsUntil c.provider_id (now (n + 1) + cooldown) (n + 1)
          (λ m h. omega (arith, mono (n + 1) m h)) ranked (some e) (n + 1) _ (omega arith)
          (cool-refused e c (n + 1) q limited))
