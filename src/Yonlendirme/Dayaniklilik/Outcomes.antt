-- ===== src/Yonlendirme/Dayaniklilik/Outcomes.antt =====
-- How the failover of core/turkish_code/yonlendirme/resilience.py can end.
use turkish_code.Base.{
  ℕ, zero, suc, ◌+◌, ◌-◌, ◌≡◌, ◌≢◌, inl, inr, refl, ap, String, List, [], ◌∷◌, ◌++◌, Option, none,
  some, arith, Option-cases, All,
}
use turkish_code.Hata.{AppError, code_of, Raised, app}
use turkish_code.Yonlendirme.Kota.{QuotaStore}
use turkish_code.Yonlendirme.Dayaniklilik.{
  Ending, Attempt, Outcome, Tried, Candidate, Candidates, candidate_at, Ended, Executed,
  attempt_loop, attempt_with_retry, after_attempt, execute_loop, execute_with_failover,
}

module _ (chat : Candidate → ℕ → Attempt) where
  -- What a candidate yields is what its last call streamed: the calls before it streamed nothing.
  attempt_loop-out :
      (left : ℕ) (c : Candidate) (n : ℕ)
      → ((attempt_loop chat left c n).out
          ≡ (chat c ((attempt_loop chat left c n).calls - 1)).chunks)
        × ((attempt_loop chat left c n).outcome ≡ Outcome.returned
            → (chat c ((attempt_loop chat left c n).calls - 1)).ending ≡ Ending.finished)
        × ((e : AppError)
            → (attempt_loop chat left c n).outcome ≡ Outcome.raised e
            → (chat c ((attempt_loop chat left c n).calls - 1)).ending ≢ Ending.finished)
  unfolding attempt_loop
  attempt_loop-out zero c n =
      let e : n + 1 - 1 ≡ n = omega arith in
      (ground (arith, e), ground (arith, e), λ x. ground (arith, e))
  attempt_loop-out (suc left) c n =
      let e : n + 1 - 1 ≡ n = omega arith in
      let ih = attempt_loop-out left c (n + 1) in
      (ground (arith, e, ih.0), ground (arith, e, ih.1), λ x. ground (arith, e, ih.2 x))

module _ (chat : Candidate → ℕ → Attempt) (now : ℕ → ℕ) (max_retries cooldown : ℕ)
    (by_key : Candidates) where
  abbrev tried : Candidate → ℕ → Tried
  tried = attempt_with_retry chat max_retries

  abbrev loop : List (String × String) → Option AppError → ℕ → QuotaStore → Executed
  loop = execute_loop chat now max_retries cooldown by_key

  -- A ranked candidate that was tried, and how.
  pub record Tries (o : Outcome) (k : String × String) : Type 0 where
    pub candidate : Candidate
    pub found : candidate_at k by_key ≡ some candidate
    pub calls : ℕ
    pub ends : (tried candidate calls).outcome ≡ o

  pub record Fails (k : String × String) : Type 0 where
    pub error : AppError
    pub tries : Tries (Outcome.raised error) k

  -- What an ending says of the ranked candidates.
  abbrev pub Explains : List (String × String) → Ended → Type 0
  Explains ranked (Ended.raised (app e)) = (code_of e ≡ "routing.unroutable") × All Fails ranked
  Explains ranked (Ended.returned) =
      (before : List (String × String)) × (k : String × String) × (rest : List (String × String))
      × (ranked ≡ before ++ k ∷ rest)
      × All Fails before
      × Tries Outcome.returned k
  Explains ranked _ = Unit

  Explains-cons :
      (k : String × String) (ranked : List (String × String)) (x : Ended)
      → Fails k
      → Explains ranked x
      → Explains (k ∷ ranked) x
  Explains-cons k ranked (Ended.raised (app e)) f h = (h.0, (f, h.1))
  Explains-cons k ranked (Ended.raised Raised.value_error) f h = tt
  Explains-cons k ranked (Ended.raised Raised.key_error) f h = tt
  Explains-cons k ranked (Ended.raised Raised.attribute_error) f h = tt
  Explains-cons k ranked (Ended.raised Raised.overflow_error) f h = tt
  Explains-cons k ranked (Ended.raised Raised.type_error) f h = tt
  Explains-cons k ranked Ended.returned f (before, j, rest, e, fs, t) =
      (k ∷ before, j, rest, ap (λ l. k ∷ l) e, (f, fs), t)
  Explains-cons k ranked Ended.crash f h = tt

  after_attempt-Explains :
      (k : String × String) (ranked : List (String × String)) (n : ℕ) (q : QuotaStore)
      (c : Candidate) (o : Outcome)
      → candidate_at k by_key ≡ some c
      → (tried c n).outcome ≡ o
      → ((last : Option AppError) (m : ℕ) (q' : QuotaStore)
          → Explains ranked (loop ranked last m q').ended)
      → Explains
          (k ∷ ranked)
          (after_attempt chat now max_retries cooldown (loop ranked) c q (tried c n) o).ended
  after_attempt-Explains k ranked n q c Outcome.returned here e ih =
      ([], k, ranked, refl, tt, record { candidate = c; found = here; calls = n; ends = e })
  after_attempt-Explains k ranked n q c Outcome.crash here e ih = tt
  after_attempt-Explains k ranked n q c (Outcome.raised x) here e ih =
      Explains-cons k ranked _
        (record { error = x; tries = record { candidate = c; found = here; calls = n; ends = e } })
        (ih (some x) _ _)

  execute_loop-Explains :
      (ranked : List (String × String)) (last : Option AppError) (n : ℕ) (q : QuotaStore)
      → Explains ranked (loop ranked last n q).ended
  unfolding execute_loop
  execute_loop-Explains [] last n q = (refl, tt)
  execute_loop-Explains (k ∷ ranked) last n q = elim (Option-cases (candidate_at k by_key)) [
    | inl absent ↦ rw (absent, execute_loop) tt
    | inr (c, here) ↦
        rw (here, execute_loop)
          (after_attempt-Explains k ranked n q c (tried c n).outcome here refl
            (execute_loop-Explains ranked))
  ]

  -- Where the failover returns, some ranked candidate has answered, and every candidate ranked
  -- before it has failed. Where it raises an AppError, this is `routing.unroutable`, and every
  -- ranked candidate has failed.
  pub execute_with_failover-Explains :
      (ranked : List (String × String)) (n : ℕ) (q : QuotaStore)
      → Explains ranked
          (execute_with_failover chat now max_retries cooldown by_key ranked n q).ended
  unfolding execute_with_failover
  execute_with_failover-Explains ranked n q = execute_loop-Explains ranked none n q

  module _
      (whole : (c : Candidate) (n : ℕ)
        → (chat c n).chunks ≢ []
        → (chat c n).ending ≡ Ending.finished) where
    -- A candidate that fails has yielded nothing.
    tried_failed :
        (c : Candidate) (n : ℕ) (e : AppError)
        → (tried c n).outcome ≡ Outcome.raised e
        → (tried c n).out ≡ []
    unfolding attempt_with_retry
    tried_failed c n e h =
        let facts = attempt_loop-out chat max_retries c n in
        ground
          (arith, facts.0, facts.2 e h, whole c ((attempt_loop chat max_retries c n).calls - 1))

    tried_returned :
        (c : Candidate) (n : ℕ)
        → (tried c n).outcome ≡ Outcome.returned
        → (d : Candidate) × (m : ℕ) × ((tried c n).out ≡ (chat d m).chunks)
          × ((chat d m).ending ≡ Ending.finished)
    unfolding attempt_with_retry
    tried_returned c n h =
        let facts = attempt_loop-out chat max_retries c n in
        (c, (attempt_loop chat max_retries c n).calls - 1, facts.0, facts.1 h)

    -- What the output is at each end of the failover.
    abbrev WholeAt : Ended → List String → Type 0
    WholeAt Ended.returned out =
        (c : Candidate) × (m : ℕ) × (out ≡ (chat c m).chunks)
        × ((chat c m).ending ≡ Ending.finished)
    WholeAt (Ended.raised (app e)) out = out ≡ []
    WholeAt _ out = Unit

    abbrev pub IsWhole : Executed → Type 0
    IsWhole x = WholeAt x.ended x.out

    after_attempt-IsWhole :
        (rest : Option AppError → ℕ → QuotaStore → Executed) (n : ℕ) (q : QuotaStore)
        (c : Candidate) (o : Outcome)
        → (tried c n).outcome ≡ o
        → ((last : Option AppError) (m : ℕ) (q' : QuotaStore) → IsWhole (rest last m q'))
        → IsWhole (after_attempt chat now max_retries cooldown rest c q (tried c n) o)
    after_attempt-IsWhole rest n q c Outcome.returned e ih = tried_returned c n e
    after_attempt-IsWhole rest n q c Outcome.crash e ih = tt
    after_attempt-IsWhole rest n q c (Outcome.raised x) e ih =
        rw (tried_failed c n x e) (ih (some x) (tried c n).calls _)

    execute_loop-IsWhole :
        (ranked : List (String × String)) (last : Option AppError) (n : ℕ) (q : QuotaStore)
        → IsWhole (loop ranked last n q)
    unfolding execute_loop
    execute_loop-IsWhole [] last n q = refl
    execute_loop-IsWhole (k ∷ ranked) last n q = elim (Option-cases (candidate_at k by_key)) [
      | inl absent ↦ rw (absent, execute_loop) tt
      | inr (c, here) ↦
          rw (here, execute_loop)
            (after_attempt-IsWhole (loop ranked) n q c (tried c n).outcome refl
              (execute_loop-IsWhole ranked))
    ]

    -- Where no call that has streamed a chunk fails, the output is never a mixture: on success it
    -- is what one call streamed that finished, and with an AppError it is empty.
    pub execute_with_failover-IsWhole :
        (ranked : List (String × String)) (n : ℕ) (q : QuotaStore)
        → IsWhole (execute_with_failover chat now max_retries cooldown by_key ranked n q)
    unfolding execute_with_failover
    execute_with_failover-IsWhole ranked n q = execute_loop-IsWhole ranked none n q
