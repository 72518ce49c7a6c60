-- ===== src/Yonlendirme/Dayaniklilik/Laws.antt =====
-- Laws of the retry and failover loops of core/turkish_code/yonlendirme/resilience.py.
use turkish_code.Base.{
  ℕ, zero, suc, ◌+◌, ◌*◌, ◌≡◌, ◌≢◌, ◌≤◌, ◌<◌, ◌⊎◌, refl, String, true, List, [], ◌∷◌, Option, none,
  some, arith, length,
}
use turkish_code.Hata.{AppError}
use turkish_code.Yonlendirme.Kota.{QuotaStore}
use turkish_code.Yonlendirme.Dayaniklilik.{
  Ending, Attempt, is_rate_limit, Outcome, Tried, Candidate, Candidates, candidate_at, Executed,
  attempt_loop, attempt_with_retry, cool, after_attempt, visit, execute_loop, execute_with_failover,
}

module _ (chat : Candidate → ℕ → Attempt) where
  attempt_loop-calls :
      (left : ℕ) (c : Candidate) (n : ℕ)
      → (n < (attempt_loop chat left c n).calls)
        × ((attempt_loop chat left c n).calls ≤ n + left + 1)
  unfolding attempt_loop
  attempt_loop-calls zero c n = ground arith
  attempt_loop-calls (suc left) c n = ground (arith, attempt_loop-calls left c (n + 1))

  -- One candidate is called at least once and at most `max_retries + 1` times.
  pub attempt_with_retry-calls :
      (max_retries : ℕ) (c : Candidate) (n : ℕ)
      → (n < (attempt_with_retry chat max_retries c n).calls)
        × ((attempt_with_retry chat max_retries c n).calls ≤ n + max_retries + 1)
  unfolding attempt_with_retry
  attempt_with_retry-calls max_retries c n = attempt_loop-calls max_retries c n

  -- What one call of a candidate gives when it is the last one.
  abbrev single : Candidate → ℕ → Tried
  single c n = attempt_loop chat zero c n

  attempt_loop-once :
      (left : ℕ) (c : Candidate) (n : ℕ) (e : AppError)
      → ((chat c n).chunks ≢ [])
        ⊎ (((chat c n).ending ≡ Ending.failed e) × (is_rate_limit e ≡ true))
      → attempt_loop chat left c n ≡ single c n
  unfolding attempt_loop
  attempt_loop-once zero c n e h = refl
  attempt_loop-once (suc left) c n e h = ground arith

  -- A call that has streamed a chunk is never repeated, however it ends, and neither is a call
  -- that is refused for its rate: the candidate is called once, yields what that call streamed,
  -- and the retries that were left make no difference.
  pub attempt_with_retry-once :
      (max_retries : ℕ) (c : Candidate) (n : ℕ) (e : AppError)
      → ((chat c n).chunks ≢ [])
        ⊎ (((chat c n).ending ≡ Ending.failed e) × (is_rate_limit e ≡ true))
      → ((attempt_with_retry chat max_retries c n).calls ≡ n + 1)
        × ((attempt_with_retry chat max_retries c n).out ≡ (chat c n).chunks)
        × (attempt_with_retry chat max_retries c n ≡ attempt_with_retry chat 0 c n)
  unfolding attempt_with_retry
  attempt_with_retry-once max_retries c n e h =
      rw (attempt_loop-once max_retries c n e h) (calls, out, refl)
    where
      calls : (attempt_loop chat 0 c n).calls ≡ n + 1
      calls = unfold attempt_loop in ground arith

      out : (attempt_loop chat 0 c n).out ≡ (chat c n).chunks
      out = unfold attempt_loop in ground arith

module _ (chat : Candidate → ℕ → Attempt) (now : ℕ → ℕ) (max_retries cooldown : ℕ)
    (by_key : Candidates) where
  abbrev run : List (String × String) → Option AppError → ℕ → QuotaStore → Executed
  run = execute_loop chat now max_retries cooldown by_key

  after_attempt-calls :
      (b n : ℕ) (q : QuotaStore) (c : Candidate) (t : Tried) (o : Outcome)
      (rest : Option AppError → ℕ → QuotaStore → Executed)
      → ((last : Option AppError) (m : ℕ) (q' : QuotaStore) → (rest last m q').calls ≤ m + b)
      → t.calls ≤ n + max_retries + 1
      → (after_attempt chat now max_retries cooldown rest c q t o).calls ≤ n + (max_retries + 1) + b
  after_attempt-calls b n q c t Outcome.returned rest h few = omega arith
  after_attempt-calls b n q c t Outcome.crash rest h few = omega arith
  after_attempt-calls b n q c t (Outcome.raised e) rest h few =
      omega (arith, h (some e) t.calls (cool chat now max_retries cooldown e c t.calls q))

  visit-calls :
      (b n : ℕ) (q : QuotaStore) (o : Option Candidate)
      (rest : Option AppError → ℕ → QuotaStore → Executed)
      → ((last : Option AppError) (m : ℕ) (q' : QuotaStore) → (rest last m q').calls ≤ m + b)
      → (visit chat now max_retries cooldown rest n q o).calls ≤ n + (max_retries + 1) + b
  visit-calls b n q none rest h = omega arith
  visit-calls b n q (some c) rest h =
      let t = attempt_with_retry chat max_retries c n in
      after_attempt-calls b n q c t t.outcome rest h
        (attempt_with_retry-calls chat max_retries c n).1

  execute_loop-calls :
      (ranked : List (String × String)) (last : Option AppError) (n : ℕ) (q : QuotaStore)
      → (run ranked last n q).calls ≤ n + length ranked * (max_retries + 1)
  unfolding execute_loop
  execute_loop-calls [] last n q = omega arith
  execute_loop-calls (k ∷ ranked) last n q = omega (
    arith,
    visit-calls (length ranked * (max_retries + 1)) n q (candidate_at k by_key)
        (execute_loop chat now max_retries cooldown by_key ranked) (execute_loop-calls ranked),
  )

  -- The failover ends: it makes at most `max_retries + 1` calls for each ranked candidate.
  execute_with_failover-calls :
      (ranked : List (String × String)) (n : ℕ) (q : QuotaStore)
      → (execute_with_failover chat now max_retries cooldown by_key ranked n q).calls
        ≤ n + length ranked * (max_retries + 1)
  unfolding execute_with_failover
  execute_with_failover-calls ranked n q = execute_loop-calls ranked none n q
