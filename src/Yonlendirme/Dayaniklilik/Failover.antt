-- ===== src/Yonlendirme/Dayaniklilik/Failover.antt =====
-- What the consumer of core/turkish_code/yonlendirme/resilience.py receives.
use turkish_code.Base.{
  ℕ, zero, suc, ◌+◌, ◌≡◌, ◌≢◌, ap, ◌∙◌, String, List, [], ◌∷◌, ◌++◌, Option, none, some, arith,
}
use turkish_code.Hata.{AppError}
use turkish_code.Yonlendirme.Kota.{QuotaStore}
use turkish_code.Yonlendirme.Dayaniklilik.{
  Ending, Attempt, Outcome, Tried, Candidate, Candidates, candidate_at, Ended, Executed, after_out,
  attempt_loop, attempt_with_retry, cool, after_attempt, execute_loop, execute_with_failover,
}

module _ (chat : Candidate → ℕ → Attempt) (now : ℕ → ℕ) (max_retries cooldown : ℕ)
    (by_key : Candidates) where
  abbrev run : List (String × String) → ℕ → QuotaStore → Executed
  run = execute_with_failover chat now max_retries cooldown by_key

  abbrev loop : List (String × String) → Option AppError → ℕ → QuotaStore → Executed
  loop = execute_loop chat now max_retries cooldown by_key

  abbrev tried : Candidate → ℕ → Tried
  tried = attempt_with_retry chat max_retries

  -- One round of the loop, at what the attempt on its candidate gives.
  pub round :
      (k : String × String) (ranked : List (String × String)) (last : Option AppError)
      (c : Candidate) (n : ℕ) (q : QuotaStore) (t : Tried)
      → candidate_at k by_key ≡ some c
      → tried c n ≡ t
      → loop (k ∷ ranked) last n q
        ≡ after_attempt chat now max_retries cooldown (loop ranked) c q t t.outcome
  unfolding execute_loop
  round k ranked last c n q t here e =
      rw (here, execute_loop)
        (ap
          (λ (x : Tried). after_attempt chat now max_retries cooldown (loop ranked) c q x x.outcome)
          e)

  attempt_loop-finished :
      (left : ℕ) (c : Candidate) (n : ℕ)
      → (chat c n).ending ≡ Ending.finished
      → attempt_loop chat left c n
        ≡ record { out = (chat c n).chunks; calls = n + 1; outcome = Outcome.returned }
  unfolding attempt_loop
  attempt_loop-finished zero c n h = ground arith
  attempt_loop-finished (suc left) c n h = ground arith

  attempt_loop-cut :
      (left : ℕ) (c : Candidate) (n : ℕ) (e : AppError)
      → (chat c n).chunks ≢ []
      → (chat c n).ending ≡ Ending.failed e
      → attempt_loop chat left c n
        ≡ record { out = (chat c n).chunks; calls = n + 1; outcome = Outcome.raised e }
  unfolding attempt_loop
  attempt_loop-cut zero c n e some_chunk h = ground arith
  attempt_loop-cut (suc left) c n e some_chunk h = ground arith

  loop-first :
      (k : String × String) (ranked : List (String × String)) (last : Option AppError)
      (c : Candidate) (n : ℕ) (q : QuotaStore)
      → candidate_at k by_key ≡ some c
      → (chat c n).ending ≡ Ending.finished
      → loop (k ∷ ranked) last n q
        ≡ record { out = (chat c n).chunks; calls = n + 1; quota = q; ended = Ended.returned }
  loop-first k ranked last c n q here h =
      round k ranked last c n q
        (record { out = (chat c n).chunks; calls = n + 1; outcome = Outcome.returned }) here
        (unfold attempt_with_retry in attempt_loop-finished max_retries c n h)

  -- Where the best candidate answers, its chunks are the answer: one call, no other candidate, and
  -- the quota store is as it was.
  execute_with_failover-first :
      (k : String × String) (ranked : List (String × String)) (c : Candidate) (n : ℕ)
      (q : QuotaStore)
      → candidate_at k by_key ≡ some c
      → (chat c n).ending ≡ Ending.finished
      → run (k ∷ ranked) n q
        ≡ record { out = (chat c n).chunks; calls = n + 1; quota = q; ended = Ended.returned }
  unfolding execute_with_failover
  execute_with_failover-first k ranked c n q here h = loop-first k ranked none c n q here h

  -- A candidate that fails after it has streamed chunks is failed over all the same: where the next
  -- candidate answers, the consumer receives the chunks of the one, then those of the other, and no
  -- error.
  pub execute_with_failover-mid_stream :
      (k k' : String × String) (ranked : List (String × String)) (c c' : Candidate) (n : ℕ)
      (q : QuotaStore) (e : AppError)
      → candidate_at k by_key ≡ some c
      → candidate_at k' by_key ≡ some c'
      → (chat c n).chunks ≢ []
      → (chat c n).ending ≡ Ending.failed e
      → (chat c' (n + 1)).ending ≡ Ending.finished
      → ((run (k ∷ k' ∷ ranked) n q).out ≡ (chat c n).chunks ++ (chat c' (n + 1)).chunks)
        × ((run (k ∷ k' ∷ ranked) n q).ended ≡ Ended.returned)
  unfolding execute_with_failover
  execute_with_failover-mid_stream k k' ranked c c' n q e here here' some_chunk cut fine =
      (ap (λ (x : Executed). x.out) both, ap (λ (x : Executed). x.ended) both)
    where
      both :
          loop (k ∷ k' ∷ ranked) none n q
          ≡ after_out (chat c n).chunks (record {
            out = (chat c' (n + 1)).chunks;
            calls = n + 1 + 1;
            quota = cool chat now max_retries cooldown e c (n + 1) q;
            ended = Ended.returned;
          })
      both =
          round k (k' ∷ ranked) none c n q
            (record { out = (chat c n).chunks; calls = n + 1; outcome = Outcome.raised e }) here
            (unfold attempt_with_retry in attempt_loop-cut max_retries c n e some_chunk cut)
          ∙ ap (after_out (chat c n).chunks) (loop-first k' ranked (some e) c' (n + 1) _ here' fine)
