-- ===== src/Yonlendirme/Dayaniklilik.antt =====
-- Retry and failover: core/turkish_code/yonlendirme/resilience.py. The providers and the clock are
-- the parameters of the section. What the consumer receives is the list of chunks.
pub mod Laws
pub mod Failover
pub mod Outcomes
pub mod Cooldown
use turkish_code.Base.{
  ℕ, zero, suc, ◌+◌, String, Bool, true, false, not, ◌||◌, ◌&&◌, List, [], ◌∷◌, ◌++◌, Option, none,
  some, if◌then◌else◌, str_eq,
}
use turkish_code.Hata.{
  ErrorKind, AppError, app_error, Cause, no_cause, caused_by, cause_of, code_of, Raised, app,
}
use turkish_code.Yonlendirme.Kota.{QuotaStore, enter_cooldown}

-- How a stream of a provider ends: it is exhausted, the timeout fires, it raises an AppError, or
-- it raises any other exception.
pub data Ending : Type 0 where
  finished timed_out crashed : Ending
  failed : AppError → Ending

pub record Attempt : Type 0 where
  pub chunks : List String
  pub ending : Ending

abbrev yielded_any : Attempt → Bool
yielded_any a = elim a.chunks [ [] ↦ false | c ∷ cs ↦ true ]

abbrev rate_limit_code : String
rate_limit_code = "provider.rate_limited"

abbrev pub is_rate_limit : AppError → Bool
is_rate_limit e = str_eq (code_of e) rate_limit_code

abbrev timeout_error : Attempt → AppError
timeout_error a = app_error ErrorKind.timeout "provider.timeout" (not (yielded_any a)) no_cause

-- How `_attempt_with_retry` ends, what it yielded, and the number of calls of `chat` until then.
pub data Outcome : Type 0 where
  returned crash : Outcome
  raised : AppError → Outcome

pub record Tried : Type 0 where
  pub out : List String
  pub calls : ℕ
  pub outcome : Outcome

abbrev after_chunks : Attempt → Tried → Tried
after_chunks a t = record { out = a.chunks ++ t.out; calls = t.calls; outcome = t.outcome }

abbrev ends_with : Attempt → ℕ → Outcome → Tried
ends_with a calls outcome = record { out = a.chunks; calls = calls + 1; outcome = outcome }

pub record Candidate : Type 0 where
  pub provider_id : String
  pub model_id : String

-- `candidates_by_key[...]`
abbrev pub Candidates : Type 0
Candidates = List ((String × String) × Candidate)

unfoldable pub candidate_at : String × String → Candidates → Option Candidate
candidate_at (p, m) [] = none
candidate_at (p, m) (((p', m'), c) ∷ cs) =
    if str_eq p' p && str_eq m' m then some c else candidate_at (p, m) cs

-- `execute_with_failover`: how it ends, what it yielded, the calls made and the quota store.
pub data Ended : Type 0 where
  returned crash : Ended
  raised : Raised → Ended

pub record Executed : Type 0 where
  pub out : List String
  pub calls : ℕ
  pub quota : QuotaStore
  pub ended : Ended

abbrev unroutable : Option AppError → AppError
unroutable last = app_error ErrorKind.provider "routing.unroutable" false (cause_of last)

abbrev pub after_out : List String → Executed → Executed
after_out out x = record { out = out ++ x.out; calls = x.calls; quota = x.quota; ended = x.ended }

-- `chat c n` is what `c` answers to the call of `chat` before which `n` calls were made, and
-- `now n` is what the clock reads when `n` calls have been made.
module _ (chat : Candidate → ℕ → Attempt) where
  -- The loop of `_attempt_with_retry`; `left` is `max_retries - attempt`.
  unfoldable pub attempt_loop : (left : ℕ) → Candidate → ℕ → Tried
  attempt_loop zero c calls =
      let a = chat c calls in
      elim a.ending [
        | finished ↦ ends_with a calls Outcome.returned
        | timed_out ↦ ends_with a calls (Outcome.raised (timeout_error a))
        | crashed ↦ ends_with a calls Outcome.crash
        | failed e ↦ ends_with a calls (Outcome.raised e)
      ]
  attempt_loop (suc left) c calls =
      let a = chat c calls in
      let again = after_chunks a (attempt_loop left c (calls + 1)) in
      elim a.ending [
        | finished ↦ ends_with a calls Outcome.returned
        | timed_out ↦
            if yielded_any a then ends_with a calls (Outcome.raised (timeout_error a)) else again
        | crashed ↦ ends_with a calls Outcome.crash
        | failed e ↦
            if yielded_any a || is_rate_limit e then ends_with a calls (Outcome.raised e) else again
      ]

  unfoldable pub attempt_with_retry : (max_retries : ℕ) → Candidate → ℕ → Tried
  attempt_with_retry max_retries = attempt_loop max_retries

module _ (chat : Candidate → ℕ → Attempt) (now : ℕ → ℕ) (max_retries cooldown : ℕ) where
  -- A candidate that is refused for its rate cools its provider down.
  abbrev pub cool : AppError → Candidate → ℕ → QuotaStore → QuotaStore
  cool e c calls q =
      if is_rate_limit e then enter_cooldown c.provider_id (now calls + cooldown) q else q

  -- What follows the attempt on a candidate; `rest` is the loop over the later candidates.
  abbrev pub after_attempt :
      (Option AppError → ℕ → QuotaStore → Executed)
      → Candidate
      → QuotaStore
      → Tried
      → Outcome
      → Executed
  after_attempt rest c q t Outcome.returned = record {
    out = t.out;
    calls = t.calls;
    quota = q;
    ended = Ended.returned;
  }
  after_attempt rest c q t Outcome.crash = record {
    out = t.out;
    calls = t.calls;
    quota = q;
    ended = Ended.crash;
  }
  after_attempt rest c q t (Outcome.raised e) =
      after_out t.out (rest (some e) t.calls (cool e c t.calls q))

  abbrev pub visit :
      (Option AppError → ℕ → QuotaStore → Executed) → ℕ → QuotaStore → Option Candidate → Executed
  visit rest calls q none = record {
    out = [];
    calls = calls;
    quota = q;
    ended = Ended.raised Raised.key_error;
  }
  visit rest calls q (some c) =
      let t = attempt_with_retry chat max_retries c calls in after_attempt rest c q t t.outcome

  -- The loop over the ranked candidates, of which it reads the provider and model ids.
  unfoldable pub execute_loop :
      Candidates → List (String × String) → Option AppError → ℕ → QuotaStore → Executed
  execute_loop by_key [] last calls q = record {
    out = [];
    calls = calls;
    quota = q;
    ended = Ended.raised (app (unroutable last));
  }
  execute_loop by_key (k ∷ ranked) last calls q =
      visit (execute_loop by_key ranked) calls q (candidate_at k by_key)

  unfoldable pub execute_with_failover :
      Candidates → List (String × String) → ℕ → QuotaStore → Executed
  execute_with_failover by_key ranked = execute_loop by_key ranked none
