-- ===== src/Tests/Yonlendirme.antt =====
-- The routing of core/turkish_code/yonlendirme with two concrete providers.
use turkish_code.Base.{
  ℕ, ◌+◌, ◌≤◌, ◌≡◌, ◌≢◌, inr, refl, String, true, List, [], ◌∷◌, arith, str_eq, if◌then◌else◌,
}
use turkish_code.Hata.{ErrorKind, AppError, app_error, no_cause}
use turkish_code.Yonlendirme.Kota.{QuotaStore}
use turkish_code.Yonlendirme.Dayaniklilik.{
  Ending, Attempt, Candidate, Candidates, candidate_at, Ended, attempt_with_retry,
  execute_with_failover,
}
use turkish_code.Yonlendirme.Dayaniklilik.Laws.{attempt_with_retry-once}
use turkish_code.Yonlendirme.Dayaniklilik.Failover.{execute_with_failover-mid_stream}
use turkish_code.Yonlendirme.Dayaniklilik.Outcomes.{
  Explains, IsWhole, execute_with_failover-Explains, execute_with_failover-IsWhole,
}
use turkish_code.Yonlendirme.Dayaniklilik.Cooldown.{CoolsUntil, execute_with_failover-cools}

abbrev groq : Candidate
groq = record { provider_id = "groq"; model_id = "m1" }

abbrev gemini : Candidate
gemini = record { provider_id = "gemini"; model_id = "m2" }

abbrev by_key : Candidates
by_key = (("groq", "m1"), groq) ∷ (("gemini", "m2"), gemini) ∷ []

abbrev ranked : List (String × String)
ranked = ("groq", "m1") ∷ ("gemini", "m2") ∷ []

abbrev limited : AppError
limited = app_error ErrorKind.provider "provider.rate_limited" true no_cause

abbrev broken : AppError
broken = app_error ErrorKind.provider "provider.http_error" true no_cause

abbrev answers : Attempt
answers = record { chunks = "mer" ∷ "haba" ∷ []; ending = Ending.finished }

-- The first provider refuses for its rate, the second answers.
abbrev refuses : Candidate → ℕ → Attempt
refuses c n =
    if str_eq c.provider_id "groq"
    then record { chunks = []; ending = Ending.failed limited }
    else answers

-- The first provider breaks off in mid-stream, the second answers.
abbrev breaks_off : Candidate → ℕ → Attempt
breaks_off c n =
    if str_eq c.provider_id "groq"
    then record { chunks = "mer" ∷ []; ending = Ending.failed broken }
    else answers

abbrev clock : ℕ → ℕ
clock n = 10 + n

abbrev quota : QuotaStore
quota = record { usage = []; cooldowns = [] }

attempt_with_retry-once_example :
    ((attempt_with_retry refuses 2 groq 0).calls ≡ 1)
    × ((attempt_with_retry refuses 2 groq 0).out ≡ [])
    × (attempt_with_retry refuses 2 groq 0 ≡ attempt_with_retry refuses 0 groq 0)
attempt_with_retry-once_example =
    attempt_with_retry-once refuses 2 groq 0 limited (inr (refl, refl))

execute_with_failover-Explains_example :
    Explains refuses clock 2 60 by_key ranked
      (execute_with_failover refuses clock 2 60 by_key ranked 0 quota).ended
execute_with_failover-Explains_example =
    execute_with_failover-Explains refuses clock 2 60 by_key ranked 0 quota

refuses-whole :
    (c : Candidate) (n : ℕ) → (refuses c n).chunks ≢ [] → (refuses c n).ending ≡ Ending.finished
refuses-whole c n some_chunk = ground arith

execute_with_failover-IsWhole_example :
    IsWhole refuses clock 2 60 by_key refuses-whole
      (execute_with_failover refuses clock 2 60 by_key ranked 0 quota)
execute_with_failover-IsWhole_example =
    execute_with_failover-IsWhole refuses clock 2 60 by_key refuses-whole ranked 0 quota

execute_with_failover-cools_example :
    CoolsUntil "groq" 71 (execute_with_failover refuses clock 2 60 by_key ranked 0 quota).quota
unfolding candidate_at
execute_with_failover-cools_example =
    execute_with_failover-cools refuses clock 2 60 by_key ("groq", "m1") (("gemini", "m2") ∷ [])
      groq 0 quota limited clock-monotone refl refl refl
  where
    clock-monotone : (m m' : ℕ) → m ≤ m' → clock m ≤ clock m'
    clock-monotone m m' h = omega arith

execute_with_failover-mid_stream_example :
    ((execute_with_failover breaks_off clock 2 60 by_key ranked 0 quota).out
      ≡ "mer" ∷ "mer" ∷ "haba" ∷ [])
    × ((execute_with_failover breaks_off clock 2 60 by_key ranked 0 quota).ended ≡ Ended.returned)
unfolding candidate_at
execute_with_failover-mid_stream_example =
    execute_with_failover-mid_stream breaks_off clock 2 60 by_key ("groq", "m1") ("gemini", "m2") []
      groq gemini 0 quota broken refl refl some_chunk refl refl
  where
    some_chunk : (breaks_off groq 0).chunks ≢ []
    some_chunk h = ground arith
