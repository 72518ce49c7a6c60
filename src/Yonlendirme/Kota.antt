-- ===== src/Yonlendirme/Kota.antt =====
-- Quota accounting: core/turkish_code/yonlendirme/quota (store.py, tracker.py, headroom.py).
-- An instant and a duration are a number of ticks; `now` is what the injected clock reads.
pub mod Laws
use turkish_code.Base.{
  ℕ, ◌+◌, ◌-◌, ◌<◌, String, Bool, true, false, List, [], ◌∷◌, ◌++◌, Option, none, some, filter, leb,
  ltb, ◌==◌, if◌then◌else◌,
}
use turkish_code.Base.Dict.{Dict, lookup, insert, pop}

pub record UsageRecord : Type 0 where
  pub at : ℕ
  pub requests : ℕ
  pub tokens : ℕ

-- `InMemoryQuotaStore`
pub record QuotaStore : Type 0 where
  pub usage : Dict (List UsageRecord)
  pub cooldowns : Dict ℕ

-- `self._usage.get(provider_id, [])`
abbrev pub records_of : String → QuotaStore → List UsageRecord
records_of p q = elim (lookup p q.usage) [ none ↦ [] | some rs ↦ rs ]

unfoldable pub store_record : String → UsageRecord → QuotaStore → QuotaStore
store_record p r q = record q { usage = insert p (records_of p q ++ r ∷ []) q.usage }

unfoldable pub usage_since : String → ℕ → QuotaStore → List UsageRecord
usage_since p since q = filter (λ r. leb since r.at) (records_of p q)

unfoldable pub set_cooldown_until : String → Option ℕ → QuotaStore → QuotaStore
set_cooldown_until p none q = record q { cooldowns = pop p q.cooldowns }
set_cooldown_until p (some until) q = record q { cooldowns = insert p until q.cooldowns }

unfoldable pub cooldown_until : String → QuotaStore → Option ℕ
cooldown_until p q = lookup p q.cooldowns

pub record UsageTotals : Type 0 where
  pub requests : ℕ
  pub tokens : ℕ

abbrev pub sum_of : (UsageRecord → ℕ) → List UsageRecord → ℕ
sum_of f [] = 0
sum_of f (r ∷ rs) = f r + sum_of f rs

-- `QuotaTracker`, over its store and the instant that its clock reads.
unfoldable pub record_usage : (now : ℕ) → String → (requests tokens : ℕ) → QuotaStore → QuotaStore
unfolding store_record
record_usage now p requests tokens =
    store_record p (record { at = now; requests = requests; tokens = tokens })

-- `now - window` stops at 0 here; no record is older than the origin of time.
unfoldable pub usage_in_window : (now window : ℕ) → String → QuotaStore → UsageTotals
unfolding usage_since
usage_in_window now window p q =
    let records = usage_since p (now - window) q in
    record { requests = sum_of (λ r. r.requests) records; tokens = sum_of (λ r. r.tokens) records }

unfoldable pub enter_cooldown : String → (until : ℕ) → QuotaStore → QuotaStore
unfolding set_cooldown_until
enter_cooldown p until = set_cooldown_until p (some until)

unfoldable pub is_cooling_down : (now : ℕ) → String → QuotaStore → Bool
unfolding cooldown_until
is_cooling_down now p q = elim (cooldown_until p q) [ none ↦ false | some expiry ↦ ltb now expiry ]

-- headroom.py. A headroom is the fraction that the source computes, before it is rounded to a
-- float; `max(0.0, limit - used)` is the subtraction that stops at 0, and a limit that is negative
-- acts as the limit 0.
pub record Fraction : Type 0 where
  pub num : ℕ
  pub den : ℕ

pub data CooldownState : Type 0 where
  available cooling_down : CooldownState

pub record ProviderQuotaState : Type 0 where
  pub headroom_requests : Option Fraction
  pub headroom_tokens : Option Fraction
  pub cooldown : CooldownState

unfoldable pub headroom : Option ℕ → ℕ → Option Fraction
headroom none used = none
headroom (some limit) used =
    if leb limit 0 then none else some (record { num = limit - used; den = limit })

unfoldable pub compute_quota_state : Dict ℕ → UsageTotals → Bool → ProviderQuotaState
unfolding headroom
compute_quota_state quota_limits usage cooling = record {
  headroom_requests = headroom (lookup "requests_per_window" quota_limits) usage.requests;
  headroom_tokens = headroom (lookup "tokens_per_window" quota_limits) usage.tokens;
  cooldown = if cooling then cooling_down else available;
}
