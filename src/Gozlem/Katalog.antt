-- ===== src/Gozlem/Katalog.antt =====
-- The metric catalogue: core/turkish_code/gozlem/catalog.py.
pub mod Laws
use turkish_code.Base.{String, Bool, true, false}

pub data MetricKind : Type 0 where
  counter gauge histogram : MetricKind

pub data MetricName : Type 0 where
  route_requests route_selected_model route_decision_latency route_degraded : MetricName
  route_unroutable provider_calls provider_latency provider_health : MetricName
  provider_reliability failover_events retry_attempts cooldown_entered : MetricName
  offline_fallback_used quota_headroom quota_exhausted cost_estimated : MetricName
  model_cache_hits model_cache_misses model_cache_refreshes : MetricName

-- The text of a name, which is what a dict keyed by it compares.
abbrev pub name_text : MetricName → String
name_text route_requests = "route.requests"
name_text route_selected_model = "route.selected_model"
name_text route_decision_latency = "route.decision_latency"
name_text route_degraded = "route.degraded"
name_text route_unroutable = "route.unroutable"
name_text provider_calls = "provider.calls"
name_text provider_latency = "provider.latency"
name_text provider_health = "provider.health"
name_text provider_reliability = "provider.reliability"
name_text failover_events = "failover.events"
name_text retry_attempts = "retry.attempts"
name_text cooldown_entered = "cooldown.entered"
name_text offline_fallback_used = "offline_fallback.used"
name_text quota_headroom = "quota.headroom"
name_text quota_exhausted = "quota.exhausted"
name_text cost_estimated = "cost.estimated"
name_text model_cache_hits = "model_cache.hits"
name_text model_cache_misses = "model_cache.misses"
name_text model_cache_refreshes = "model_cache.refreshes"

abbrev pub kind_of : MetricName → MetricKind
kind_of route_requests = counter
kind_of route_selected_model = counter
kind_of route_decision_latency = histogram
kind_of route_degraded = counter
kind_of route_unroutable = counter
kind_of provider_calls = counter
kind_of provider_latency = histogram
kind_of provider_health = gauge
kind_of provider_reliability = gauge
kind_of failover_events = counter
kind_of retry_attempts = counter
kind_of cooldown_entered = counter
kind_of offline_fallback_used = counter
kind_of quota_headroom = gauge
kind_of quota_exhausted = counter
kind_of cost_estimated = counter
kind_of model_cache_hits = counter
kind_of model_cache_misses = counter
kind_of model_cache_refreshes = counter

abbrev pub same_kind : MetricKind → MetricKind → Bool
same_kind counter counter = true
same_kind gauge gauge = true
same_kind histogram histogram = true
same_kind _ _ = false
