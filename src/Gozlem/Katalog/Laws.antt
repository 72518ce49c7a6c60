-- ===== src/Gozlem/Katalog/Laws.antt =====
-- The names of core/turkish_code/gozlem/catalog.py are told apart by their texts.
use turkish_code.Base.{◌≡◌, refl, sym, ap, ◌∙◌, arith, [], ◌∷◌, some}
use turkish_code.Base.Dict.{Dict, lookup}
use turkish_code.Gozlem.Katalog.{MetricKind, MetricName, name_text, kind_of}

abbrev kinds : Dict MetricKind
kinds =
    ("route.requests", MetricKind.counter)
    ∷ ("route.selected_model", MetricKind.counter)
    ∷ ("route.decision_latency", MetricKind.histogram)
    ∷ ("route.degraded", MetricKind.counter)
    ∷ ("route.unroutable", MetricKind.counter)
    ∷ ("provider.calls", MetricKind.counter)
    ∷ ("provider.latency", MetricKind.histogram)
    ∷ ("provider.health", MetricKind.gauge)
    ∷ ("provider.reliability", MetricKind.gauge)
    ∷ ("failover.events", MetricKind.counter)
    ∷ ("retry.attempts", MetricKind.counter)
    ∷ ("cooldown.entered", MetricKind.counter)
    ∷ ("offline_fallback.used", MetricKind.counter)
    ∷ ("quota.headroom", MetricKind.gauge)
    ∷ ("quota.exhausted", MetricKind.counter)
    ∷ ("cost.estimated", MetricKind.counter)
    ∷ ("model_cache.hits", MetricKind.counter)
    ∷ ("model_cache.misses", MetricKind.counter)
    ∷ ("model_cache.refreshes", MetricKind.counter)
    ∷ []

lookup-kinds : (name : MetricName) → lookup (name_text name) kinds ≡ some (kind_of name)
unfolding lookup
lookup-kinds MetricName.route_requests = refl
lookup-kinds MetricName.route_selected_model = refl
lookup-kinds MetricName.route_decision_latency = refl
lookup-kinds MetricName.route_degraded = refl
lookup-kinds MetricName.route_unroutable = refl
lookup-kinds MetricName.provider_calls = refl
lookup-kinds MetricName.provider_latency = refl
lookup-kinds MetricName.provider_health = refl
lookup-kinds MetricName.provider_reliability = refl
lookup-kinds MetricName.failover_events = refl
lookup-kinds MetricName.retry_attempts = refl
lookup-kinds MetricName.cooldown_entered = refl
lookup-kinds MetricName.offline_fallback_used = refl
lookup-kinds MetricName.quota_headroom = refl
lookup-kinds MetricName.quota_exhausted = refl
lookup-kinds MetricName.cost_estimated = refl
lookup-kinds MetricName.model_cache_hits = refl
lookup-kinds MetricName.model_cache_misses = refl
lookup-kinds MetricName.model_cache_refreshes = refl

-- Names with one text are of one kind.
pub kind_of-name_text :
    (name other : MetricName) → name_text name ≡ name_text other → kind_of name ≡ kind_of other
kind_of-name_text name other e =
    let same = sym (lookup-kinds name) ∙ ap (λ s. lookup s kinds) e ∙ lookup-kinds other in
    ground (arith, same)
