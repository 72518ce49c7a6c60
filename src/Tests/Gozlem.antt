-- ===== src/Tests/Gozlem.antt =====
-- The collector of core/turkish_code/gozlem/collect.py with whole numbers and no redaction.
use turkish_code.Base.{ℕ, List, [], ◌∷◌}
use turkish_code.Gozlem.Katalog.{MetricName}
use turkish_code.Gozlem.{Call, incremented, was_observed}

-- One call is of the wrong kind.
abbrev calls : List (Call ℕ ℕ)
calls =
    incremented MetricName.provider_calls 1 (("provider", "groq") ∷ [])
    ∷ was_observed MetricName.provider_calls 5 []
    ∷ []
