-- ===== src/Gozlem/Laws.antt =====
-- The bound on the dimensions that core/turkish_code/gozlem/collect.py keeps of a metric.
use turkish_code.Base.{◌≤◌, ◌≡◌, String, List, [], length}
use turkish_code.Base.Dict.{Dict}
use turkish_code.Gozlem.Katalog.{MetricKind, MetricName, kind_of}
use turkish_code.Gozlem.{
  DimKey, Table, dims_of, table_of, Metrics, max_dim_combinations, known_keys,
}

module _ {C F : Type 0} (zero : C) (plus : C → C → C) (redact : Dict String → Dict String) where
  -- What is kept of a metric of a kind: at most 200 dimension combinations, in the tables of its
  -- own kind alone.
  abbrev pub KeptTables : MetricKind → Table C → Table F → Table (List F) → Type 0
  KeptTables MetricKind.counter cs gs hs =
      (length (dims_of cs) ≤ max_dim_combinations) × (gs ≡ []) × (hs ≡ [])
  KeptTables MetricKind.gauge cs gs hs =
      (length (dims_of gs) ≤ max_dim_combinations) × (cs ≡ []) × (hs ≡ [])
  KeptTables MetricKind.histogram cs gs hs =
      (length (dims_of hs) ≤ max_dim_combinations) × (cs ≡ []) × (gs ≡ [])

  abbrev KeptAs : MetricKind → MetricName → Metrics C F → Type 0
  KeptAs kind name m =
      KeptTables kind (table_of name m.counters) (table_of name m.gauges)
        (table_of name m.histograms)

  abbrev pub IsKept : Metrics C F → Type 0
  IsKept m = (name : MetricName) → KeptAs (kind_of name) name m

  abbrev keys_at : MetricName → Metrics C F → List DimKey
  keys_at = known_keys zero plus redact
