-- ===== src/Gozlem.antt =====
-- Metrics: core/turkish_code/gozlem (catalog.py, collect.py). The redactor of the dimensions, the
-- floats of gauges and histograms and the integers of counters are parameters.
pub mod Tables
pub mod Laws
pub mod Katalog
use turkish_code.Base.{
  ℕ, String, Bool, true, false, not, List, [], ◌∷◌, ◌++◌, Option, none, some, map, filter,
  if◌then◌else◌, leb, length, str_eq, ◌&&◌,
}
use turkish_code.Base.Dict.{Dict, lookup, insert}
use turkish_code.Base.Order.{text_leb, then_by, sorted}
use turkish_code.Hata.{Raised, Done, ok, err}
use turkish_code.Gozlem.Katalog.{MetricKind, MetricName, name_text, kind_of, same_kind}

abbrev pub DimKey : Type 0
DimKey = List (String × String)

-- A dict whose keys are dimension combinations.
abbrev pub Table : Type 0 → Type 0
Table V = List (DimKey × V)

abbrev pub same_dims : DimKey → DimKey → Bool
same_dims [] [] = true
same_dims (d ∷ ds) (e ∷ es) = str_eq d.0 e.0 && str_eq d.1 e.1 && same_dims ds es
same_dims _ _ = false

module _ {V : Type 0} where
  abbrev pub dims_of : Table V → List DimKey
  dims_of t = map (λ (entry : DimKey × V). entry.0) t

  unfoldable pub table_get : DimKey → Table V → Option V
  table_get k [] = none
  table_get k (entry ∷ rest) = if same_dims entry.0 k then some entry.1 else table_get k rest

  unfoldable pub table_put : DimKey → V → Table V → Table V
  table_put k v [] = (k, v) ∷ []
  table_put k v (entry ∷ rest) =
      let later = table_put k v rest in
      if same_dims entry.0 k then (entry.0, v) ∷ rest else entry ∷ later

  -- `tables.get(name, {})`
  abbrev pub table_of : MetricName → Dict (Table V) → Table V
  table_of name tables = elim (lookup (name_text name) tables) [ none ↦ [] | some t ↦ t ]

-- Membership in a set of keys, and the union of two of them.
abbrev pub has_dims : DimKey → List DimKey → Bool
has_dims k [] = false
has_dims k (j ∷ js) = if same_dims j k then true else has_dims k js

abbrev pub union : List DimKey → List DimKey → List DimKey
union js ks = js ++ filter (λ k. not (has_dims k js)) ks

-- `InMemoryMetricsCollector`
pub record Metrics (C F : Type 0) : Type 0 where
  pub counters : Dict (Table C)
  pub gauges : Dict (Table F)
  pub histograms : Dict (Table (List F))

abbrev pub max_dim_combinations : ℕ
max_dim_combinations = 200

abbrev dims_leb : String × String → String × String → Bool
dims_leb = then_by (λ d e. text_leb d.0 e.0) (λ d e. text_leb d.1 e.1)

module _ {C F : Type 0} (zero : C) (plus : C → C → C) (redact : Dict String → Dict String) where
  unfoldable pub known_keys : MetricName → Metrics C F → List DimKey
  known_keys name m =
      union (union (dims_of (table_of name m.counters)) (dims_of (table_of name m.gauges)))
        (dims_of (table_of name m.histograms))

  unfoldable pub dim_key : MetricName → Dict String → Metrics C F → Option DimKey
  dim_key name dims m =
      let key = sorted dims_leb (redact dims) in
      let existing = known_keys name m in
      if not (has_dims key existing) && leb max_dim_combinations (length existing)
      then none
      else some key

  -- `_require_kind`, and what follows it.
  abbrev pub for_kind : MetricKind → MetricName → Metrics C F → Metrics C F → Done × Metrics C F
  for_kind expected name m after =
      if same_kind (kind_of name) expected then (ok tt, after) else (err Raised.value_error, m)

  abbrev pub counted : MetricName → C → Metrics C F → Option DimKey → Metrics C F
  counted name by m none = m
  counted name by m (some key) =
      let table = table_of name m.counters in
      let before : C = elim (table_get key table) [ none ↦ zero | some c ↦ c ] in
      record m {
        counters = insert (name_text name) (table_put key (plus before by) table) m.counters;
      }

  abbrev pub gauged : MetricName → F → Metrics C F → Option DimKey → Metrics C F
  gauged name value m none = m
  gauged name value m (some key) = record m {
    gauges = insert (name_text name) (table_put key value (table_of name m.gauges)) m.gauges;
  }

  abbrev pub observed : MetricName → F → Metrics C F → Option DimKey → Metrics C F
  observed name value m none = m
  observed name value m (some key) =
      let table = table_of name m.histograms in
      let before : List F = elim (table_get key table) [ none ↦ [] | some values ↦ values ] in
      record m {
        histograms =
            insert (name_text name) (table_put key (before ++ value ∷ []) table) m.histograms;
      }

  unfoldable pub increment : MetricName → C → Dict String → Metrics C F → Done × Metrics C F
  increment name by dims m =
      for_kind MetricKind.counter name m (counted name by m (dim_key name dims m))

  unfoldable pub set_gauge : MetricName → F → Dict String → Metrics C F → Done × Metrics C F
  set_gauge name value dims m =
      for_kind MetricKind.gauge name m (gauged name value m (dim_key name dims m))

  unfoldable pub observe : MetricName → F → Dict String → Metrics C F → Done × Metrics C F
  observe name value dims m =
      for_kind MetricKind.histogram name m (observed name value m (dim_key name dims m))

-- A call of the collector.
pub data Call (C F : Type 0) : Type 0 where
  incremented : (name : MetricName) (by : C) (dims : Dict String) → Call C F
  was_set was_observed : (name : MetricName) (value : F) (dims : Dict String) → Call C F

module _ {C F : Type 0} (zero : C) (plus : C → C → C) (redact : Dict String → Dict String) where
  -- What a sequence of calls leaves; a call that raises leaves what was there.
  unfoldable pub play : List (Call C F) → Metrics C F → Metrics C F
  play [] m = m
  play (incremented name by dims ∷ calls) m =
      play calls (increment zero plus redact name by dims m).1
  play (was_set name value dims ∷ calls) m =
      play calls (set_gauge zero plus redact name value dims m).1
  play (was_observed name value dims ∷ calls) m =
      play calls (observe zero plus redact name value dims m).1
