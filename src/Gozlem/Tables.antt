-- ===== src/Gozlem/Tables.antt =====
-- The tables of core/turkish_code/gozlem/collect.py and their sizes.
use turkish_code.Base.{
  ◌+◌, ◌≤◌, ◌≡◌, refl, ap, arith, true, false, List, [], ◌∷◌, if◌then◌else◌, leb, length, str_eq,
}
use turkish_code.Base.Dict.{Dict, insert, lookup-insert}
use turkish_code.Gozlem.Katalog.{MetricKind, MetricName, name_text, same_kind}
use turkish_code.Gozlem.{DimKey, Table, dims_of, table_put, table_of, has_dims, union}

-- A key that is there keeps the number of entries, a new one adds one.
length-table_put :
    {V : Type 0} (k : DimKey) (v : V) (t : Table V)
    → length (dims_of (table_put k v t))
      ≡ (if has_dims k (dims_of t) then length (dims_of t) else length (dims_of t) + 1)
unfolding table_put
length-table_put k v [] = refl
length-table_put k v (entry ∷ rest) = ground (arith, length-table_put k v rest)

pub union_nil : (ks : List DimKey) → union [] ks ≡ ks
union_nil [] = refl
union_nil (k ∷ ks) = ap (λ l. k ∷ l) (union_nil ks)

pub table_put-bound :
    {V : Type 0} (k : DimKey) (v : V) (t : Table V) (known : List DimKey)
    → known ≡ dims_of t
    → (has_dims k known ≡ false → leb 200 (length known) ≡ false)
    → length (dims_of t) ≤ 200
    → length (dims_of (table_put k v t)) ≤ 200
table_put-bound k v t known same room le = ground (arith, length-table_put k v t, same, room)

pub table_of-insert :
    {V : Type 0} (name other : MetricName) (t : Table V) (tables : Dict (Table V))
    → table_of other (insert (name_text name) t tables)
      ≡ (if str_eq (name_text name) (name_text other) then t else table_of other tables)
table_of-insert name other t tables =
    ground (arith, lookup-insert (name_text name) (name_text other) t tables)

-- The kind that the call asks for is the metric's own.
pub kind_of-same_kind : (kind other : MetricKind) → same_kind kind other ≡ true → kind ≡ other
kind_of-same_kind kind other h = ground (arith, h)
