-- ===== src/Topic/Merging.antt =====
-- The values of a row that a map of fields stands for (crates/cq-core/src/topic.rs).
use cqserver.Prelude.{ℕ, ◌+◌, String, Option, none, some, List, [], ◌∷◌, lookup, string_eq}
use cqserver.Predicate.Values.{Ops, Value, ColumnType, null_value}
use cqserver.Subscription.Rows.{JsonMap}
use cqserver.Topic.Values.{TextOps, from_json}
use cqserver.Topic.Table.{Table, get}

module _ {F R : Type 0} (ops : Ops F R) (text : TextOps F) where
  -- One value for each column: null where the map has no field.
  unfoldable pub map_values : List (String × ColumnType) → JsonMap F → List (Value F)
  map_values [] fields = []
  map_values (c ∷ cs) fields =
      elim (lookup c.0 fields) as (λ _. Value F) [
        | none ↦ null_value
        | some j ↦ from_json ops text j c.1
      ]
      ∷ map_values cs fields

  -- The stored value of a column of the key's row, or null for a new key.
  unfoldable pub stored_value : Table F → Option ℕ → ℕ → Value F
  stored_value table none i = null_value
  stored_value table (some row) i = elim (get table i row) [ none ↦ null_value | some v ↦ v ]

  -- The merged row, from column `i` on.
  unfoldable pub merged_values :
      Table F → Option ℕ → JsonMap F → ℕ → List (String × ColumnType) → List (Value F)
  merged_values table existing fields i [] = []
  merged_values table existing fields i (c ∷ cs) =
      elim (lookup c.0 fields) as (λ _. Value F) [
        | none ↦ stored_value table existing i
        | some j ↦ from_json ops text j c.1
      ]
      ∷ merged_values table existing fields (i + 1) cs

unfoldable pub changed_columns : {F : Type 0} → JsonMap F → ℕ → List (String × ColumnType) → List ℕ
changed_columns fields i [] = []
changed_columns fields i (c ∷ cs) = elim (lookup c.0 fields) [
  | none ↦ changed_columns fields (i + 1) cs
  | some j ↦ i ∷ changed_columns fields (i + 1) cs
]
