-- ===== src/Subscription/Sparse.antt =====
-- Sparse updates: only the columns that changed since the last delta of the row, and the key columns
-- (`effective_projection`, `snapshot_columns`, `diff_update`, `key_only_payload` in
-- crates/cq-core/src/subscription.rs). The comparison of values is Rust's: NaN differs from itself.
use cqserver.Prelude.{
  ℕ, Bool, true, false, not, ◌||◌, Option, none, some, List, [], ◌∷◌, int_eq, Assoc, lookup, insert,
  if◌then◌else◌, number_eq, string_eq,
}
use cqserver.Predicate.Values.{
  Ops, Str, Value, double_value, long_value, int_value, string_value, bool_value, timestamp_value,
  bytes_value, null_value, is_null_value, str_eq,
}
use cqserver.Subscription.RowSet.{contains}
use cqserver.Subscription.Rows.{StoreOps, ColumnStore, JsonMap, Query, to_json, range_from}

abbrev pub option_str_eq : Option Str → Option Str → Bool
option_str_eq none none = true
option_str_eq (some s) (some t) = str_eq s t
option_str_eq _ _ = false

abbrev pub option_bool_eq : Option Bool → Option Bool → Bool
option_bool_eq none none = true
option_bool_eq (some true) (some true) = true
option_bool_eq (some false) (some false) = true
option_bool_eq _ _ = false

unfoldable pub effective_projection : {F R : Type 0} → Query F R → ℕ → List ℕ
effective_projection query schema_column_count = elim query.projection [
  | [] ↦ range_from 0 schema_column_count
  | c ∷ cs ↦ c ∷ cs
]

unfoldable pub snapshot_columns : {F : Type 0} → ColumnStore F → ℕ → List ℕ → Assoc ℕ (Value F)
snapshot_columns store row [] = []
snapshot_columns store row (c ∷ cs) =
    insert c (store.rows row c).value (snapshot_columns store row cs)

pub record SparseDiff (F : Type 0) : Type 0 where
  pub payload : JsonMap F
  pub new_snapshot : Assoc ℕ (Value F)
  pub any_changed : Bool

module _ {F R : Type 0} (ops : Ops F R) (store_ops : StoreOps F) where
  unfoldable pub value_eq : Value F → Value F → Bool
  value_eq (double_value x) (double_value y) = ops.eq_f x y
  value_eq (long_value x) (long_value y) = int_eq x y
  value_eq (int_value x) (int_value y) = int_eq x y
  value_eq (string_value x) (string_value y) = option_str_eq x y
  value_eq (bool_value x) (bool_value y) = option_bool_eq x y
  value_eq (timestamp_value x) (timestamp_value y) = int_eq x y
  value_eq (bytes_value x) (bytes_value y) = option_str_eq x y
  value_eq null_value null_value = true
  value_eq _ _ = false

  -- Whether a column differs from what the previous snapshot holds of it.
  unfoldable pub column_changed : Option (Assoc ℕ (Value F)) → ℕ → Value F → Bool
  column_changed none col v = true
  column_changed (some p) col v = elim (lookup col p) [
    | none ↦ true
    | some old ↦ not (value_eq old v)
  ]

  module _ (store : ColumnStore F) (row : ℕ) (key_cols : List ℕ) where
    unfoldable pub put_column : ℕ → JsonMap F → JsonMap F
    put_column col out =
        let v = (store.rows row col).value in
        if is_null_value ops v
        then out
        else insert (store.column_name col) (to_json ops store_ops v) out

    -- The loop over the projected columns.
    unfoldable pub diff_columns : Option (Assoc ℕ (Value F)) → List ℕ → SparseDiff F → SparseDiff F
    diff_columns prev [] d = d
    diff_columns prev (col ∷ cols) d =
        let v = (store.rows row col).value in
        let changed = column_changed prev col v in
        diff_columns prev cols (record {
          payload =
              if changed || contains col key_cols then put_column col d.payload else d.payload;
          new_snapshot = insert col v d.new_snapshot;
          any_changed = d.any_changed || changed;
        })

    -- The loop over the key columns that the projection leaves out.
    unfoldable pub add_keys : List ℕ → SparseDiff F → SparseDiff F
    add_keys [] d = d
    add_keys (k ∷ ks) d = add_keys ks (elim (lookup k d.new_snapshot) [
      | some v ↦ d
      | none ↦ record d {
        new_snapshot = insert k (store.rows row k).value d.new_snapshot;
        payload = if d.any_changed then put_column k d.payload else d.payload;
      }
    ])

    unfoldable pub diff_update : Option (Assoc ℕ (Value F)) → List ℕ → SparseDiff F
    diff_update prev proj_cols = add_keys key_cols (
        diff_columns prev proj_cols
          (record { payload = []; new_snapshot = []; any_changed = false }))

  -- The key columns of a row that leaves, from its last snapshot.
  unfoldable pub key_only_payload :
      ColumnStore F → Assoc ℕ (Value F) → List ℕ → JsonMap F → JsonMap F
  key_only_payload store prev [] out = out
  key_only_payload store prev (k ∷ ks) out = key_only_payload store prev ks (elim (lookup k prev) [
    | none ↦ out
    | some v ↦
        if is_null_value ops v
        then out
        else insert (store.column_name k) (to_json ops store_ops v) out
  ])
