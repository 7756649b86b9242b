-- ===== src/Subscription/Rows.antt =====
-- What a subscription reads of the column store (`Value::to_json`, `get_row_map`,
-- `get_row_map_projected` in crates/cq-core/src/store.rs, `project_row` in
-- crates/cq-core/src/query.rs), and the part of a query that it uses. A JSON object is an association
-- list.
use cqserver.Prelude.{
  ℕ, zero, suc, ℤ, String, Bool, Option, some, List, [], ◌∷◌, Assoc, insert, int_eq, if◌then◌else◌,
  string_eq,
}
use cqserver.Predicate.Values.{
  Ops, Str, Row, Value, double_value, long_value, int_value, string_value, bool_value,
  timestamp_value, bytes_value, null_long, null_int, null_timestamp, is_null_value,
}
use cqserver.Predicate.Compiled.{CompiledPredicate}
use Prim.Native.Nat.{Ordering}

pub data Json (F : Type 0) : Type 0 where
  null_json : Json F
  float_json : F → Json F
  integer_json : ℤ → Json F
  text_json : Str → Json F
  bool_json : Bool → Json F

abbrev pub JsonMap : Type 0 → Type 0
JsonMap F = Assoc String (Json F)

-- Of floats, the total order and the test for a number that JSON can carry; the printers of
-- timestamps and of base64.
pub record StoreOps (F : Type 0) : Type 0 where
  pub total_cmp : F → F → Ordering
  pub is_finite : F → Bool
  pub format_timestamp_micros : ℤ → Str
  pub base64 : List ℕ → Str

-- The columns of the schema, and the rows that have been appended.
pub record ColumnStore (F : Type 0) : Type 0 where
  pub column_count : ℕ
  pub column_name : ℕ → String
  pub row_count : ℕ
  pub rows : ℕ → Row F

-- The fields of `ParsedQuery` that a subscription without aggregates reads.
pub record Query (F R : Type 0) : Type 0 where
  pub projection : List ℕ
  pub predicate : CompiledPredicate F R
  pub order_by : List (ℕ × Bool)
  pub limit : Option ℕ

-- `n` numbers from `i` on.
unfoldable pub range_from : ℕ → ℕ → List ℕ
range_from i zero = []
range_from i (suc n) = i ∷ range_from (suc i) n

module _ {F R : Type 0} (ops : Ops F R) (store_ops : StoreOps F) where
  unfoldable pub to_json : Value F → Json F
  to_json (double_value v) =
      if ops.is_nan v then null_json else if store_ops.is_finite v then float_json v else null_json
  to_json (long_value v) = if int_eq v null_long then null_json else integer_json v
  to_json (int_value v) = if int_eq v null_int then null_json else integer_json v
  to_json (string_value (some s)) = text_json s
  to_json (bool_value (some b)) = bool_json b
  to_json (timestamp_value v) =
      if int_eq v null_timestamp then null_json else text_json (store_ops.format_timestamp_micros v)
  to_json (bytes_value (some b)) = text_json (store_ops.base64 b)
  to_json _ = null_json

  module _ (store : ColumnStore F) (row : ℕ) where
    -- The loop over the columns of `get_row_map` and `get_row_map_projected`.
    unfoldable pub fill : List ℕ → JsonMap F → JsonMap F
    fill [] entries = entries
    fill (col ∷ cols) entries =
        let v = (store.rows row col).value in
        fill cols (
          if is_null_value ops v
          then entries
          else insert (store.column_name col) (to_json v) entries)

    unfoldable pub get_row_map : JsonMap F
    get_row_map = fill (range_from 0 store.column_count) []

    unfoldable pub get_row_map_projected : List ℕ → JsonMap F
    get_row_map_projected cols = fill cols []

  unfoldable pub project_row : Query F R → ColumnStore F → ℕ → JsonMap F
  project_row query store row = elim query.projection [
    | [] ↦ get_row_map store row
    | c ∷ cs ↦ get_row_map_projected store row (c ∷ cs)
  ]
