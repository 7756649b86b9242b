-- ===== src/Topic/Table.antt =====
-- The rows of the column store: each is the list of what its columns hold (`ColumnStore` in
-- crates/cq-core/src/store.rs). Capacity and the versions of rows, which readers retry on, are left out.
use cqserver.Prelude.{
  ℕ, Bool, true, false, Option, none, some, List, [], ◌∷◌, ◌++◌, map, get_elem?, set, if◌then◌else◌,
}
use cqserver.Predicate.Values.{Ops, Value, ColumnType, null_value}
use cqserver.Topic.Values.{TextOps, null_of, set_value}

pub record Table (F : Type 0) : Type 0 where
  pub kinds : List ColumnType
  pub rows : List (List (Value F))

abbrev pub is_null_variant : {F : Type 0} → Value F → Bool
is_null_variant null_value = true
is_null_variant v = false

-- The value of a column, of those that a row has.
unfoldable pub get : {F : Type 0} → Table F → ℕ → ℕ → Option (Value F)
get table col row = elim (get_elem? table.rows row) [
  | none ↦ none
  | some cells ↦ get_elem? cells col
]

module _ {F R : Type 0} (ops : Ops F R) (text : TextOps F) where
  -- A list of values set on a row, column by column.
  unfoldable pub set_all : List ColumnType → List (Value F) → List (Value F) → List (Value F)
  set_all (kind ∷ kinds) (v ∷ vs) (old ∷ cells) =
      set_value ops text kind v old ∷ set_all kinds vs cells
  set_all _ vs cells = cells

  -- The same, without the values that are null.
  unfoldable pub set_present : List ColumnType → List (Value F) → List (Value F) → List (Value F)
  set_present (kind ∷ kinds) (v ∷ vs) (old ∷ cells) =
      (if is_null_variant v then old else set_value ops text kind v old)
      ∷ set_present kinds vs cells
  set_present _ vs cells = cells

  -- A row that has not been written.
  unfoldable pub null_row : List ColumnType → List (Value F)
  null_row kinds = map (null_of ops) kinds

  abbrev rewrite : ℕ → (List (Value F) → List (Value F)) → Table F → Table F
  rewrite row f table = elim (get_elem? table.rows row) [
    | none ↦ table
    | some cells ↦ record table { rows = set table.rows row (f cells) }
  ]

  -- The new row is the last.
  unfoldable pub append_row_owned : List (Value F) → Table F → Table F
  append_row_owned values table = record table {
    rows = table.rows ++ set_all table.kinds values (null_row table.kinds) ∷ [];
  }

  unfoldable pub write_row_at : ℕ → List (Value F) → Table F → Table F
  write_row_at slot values table = rewrite slot (set_all table.kinds values) table

  unfoldable pub update_row : ℕ → List (Value F) → Table F → Table F
  update_row row values table = rewrite row (set_present table.kinds values) table

  unfoldable pub null_out_row : ℕ → Table F → Table F
  null_out_row row table = rewrite row (λ _. null_row table.kinds) table
