-- ===== src/Subscription/Diff.antt =====
-- What a sparse update carries (`diff_update` in crates/cq-core/src/subscription.rs).
use cqserver.Prelude.{
  ℕ, ◌≡◌, refl, ◌∙◌, Bool, true, false, not, ◌&&◌, ◌||◌, Option, none, some, List, [], ◌∷◌, Assoc,
  All, ◌<◌, lookup, lookup-insert, any, nat_eq, nat_eq_iff, arith, if◌then◌else◌, string_eq,
  number_eq, ◌==◌, Option-cases, inl, inr,
}
use cqserver.Predicate.Values.{Ops, Value, is_null_value}
use cqserver.Subscription.RowSet.{contains}
use cqserver.Subscription.Rows.{StoreOps, ColumnStore, JsonMap, to_json}
use cqserver.Subscription.Sparse.{
  SparseDiff, column_changed, put_column, diff_columns, add_keys, diff_update,
}

module _ {F R : Type 0} (ops : Ops F R) (store_ops : StoreOps F) (store : ColumnStore F) (row : ℕ)
    (key_cols : List ℕ) where
  abbrev value_of : ℕ → Value F
  value_of c = (store.rows row c).value

  -- Whether a column's value differs from the snapshot's.
  abbrev pub changed : Option (Assoc ℕ (Value F)) → ℕ → Bool
  changed prev c = column_changed ops store_ops prev c (value_of c)

  columns_any :
      (prev : Option (Assoc ℕ (Value F))) (cols : List ℕ) (d : SparseDiff F)
      → (diff_columns ops store_ops store row key_cols prev cols d).any_changed
        ≡ (d.any_changed || any (changed prev) cols)
  unfolding diff_columns
  columns_any prev [] d = ground arith
  columns_any prev (col ∷ cols) d = columns_any prev cols _ ∙ ground arith

  columns_snapshot :
      (prev : Option (Assoc ℕ (Value F))) (c : ℕ) (cols : List ℕ) (d : SparseDiff F)
      → lookup c (diff_columns ops store_ops store row key_cols prev cols d).new_snapshot
        ≡ (if contains c cols then some (value_of c) else lookup c d.new_snapshot)
  unfolding diff_columns
  columns_snapshot prev c [] d = refl
  columns_snapshot prev c (col ∷ cols) d =
      columns_snapshot prev c cols _
      ∙ ground (arith, lookup-insert col c (value_of col) d.new_snapshot, nat_eq_iff col c)

  keys_any :
      (ks : List ℕ) (d : SparseDiff F)
      → (add_keys ops store_ops store row key_cols ks d).any_changed ≡ d.any_changed
  unfolding add_keys
  keys_any [] d = refl
  keys_any (k ∷ ks) d = keys_any ks _ ∙ ground arith

  keys_snapshot :
      (c : ℕ) (ks : List ℕ) (d : SparseDiff F)
      → lookup c (add_keys ops store_ops store row key_cols ks d).new_snapshot ≡ (
          if contains c ks
          then elim (lookup c d.new_snapshot) [ some v ↦ some v | none ↦ some (value_of c) ]
          else lookup c d.new_snapshot)
  unfolding add_keys
  keys_snapshot c [] d = refl
  keys_snapshot c (k ∷ ks) d = elim (Option-cases (lookup k d.new_snapshot)) [
    | inl gone ↦
        keys_snapshot c ks _
        ∙ rw gone
            (ground (arith, lookup-insert k c (value_of k) d.new_snapshot, nat_eq_iff k c, gone))
    | inr (v, found) ↦ keys_snapshot c ks _ ∙ rw found (ground (arith, nat_eq_iff k c, found))
  ]

  abbrev pub InRange : ℕ → Type 0
  InRange c = c < store.column_count

  -- No two columns of the schema have one name.
  abbrev pub DistinctNames : Type 0
  DistinctNames =
      (a b : ℕ) → InRange a → InRange b → (store.column_name a == store.column_name b) ≡ nat_eq a b

  module _ (distinct_names : DistinctNames) where
    lookup-put_column :
        (col c : ℕ) (out : JsonMap F)
        → InRange col
        → InRange c
        → lookup (store.column_name c) (put_column ops store_ops store row key_cols col out) ≡ (
            if nat_eq col c && not (is_null_value ops (value_of c))
            then some (to_json ops store_ops (value_of c))
            else lookup (store.column_name c) out)
    unfolding put_column
    lookup-put_column col c out inside known = ground (
      arith,
      lookup-insert (store.column_name col) (store.column_name c)
          (to_json ops store_ops (value_of col)) out,
      distinct_names col c inside known,
      nat_eq_iff col c,
    )

    columns_payload :
        (prev : Option (Assoc ℕ (Value F))) (c : ℕ) (cols : List ℕ) (d : SparseDiff F)
        → InRange c
        → All InRange cols
        → lookup
            (store.column_name c)
            (diff_columns ops store_ops store row key_cols prev cols d).payload
          ≡ (if contains c cols
                && ((changed prev c || contains c key_cols) && not (is_null_value ops (value_of c)))
              then some (to_json ops store_ops (value_of c))
              else lookup (store.column_name c) d.payload)
    unfolding diff_columns
    columns_payload prev c [] d known inside = refl
    columns_payload prev c (col ∷ cols) d known inside =
        columns_payload prev c cols _ known inside.1
        ∙ ground (arith, lookup-put_column col c d.payload inside.0 known, nat_eq_iff col c)

    keys_payload :
        (c : ℕ) (ks : List ℕ) (d : SparseDiff F)
        → InRange c
        → All InRange ks
        → lookup (store.column_name c) (add_keys ops store_ops store row key_cols ks d).payload ≡ (
            if contains c ks
              && (d.any_changed
                  && (elim (lookup c d.new_snapshot) as (λ _. Bool) [ some v ↦ false | none ↦ true ]
                      && not (is_null_value ops (value_of c))))
            then some (to_json ops store_ops (value_of c))
            else lookup (store.column_name c) d.payload)
    unfolding add_keys
    keys_payload c [] d known inside = refl
    keys_payload c (k ∷ ks) d known inside = elim (Option-cases (lookup k d.new_snapshot)) [
      | inl gone ↦
          keys_payload c ks _ known inside.1
          ∙ rw gone (
              ground (
                arith,
                gone,
                lookup-put_column k c d.payload inside.0 known,
                lookup-insert k c (value_of k) d.new_snapshot,
                nat_eq_iff k c,
              ))
      | inr (v, found) ↦
          keys_payload c ks _ known inside.1 ∙ rw found (ground (arith, nat_eq_iff k c, found))
    ]

    abbrev start : SparseDiff F
    start = record { payload = []; new_snapshot = []; any_changed = false }

    -- The sparse update of a row against an older snapshot, where the schema gives its columns distinct names and has the projected columns and the key columns: it
    -- counts as changed exactly if a projected column differs from the snapshot; the new snapshot holds the
    -- current value of every projected column and key column, and nothing else; and
    -- the payload holds, of the columns with a value that is not null, the projected ones that differ and
    -- the key columns (one that is not projected only if something has changed), and nothing else.
    pub diff_update_lem :
        (prev : Option (Assoc ℕ (Value F))) (proj : List ℕ)
        → All InRange proj
        → All InRange key_cols
        → let diff = diff_update ops store_ops store row key_cols prev proj in
          (diff.any_changed ≡ any (changed prev) proj)
          × ((c : ℕ)
              → lookup c diff.new_snapshot
                ≡ (if contains c proj || contains c key_cols then some (value_of c) else none))
          × ((c : ℕ)
              → InRange c
              → lookup (store.column_name c) diff.payload ≡ (
                  if ((contains c proj && changed prev c)
                      || (contains c key_cols && (contains c proj || diff.any_changed)))
                    && not (is_null_value ops (value_of c))
                  then some (to_json ops store_ops (value_of c))
                  else none))
    unfolding diff_update lookup
    diff_update_lem prev proj inside keys_inside =
        let middle : SparseDiff F = diff_columns ops store_ops store row key_cols prev proj start in
        let changes : (add_keys ops store_ops store row key_cols key_cols middle).any_changed
            ≡ any (changed prev) proj =
          keys_any key_cols middle ∙ columns_any prev proj start in
        (
          changes,
          λ c. keys_snapshot c key_cols middle ∙ ground (arith, columns_snapshot prev c proj start),
          λ c known.
              keys_payload c key_cols middle known keys_inside
              ∙ ground (
                arith,
                columns_payload prev c proj start known inside,
                columns_snapshot prev c proj start,
                changes,
                columns_any prev proj start,
              ),
        )
