-- ===== src/Topic/Cells.antt =====
-- What the writes of a row do to the cells of the table (crates/cq-core/src/store.rs).
use cqserver.Prelude.{
  ℕ, zero, suc, ◌≤◌, ◌<◌, ◌≡◌, refl, ◌&&◌, ltb, nat_eq, none, some, List, [], ◌∷◌, ◌++◌, length,
  get_elem?, set, arith, if◌then◌else◌, list_eq, number_eq, Option-cases, inl, inr,
}
use cqserver.Predicate.Values.{Ops, Value}
use cqserver.Topic.Values.{TextOps}
use cqserver.Topic.Table.{
  Table, set_all, set_present, null_row, write_row_at, update_row, null_out_row,
}

module _ {ℓ} {A : Type ℓ} where
  pub get_elem?-set :
      (xs : List A) (i j : ℕ) (a : A)
      → get_elem? (set xs i a) j
        ≡ (if nat_eq i j && ltb i (length xs) then some a else get_elem? xs j)
  get_elem?-set [] i j a = ground arith
  get_elem?-set (x ∷ xs) zero zero a = ground arith
  get_elem?-set (x ∷ xs) zero (suc j) a = ground arith
  get_elem?-set (x ∷ xs) (suc i) zero a = ground arith
  get_elem?-set (x ∷ xs) (suc i) (suc j) a = ground (arith, get_elem?-set xs i j a)

  pub length-set : (xs : List A) (i : ℕ) (a : A) → length (set xs i a) ≡ length xs
  length-set [] i a = refl
  length-set (x ∷ xs) zero a = refl
  length-set (x ∷ xs) (suc i) a = omega (arith, length-set xs i a)

  pub get_elem?-append :
      (xs : List A) (a : A) (j : ℕ)
      → get_elem? (xs ++ a ∷ []) j ≡ (if nat_eq j (length xs) then some a else get_elem? xs j)
  get_elem?-append [] a zero = refl
  get_elem?-append [] a (suc j) = ground arith
  get_elem?-append (x ∷ xs) a zero = ground arith
  get_elem?-append (x ∷ xs) a (suc j) = ground (arith, get_elem?-append xs a j)

  pub get_elem?-none : (xs : List A) (j : ℕ) → length xs ≤ j → get_elem? xs j ≡ none
  get_elem?-none [] j h = refl
  get_elem?-none (x ∷ xs) zero h = absurd (omega arith)
  get_elem?-none (x ∷ xs) (suc j) h = get_elem?-none xs j (omega arith)

  pub get_elem?-inside : (xs : List A) (j : ℕ) (a : A) → get_elem? xs j ≡ some a → j < length xs
  get_elem?-inside [] j a h = cc
  get_elem?-inside (x ∷ xs) zero a h = omega arith
  get_elem?-inside (x ∷ xs) (suc j) a h = omega (arith, get_elem?-inside xs j a h)

module _ {F R : Type 0} (ops : Ops F R) (text : TextOps F) where
  pub get-update_row :
      (table : Table F) (row j : ℕ) (values cells : List (Value F))
      → get_elem? table.rows row ≡ some cells
      → get_elem? (update_row ops text row values table).rows j ≡ (
          if nat_eq row j
          then some (set_present ops text table.kinds values cells)
          else get_elem? table.rows j)
  unfolding update_row
  get-update_row table row j values cells found = ground (
    arith,
    found,
    get_elem?-set table.rows row j (set_present ops text table.kinds values cells),
    get_elem?-inside table.rows row cells found,
  )

  pub get-write_row_at :
      (table : Table F) (row j : ℕ) (values cells : List (Value F))
      → get_elem? table.rows row ≡ some cells
      → get_elem? (write_row_at ops text row values table).rows j ≡ (
          if nat_eq row j
          then some (set_all ops text table.kinds values cells)
          else get_elem? table.rows j)
  unfolding write_row_at
  get-write_row_at table row j values cells found = ground (
    arith,
    found,
    get_elem?-set table.rows row j (set_all ops text table.kinds values cells),
    get_elem?-inside table.rows row cells found,
  )

  pub get-null_out_row :
      (table : Table F) (row j : ℕ) (cells : List (Value F))
      → get_elem? table.rows row ≡ some cells
      → get_elem? (null_out_row ops text row table).rows j
        ≡ (if nat_eq row j then some (null_row ops text table.kinds) else get_elem? table.rows j)
  unfolding null_out_row
  get-null_out_row table row j cells found = ground (
    arith,
    found,
    get_elem?-set table.rows row j (null_row ops text table.kinds),
    get_elem?-inside table.rows row cells found,
  )

  pub length-update_row :
      (table : Table F) (row : ℕ) (values : List (Value F))
      → length (update_row ops text row values table).rows ≡ length table.rows
  unfolding update_row
  length-update_row table row values = elim (Option-cases (get_elem? table.rows row)) [
    | inl gone ↦ ground (arith, gone)
    | inr (cells, found) ↦
        ground
          (arith, found, length-set table.rows row (set_present ops text table.kinds values cells))
  ]

  pub length-write_row_at :
      (table : Table F) (row : ℕ) (values : List (Value F))
      → length (write_row_at ops text row values table).rows ≡ length table.rows
  unfolding write_row_at
  length-write_row_at table row values = elim (Option-cases (get_elem? table.rows row)) [
    | inl gone ↦ ground (arith, gone)
    | inr (cells, found) ↦
        ground (arith, found, length-set table.rows row (set_all ops text table.kinds values cells))
  ]

  pub length-null_out_row :
      (table : Table F) (row : ℕ)
      → length (null_out_row ops text row table).rows ≡ length table.rows
  unfolding null_out_row
  length-null_out_row table row = elim (Option-cases (get_elem? table.rows row)) [
    | inl gone ↦ ground (arith, gone)
    | inr (cells, found) ↦
        ground (arith, found, length-set table.rows row (null_row ops text table.kinds))
  ]

  pub kinds-kept :
      (table : Table F) (row : ℕ) (values : List (Value F))
      → ((update_row ops text row values table).kinds ≡ table.kinds)
        × ((write_row_at ops text row values table).kinds ≡ table.kinds)
        × ((null_out_row ops text row table).kinds ≡ table.kinds)
  unfolding update_row write_row_at null_out_row
  kinds-kept table row values = ground arith
