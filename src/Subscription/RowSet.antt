-- ===== src/Subscription/RowSet.antt =====
-- A set of rows as a list without repetitions: the `RoaringBitmap` of active rows, and the `HashSet` of
-- the rows in a TOP-N window (crates/cq-core/src/subscription.rs).
use cqserver.Prelude.{
  ℕ, ◌+◌, ◌≤◌, ◌≡◌, refl, subst, Bool, true, false, not, List, [], ◌∷◌, length, any, filter_by,
  arith, nat_eq, nat_eq_iff, if◌then◌else◌, Bool-cases, inl, inr,
}

abbrev pub contains : ℕ → List ℕ → Bool
contains r rows = any (λ s. nat_eq s r) rows

unfoldable pub add_row : ℕ → List ℕ → List ℕ
add_row r rows = if contains r rows then rows else r ∷ rows

unfoldable pub remove_row : ℕ → List ℕ → List ℕ
remove_row r rows = filter_by (λ s. not (nat_eq s r)) rows

pub contains-add_row :
    (r s : ℕ) (rows : List ℕ)
    → contains s (add_row r rows) ≡ (if nat_eq r s then true else contains s rows)
unfolding add_row
contains-add_row r s rows = elim (Bool-cases (contains r rows)) [
  | inl old ↦ elim (Bool-cases (nat_eq r s)) [
    | inl same ↦
        let e : r ≡ s = (nat_eq_iff r s).0 same in
        let there : contains s rows ≡ true = subst (λ x. contains x rows ≡ true) e old in
        rw (old, same) there
    | inr other ↦ rw (old, other) refl
  ]
  | inr new ↦ rw new (ground arith)
]

pub contains-remove_row :
    (r s : ℕ) (rows : List ℕ)
    → contains s (remove_row r rows) ≡ (if nat_eq r s then false else contains s rows)
unfolding remove_row
contains-remove_row r s [] = ground arith
contains-remove_row r s (t ∷ rows) = ground (arith, contains-remove_row r s rows)

pub length-remove_row-le : (r : ℕ) (rows : List ℕ) → length (remove_row r rows) ≤ length rows
unfolding remove_row
length-remove_row-le r [] = omega arith
length-remove_row-le r (t ∷ rows) = ground (arith, length-remove_row-le r rows)

pub length-add_row-le : (r : ℕ) (rows : List ℕ) → length (add_row r rows) ≤ length rows + 1
unfolding add_row
length-add_row-le r rows = ground arith
