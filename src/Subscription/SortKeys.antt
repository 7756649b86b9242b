-- ===== src/Subscription/SortKeys.antt =====
-- The order of the rows in a TOP-N subscription (`compare_values`, `SortElement`, `SortKey` in
-- crates/cq-core/src/subscription.rs).
use cqserver.Prelude.{
  ℕ, ℤ, ◌+◌, Bool, Option, none, some, List, [], ◌∷◌, pos_part, neg_part, map, if◌then◌else◌,
}
use Prim.Native.Nat.{compare, Ordering}
use Prim.Native.Nat.Ordering.{lt, eq, gt}
use cqserver.Predicate.Values.{
  Str, Value, double_value, long_value, int_value, string_value, null_value,
}
use cqserver.Subscription.Rows.{StoreOps, ColumnStore}

abbrev pub reverse : Ordering → Ordering
reverse lt = gt
reverse eq = eq
reverse gt = lt

abbrev pub cmp_int : ℤ → ℤ → Ordering
cmp_int a b = compare (pos_part a + neg_part b) (pos_part b + neg_part a)

-- The order of two texts: of their UTF-8 bytes, and so of their code points.
unfoldable pub cmp_str : Str → Str → Ordering
cmp_str [] [] = eq
cmp_str [] (b ∷ t) = lt
cmp_str (a ∷ s) [] = gt
cmp_str (a ∷ s) (b ∷ t) = elim (compare a b) [ eq ↦ cmp_str s t | lt ↦ lt | gt ↦ gt ]

-- The order of `Option` in Rust: `None` comes first.
abbrev pub cmp_option_str : Option Str → Option Str → Ordering
cmp_option_str none none = eq
cmp_option_str none (some t) = lt
cmp_option_str (some s) none = gt
cmp_option_str (some s) (some t) = cmp_str s t

pub record SortElement (F : Type 0) : Type 0 where
  pub value : Value F
  pub asc : Bool

abbrev pub SortKey : Type 0 → Type 0
SortKey F = List (SortElement F)

module _ {F : Type 0} (store_ops : StoreOps F) where
  unfoldable pub compare_values : Value F → Value F → Ordering
  compare_values null_value null_value = eq
  compare_values null_value b = lt
  compare_values a null_value = gt
  compare_values (double_value x) (double_value y) = store_ops.total_cmp x y
  compare_values (long_value x) (long_value y) = cmp_int x y
  compare_values (int_value x) (int_value y) = cmp_int x y
  compare_values (string_value x) (string_value y) = cmp_option_str x y
  compare_values a b = eq

  unfoldable pub compare_elements : SortElement F → SortElement F → Ordering
  compare_elements a b = let c = compare_values a.value b.value in if a.asc then c else reverse c

  unfoldable pub compare_keys : SortKey F → SortKey F → Ordering
  compare_keys (a ∷ xs) (b ∷ ys) = elim (compare_elements a b) [
    | eq ↦ compare_keys xs ys
    | lt ↦ lt
    | gt ↦ gt
  ]
  compare_keys _ _ = eq

  -- The order of the pairs in `ranked`: by key, then by row.
  unfoldable pub compare_ranked : SortKey F × ℕ → SortKey F × ℕ → Ordering
  compare_ranked a b = elim (compare_keys a.0 b.0) [ eq ↦ compare a.1 b.1 | lt ↦ lt | gt ↦ gt ]

unfoldable pub build_sort_key : {F : Type 0} → ColumnStore F → ℕ → List (ℕ × Bool) → SortKey F
build_sort_key store row order_by =
    map (λ c. record { value = (store.rows row c.0).value; asc = c.1 }) order_by
