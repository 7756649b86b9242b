-- ===== src/Predicate/Compiled.antt =====
-- Compiled predicates and the columns that they read (`CompiledPredicate` in
-- crates/cq-core/src/predicate.rs). A HashSet is a list.
use cqserver.Prelude.{ℕ, ℤ, Bool, List, [], ◌∷◌, ◌++◌, leb, nat_eq, if◌then◌else◌}
use cqserver.Predicate.Values.{Str}
use cqserver.Predicate.Strings.{StringFn, StringExpr, string_columns}
use cqserver.Predicate.Numbers.{NumCmpOp, NumExpr, num_columns}

pub data CompiledPredicate (F R : Type 0) : Type 0 where
  eq_double : ℕ → F → CompiledPredicate F R
  neq_double : ℕ → F → CompiledPredicate F R
  lt_double : ℕ → F → CompiledPredicate F R
  le_double : ℕ → F → CompiledPredicate F R
  gt_double : ℕ → F → CompiledPredicate F R
  ge_double : ℕ → F → CompiledPredicate F R
  between_double : ℕ → F → F → CompiledPredicate F R
  eq_long : ℕ → ℤ → CompiledPredicate F R
  neq_long : ℕ → ℤ → CompiledPredicate F R
  lt_long : ℕ → ℤ → CompiledPredicate F R
  le_long : ℕ → ℤ → CompiledPredicate F R
  gt_long : ℕ → ℤ → CompiledPredicate F R
  ge_long : ℕ → ℤ → CompiledPredicate F R
  between_long : ℕ → ℤ → ℤ → CompiledPredicate F R
  eq_string : ℕ → Str → CompiledPredicate F R
  neq_string : ℕ → Str → CompiledPredicate F R
  in_string : ℕ → List Str → CompiledPredicate F R
  in_long : ℕ → List ℤ → CompiledPredicate F R
  in_double : ℕ → List ℕ → CompiledPredicate F R
  in_bool : ℕ → List Bool → CompiledPredicate F R
  eq_bool : ℕ → Bool → CompiledPredicate F R
  neq_bool : ℕ → Bool → CompiledPredicate F R
  eq_timestamp : ℕ → ℤ → CompiledPredicate F R
  neq_timestamp : ℕ → ℤ → CompiledPredicate F R
  lt_timestamp : ℕ → ℤ → CompiledPredicate F R
  le_timestamp : ℕ → ℤ → CompiledPredicate F R
  gt_timestamp : ℕ → ℤ → CompiledPredicate F R
  ge_timestamp : ℕ → ℤ → CompiledPredicate F R
  between_timestamp : ℕ → ℤ → ℤ → CompiledPredicate F R
  in_timestamp : ℕ → List ℤ → CompiledPredicate F R
  like : ℕ → R → CompiledPredicate F R
  regex : ℕ → R → CompiledPredicate F R
  eq_string_fn : ℕ → StringFn → Str → CompiledPredicate F R
  neq_string_fn : ℕ → StringFn → Str → CompiledPredicate F R
  like_string_fn : ℕ → StringFn → R → CompiledPredicate F R
  length_cmp : ℕ → NumCmpOp → ℤ → CompiledPredicate F R
  eq_string_expr : StringExpr → Str → CompiledPredicate F R
  neq_string_expr : StringExpr → Str → CompiledPredicate F R
  like_string_expr : StringExpr → R → CompiledPredicate F R
  compare_num : NumExpr F → NumCmpOp → F → CompiledPredicate F R
  between_num : NumExpr F → F → F → CompiledPredicate F R
  is_null : ℕ → CompiledPredicate F R
  is_not_null : ℕ → CompiledPredicate F R
  is_bool : ℕ → Bool → Bool → CompiledPredicate F R
  and or : CompiledPredicate F R → CompiledPredicate F R → CompiledPredicate F R
  negate : CompiledPredicate F R → CompiledPredicate F R
  always_true : CompiledPredicate F R

module _ {F R : Type 0} where
  unfoldable pub collect_referenced : CompiledPredicate F R → List ℕ
  collect_referenced (eq_double col _) = col ∷ []
  collect_referenced (neq_double col _) = col ∷ []
  collect_referenced (lt_double col _) = col ∷ []
  collect_referenced (le_double col _) = col ∷ []
  collect_referenced (gt_double col _) = col ∷ []
  collect_referenced (ge_double col _) = col ∷ []
  collect_referenced (between_double col _ _) = col ∷ []
  collect_referenced (eq_long col _) = col ∷ []
  collect_referenced (neq_long col _) = col ∷ []
  collect_referenced (lt_long col _) = col ∷ []
  collect_referenced (le_long col _) = col ∷ []
  collect_referenced (gt_long col _) = col ∷ []
  collect_referenced (ge_long col _) = col ∷ []
  collect_referenced (between_long col _ _) = col ∷ []
  collect_referenced (eq_string col _) = col ∷ []
  collect_referenced (neq_string col _) = col ∷ []
  collect_referenced (in_string col _) = col ∷ []
  collect_referenced (in_long col _) = col ∷ []
  collect_referenced (in_double col _) = col ∷ []
  collect_referenced (in_bool col _) = col ∷ []
  collect_referenced (eq_bool col _) = col ∷ []
  collect_referenced (neq_bool col _) = col ∷ []
  collect_referenced (eq_timestamp col _) = col ∷ []
  collect_referenced (neq_timestamp col _) = col ∷ []
  collect_referenced (lt_timestamp col _) = col ∷ []
  collect_referenced (le_timestamp col _) = col ∷ []
  collect_referenced (gt_timestamp col _) = col ∷ []
  collect_referenced (ge_timestamp col _) = col ∷ []
  collect_referenced (between_timestamp col _ _) = col ∷ []
  collect_referenced (in_timestamp col _) = col ∷ []
  collect_referenced (like col _) = col ∷ []
  collect_referenced (regex col _) = col ∷ []
  collect_referenced (eq_string_fn col _ _) = col ∷ []
  collect_referenced (neq_string_fn col _ _) = col ∷ []
  collect_referenced (like_string_fn col _ _) = col ∷ []
  collect_referenced (length_cmp col _ _) = col ∷ []
  collect_referenced (eq_string_expr e _) = string_columns e
  collect_referenced (neq_string_expr e _) = string_columns e
  collect_referenced (like_string_expr e _) = string_columns e
  collect_referenced (compare_num e _ _) = num_columns e
  collect_referenced (between_num e _ _) = num_columns e
  collect_referenced (is_null col) = col ∷ []
  collect_referenced (is_not_null col) = col ∷ []
  collect_referenced (is_bool col _ _) = col ∷ []
  collect_referenced (and a b) = collect_referenced a ++ collect_referenced b
  collect_referenced (or a b) = collect_referenced a ++ collect_referenced b
  collect_referenced (negate inner) = collect_referenced inner
  collect_referenced always_true = []

-- `sort_unstable` and `dedup` on the columns.
unfoldable pub insert_sorted : ℕ → List ℕ → List ℕ
insert_sorted n [] = n ∷ []
insert_sorted n (m ∷ ms) = let rest = insert_sorted n ms in if leb n m then n ∷ m ∷ ms else m ∷ rest

unfoldable pub sort : List ℕ → List ℕ
sort [] = []
sort (n ∷ ns) = insert_sorted n (sort ns)

-- Drops an element that equals the one before it.
unfoldable pub dedup_after : ℕ → List ℕ → List ℕ
dedup_after p [] = []
dedup_after p (n ∷ ns) = let rest = dedup_after n ns in if nat_eq n p then rest else n ∷ rest

unfoldable pub dedup : List ℕ → List ℕ
dedup [] = []
dedup (n ∷ ns) = n ∷ dedup_after n ns

module _ {F R : Type 0} where
  unfoldable pub referenced_columns : CompiledPredicate F R → List ℕ
  referenced_columns p = dedup (sort (collect_referenced p))
