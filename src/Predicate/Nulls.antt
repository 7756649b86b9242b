-- ===== src/Predicate/Nulls.antt =====
-- Rows whose columns are null (crates/cq-core/src/predicate.rs).
use cqserver.Prelude.{ℕ, ◌≡◌, refl, Bool, true, false, ◌&&◌, arith, All, All-append}
use cqserver.Predicate.Values.{Ops, Row, column_is_null}
use cqserver.Predicate.Compiled.{CompiledPredicate, negate, referenced_columns, collect_referenced}
use cqserver.Predicate.Columns.{All-referenced}
use cqserver.Predicate.Evaluation.{matches_3vl, matches}
use cqserver.Predicate.Leaf.{unknown}

-- Made of comparisons of columns: without the tests for null and for a truth value, without constants, and without
-- computed operands, which may name no column.
abbrev pub compares_columns : {F R : Type 0} → CompiledPredicate F R → Bool
compares_columns (CompiledPredicate.and left right) =
    compares_columns left && compares_columns right
compares_columns (CompiledPredicate.or left right) = compares_columns left && compares_columns right
compares_columns (CompiledPredicate.negate inner) = compares_columns inner
compares_columns CompiledPredicate.always_true = false
compares_columns (CompiledPredicate.is_null col) = false
compares_columns (CompiledPredicate.is_not_null col) = false
compares_columns (CompiledPredicate.is_bool col want_true negated) = false
compares_columns (CompiledPredicate.eq_string_expr e value) = false
compares_columns (CompiledPredicate.neq_string_expr e value) = false
compares_columns (CompiledPredicate.like_string_expr e pattern) = false
compares_columns (CompiledPredicate.compare_num e op value) = false
compares_columns (CompiledPredicate.between_num e low high) = false
compares_columns leaf = true

module _ {F R : Type 0} (ops : Ops F R) (row : Row F) where
  abbrev pub IsNullAt : ℕ → Type 0
  IsNullAt c = column_is_null ops (row c) ≡ true

  null_lem :
      (p : CompiledPredicate F R)
      → compares_columns p ≡ true
      → All IsNullAt (collect_referenced p)
      → matches_3vl ops row p ≡ unknown
  unfolding matches_3vl collect_referenced
  null_lem (CompiledPredicate.eq_double col value) h a = rw (a.0) refl
  null_lem (CompiledPredicate.neq_double col value) h a = rw (a.0) refl
  null_lem (CompiledPredicate.lt_double col value) h a = rw (a.0) refl
  null_lem (CompiledPredicate.le_double col value) h a = rw (a.0) refl
  null_lem (CompiledPredicate.gt_double col value) h a = rw (a.0) refl
  null_lem (CompiledPredicate.ge_double col value) h a = rw (a.0) refl
  null_lem (CompiledPredicate.between_double col low high) h a = rw (a.0) refl
  null_lem (CompiledPredicate.eq_long col value) h a = rw (a.0) refl
  null_lem (CompiledPredicate.neq_long col value) h a = rw (a.0) refl
  null_lem (CompiledPredicate.lt_long col value) h a = rw (a.0) refl
  null_lem (CompiledPredicate.le_long col value) h a = rw (a.0) refl
  null_lem (CompiledPredicate.gt_long col value) h a = rw (a.0) refl
  null_lem (CompiledPredicate.ge_long col value) h a = rw (a.0) refl
  null_lem (CompiledPredicate.between_long col low high) h a = rw (a.0) refl
  null_lem (CompiledPredicate.eq_string col value) h a = rw (a.0) refl
  null_lem (CompiledPredicate.neq_string col value) h a = rw (a.0) refl
  null_lem (CompiledPredicate.in_string col values) h a = rw (a.0) refl
  null_lem (CompiledPredicate.in_long col values) h a = rw (a.0) refl
  null_lem (CompiledPredicate.in_double col values) h a = rw (a.0) refl
  null_lem (CompiledPredicate.in_bool col values) h a = rw (a.0) refl
  null_lem (CompiledPredicate.eq_bool col value) h a = rw (a.0) refl
  null_lem (CompiledPredicate.neq_bool col value) h a = rw (a.0) refl
  null_lem (CompiledPredicate.eq_timestamp col value) h a = rw (a.0) refl
  null_lem (CompiledPredicate.neq_timestamp col value) h a = rw (a.0) refl
  null_lem (CompiledPredicate.lt_timestamp col value) h a = rw (a.0) refl
  null_lem (CompiledPredicate.le_timestamp col value) h a = rw (a.0) refl
  null_lem (CompiledPredicate.gt_timestamp col value) h a = rw (a.0) refl
  null_lem (CompiledPredicate.ge_timestamp col value) h a = rw (a.0) refl
  null_lem (CompiledPredicate.between_timestamp col low high) h a = rw (a.0) refl
  null_lem (CompiledPredicate.in_timestamp col values) h a = rw (a.0) refl
  null_lem (CompiledPredicate.like col pattern) h a = rw (a.0) refl
  null_lem (CompiledPredicate.regex col pattern) h a = rw (a.0) refl
  null_lem (CompiledPredicate.eq_string_fn col func value) h a = rw (a.0) refl
  null_lem (CompiledPredicate.neq_string_fn col func value) h a = rw (a.0) refl
  null_lem (CompiledPredicate.like_string_fn col func pattern) h a = rw (a.0) refl
  null_lem (CompiledPredicate.length_cmp col op value) h a = rw (a.0) refl
  null_lem (CompiledPredicate.eq_string_expr e value) h a = absurd (cc h)
  null_lem (CompiledPredicate.neq_string_expr e value) h a = absurd (cc h)
  null_lem (CompiledPredicate.like_string_expr e pattern) h a = absurd (cc h)
  null_lem (CompiledPredicate.compare_num e op value) h a = absurd (cc h)
  null_lem (CompiledPredicate.between_num e low high) h a = absurd (cc h)
  null_lem (CompiledPredicate.is_null col) h a = absurd (cc h)
  null_lem (CompiledPredicate.is_not_null col) h a = absurd (cc h)
  null_lem (CompiledPredicate.is_bool col want_true negated) h a = absurd (cc h)
  null_lem CompiledPredicate.always_true h a = absurd (cc h)
  null_lem (CompiledPredicate.and left right) h a =
      let (l, r) = All-append IsNullAt (collect_referenced left) (collect_referenced right) a in
      rw (null_lem left (ground (arith, h)) l, null_lem right (ground (arith, h)) r) refl
  null_lem (CompiledPredicate.or left right) h a =
      let (l, r) = All-append IsNullAt (collect_referenced left) (collect_referenced right) a in
      rw (null_lem left (ground (arith, h)) l, null_lem right (ground (arith, h)) r) refl
  null_lem (CompiledPredicate.negate inner) h a = rw (null_lem inner h a) refl

  -- A predicate made of comparisons of columns, joined and negated in any way, on a row where all the
  -- columns that it is said to read are null, by their types: it does not match, and neither does its negation.
  pub null-matches :
      (p : CompiledPredicate F R)
      → compares_columns p ≡ true
      → All IsNullAt (referenced_columns p)
      → (matches ops row p ≡ false) × (matches ops row (negate p) ≡ false)
  unfolding matches matches_3vl
  null-matches p h a =
      let u = null_lem p h (All-referenced IsNullAt p a) in
      (rw (u, matches) refl, rw (u, matches, matches_3vl) refl)
