-- ===== src/Predicate/Leaf.antt =====
-- Three-valued results, and the leaves of a predicate on a row (`Tri`, `operand_is_null` and
-- `matches_leaf_bool` in crates/cq-core/src/predicate.rs).
use cqserver.Prelude.{
  pos, ◌&&◌, ◌||◌, Bool, true, false, not, none, some, int_eq, ltb_ℤ, leb_ℤ, nat_eq, any, length,
  if◌then◌else◌,
}
use cqserver.Predicate.Values.{str_eq, is_none, Ops, Row, null_long, null_timestamp, column_is_null}
use cqserver.Predicate.Strings.{eval_string, string_fn_eq, string_fn_apply}
use cqserver.Predicate.Numbers.{apply_int, apply_f64, eval_num}
use cqserver.Predicate.Compiled.{CompiledPredicate}

pub data Tri : Type 0 where
  yes no unknown : Tri

abbrev pub tri : Bool → Tri
tri b = if b then yes else no

abbrev pub bool_eq : Bool → Bool → Bool
bool_eq a b = if a then b else not b

abbrev pub and_3vl : Tri → Tri → Tri
and_3vl no b = no
and_3vl yes no = no
and_3vl unknown no = no
and_3vl yes yes = yes
and_3vl yes unknown = unknown
and_3vl unknown yes = unknown
and_3vl unknown unknown = unknown

abbrev pub or_3vl : Tri → Tri → Tri
or_3vl yes b = yes
or_3vl no yes = yes
or_3vl unknown yes = yes
or_3vl no no = no
or_3vl no unknown = unknown
or_3vl unknown no = unknown
or_3vl unknown unknown = unknown

abbrev pub not_3vl : Tri → Tri
not_3vl yes = no
not_3vl no = yes
not_3vl unknown = unknown

module _ {F R : Type 0} (ops : Ops F R) where
  abbrev pub operand_is_null : Row F → CompiledPredicate F R → Bool
  operand_is_null row (CompiledPredicate.eq_double col _) = column_is_null ops (row col)
  operand_is_null row (CompiledPredicate.neq_double col _) = column_is_null ops (row col)
  operand_is_null row (CompiledPredicate.lt_double col _) = column_is_null ops (row col)
  operand_is_null row (CompiledPredicate.le_double col _) = column_is_null ops (row col)
  operand_is_null row (CompiledPredicate.gt_double col _) = column_is_null ops (row col)
  operand_is_null row (CompiledPredicate.ge_double col _) = column_is_null ops (row col)
  operand_is_null row (CompiledPredicate.between_double col _ _) = column_is_null ops (row col)
  operand_is_null row (CompiledPredicate.eq_long col _) = column_is_null ops (row col)
  operand_is_null row (CompiledPredicate.neq_long col _) = column_is_null ops (row col)
  operand_is_null row (CompiledPredicate.lt_long col _) = column_is_null ops (row col)
  operand_is_null row (CompiledPredicate.le_long col _) = column_is_null ops (row col)
  operand_is_null row (CompiledPredicate.gt_long col _) = column_is_null ops (row col)
  operand_is_null row (CompiledPredicate.ge_long col _) = column_is_null ops (row col)
  operand_is_null row (CompiledPredicate.between_long col _ _) = column_is_null ops (row col)
  operand_is_null row (CompiledPredicate.eq_string col _) = column_is_null ops (row col)
  operand_is_null row (CompiledPredicate.neq_string col _) = column_is_null ops (row col)
  operand_is_null row (CompiledPredicate.in_string col _) = column_is_null ops (row col)
  operand_is_null row (CompiledPredicate.in_long col _) = column_is_null ops (row col)
  operand_is_null row (CompiledPredicate.in_double col _) = column_is_null ops (row col)
  operand_is_null row (CompiledPredicate.in_bool col _) = column_is_null ops (row col)
  operand_is_null row (CompiledPredicate.eq_bool col _) = column_is_null ops (row col)
  operand_is_null row (CompiledPredicate.neq_bool col _) = column_is_null ops (row col)
  operand_is_null row (CompiledPredicate.eq_timestamp col _) = column_is_null ops (row col)
  operand_is_null row (CompiledPredicate.neq_timestamp col _) = column_is_null ops (row col)
  operand_is_null row (CompiledPredicate.lt_timestamp col _) = column_is_null ops (row col)
  operand_is_null row (CompiledPredicate.le_timestamp col _) = column_is_null ops (row col)
  operand_is_null row (CompiledPredicate.gt_timestamp col _) = column_is_null ops (row col)
  operand_is_null row (CompiledPredicate.ge_timestamp col _) = column_is_null ops (row col)
  operand_is_null row (CompiledPredicate.between_timestamp col _ _) = column_is_null ops (row col)
  operand_is_null row (CompiledPredicate.in_timestamp col _) = column_is_null ops (row col)
  operand_is_null row (CompiledPredicate.like col _) = column_is_null ops (row col)
  operand_is_null row (CompiledPredicate.regex col _) = column_is_null ops (row col)
  operand_is_null row (CompiledPredicate.eq_string_fn col _ _) = column_is_null ops (row col)
  operand_is_null row (CompiledPredicate.neq_string_fn col _ _) = column_is_null ops (row col)
  operand_is_null row (CompiledPredicate.like_string_fn col _ _) = column_is_null ops (row col)
  operand_is_null row (CompiledPredicate.length_cmp col _ _) = column_is_null ops (row col)
  operand_is_null row (CompiledPredicate.eq_string_expr e _) = is_none (eval_string ops row e)
  operand_is_null row (CompiledPredicate.neq_string_expr e _) = is_none (eval_string ops row e)
  operand_is_null row (CompiledPredicate.like_string_expr e _) = is_none (eval_string ops row e)
  operand_is_null row (CompiledPredicate.compare_num e _ _) = ops.is_nan (eval_num ops row e)
  operand_is_null row (CompiledPredicate.between_num e _ _) = ops.is_nan (eval_num ops row e)
  operand_is_null row _ = false

  -- The Boolean value of a leaf that compares. The null tests have their own.
  abbrev pub matches_leaf_bool : Row F → CompiledPredicate F R → Bool
  matches_leaf_bool row (CompiledPredicate.eq_double col value) =
      not (ops.is_nan (row col).double) && ops.eq_f (row col).double value
  matches_leaf_bool row (CompiledPredicate.neq_double col value) =
      ops.is_nan (row col).double || not (ops.eq_f (row col).double value)
  matches_leaf_bool row (CompiledPredicate.lt_double col value) =
      not (ops.is_nan (row col).double) && ops.lt_f (row col).double value
  matches_leaf_bool row (CompiledPredicate.le_double col value) =
      not (ops.is_nan (row col).double) && ops.le_f (row col).double value
  matches_leaf_bool row (CompiledPredicate.gt_double col value) =
      not (ops.is_nan (row col).double) && ops.lt_f value (row col).double
  matches_leaf_bool row (CompiledPredicate.ge_double col value) =
      not (ops.is_nan (row col).double) && ops.le_f value (row col).double
  matches_leaf_bool row (CompiledPredicate.between_double col low high) =
      not (ops.is_nan (row col).double)
      && (ops.le_f low (row col).double && ops.le_f (row col).double high)
  matches_leaf_bool row (CompiledPredicate.eq_long col value) =
      not (int_eq (row col).long null_long) && int_eq (row col).long value
  matches_leaf_bool row (CompiledPredicate.neq_long col value) =
      int_eq (row col).long null_long || not (int_eq (row col).long value)
  matches_leaf_bool row (CompiledPredicate.lt_long col value) =
      not (int_eq (row col).long null_long) && ltb_ℤ (row col).long value
  matches_leaf_bool row (CompiledPredicate.le_long col value) =
      not (int_eq (row col).long null_long) && leb_ℤ (row col).long value
  matches_leaf_bool row (CompiledPredicate.gt_long col value) =
      not (int_eq (row col).long null_long) && ltb_ℤ value (row col).long
  matches_leaf_bool row (CompiledPredicate.ge_long col value) =
      not (int_eq (row col).long null_long) && leb_ℤ value (row col).long
  matches_leaf_bool row (CompiledPredicate.between_long col low high) =
      not (int_eq (row col).long null_long)
      && (leb_ℤ low (row col).long && leb_ℤ (row col).long high)
  matches_leaf_bool row (CompiledPredicate.eq_string col value) = elim (row col).string [
    | none ↦ false
    | some s ↦ str_eq s value
  ]
  matches_leaf_bool row (CompiledPredicate.neq_string col value) = elim (row col).string [
    | none ↦ true
    | some s ↦ not (str_eq s value)
  ]
  matches_leaf_bool row (CompiledPredicate.in_string col values) = elim (row col).string [
    | none ↦ false
    | some s ↦ any (λ v. str_eq v s) values
  ]
  matches_leaf_bool row (CompiledPredicate.in_long col values) =
      if int_eq (row col).long null_long then false else any (λ v. int_eq v (row col).long) values
  matches_leaf_bool row (CompiledPredicate.in_double col values) =
      if ops.is_nan (row col).double
      then false
      else any (λ v. nat_eq v (ops.to_bits (row col).double)) values
  matches_leaf_bool row (CompiledPredicate.in_bool col values) = elim (row col).bool [
    | none ↦ false
    | some b ↦ any (λ v. bool_eq v b) values
  ]
  matches_leaf_bool row (CompiledPredicate.eq_bool col value) = elim (row col).bool [
    | none ↦ false
    | some b ↦ bool_eq b value
  ]
  matches_leaf_bool row (CompiledPredicate.neq_bool col value) = elim (row col).bool [
    | none ↦ false
    | some b ↦ not (bool_eq b value)
  ]
  matches_leaf_bool row (CompiledPredicate.eq_timestamp col value) =
      not (int_eq (row col).timestamp null_timestamp) && int_eq (row col).timestamp value
  matches_leaf_bool row (CompiledPredicate.neq_timestamp col value) =
      not (int_eq (row col).timestamp null_timestamp) && not (int_eq (row col).timestamp value)
  matches_leaf_bool row (CompiledPredicate.lt_timestamp col value) =
      not (int_eq (row col).timestamp null_timestamp) && ltb_ℤ (row col).timestamp value
  matches_leaf_bool row (CompiledPredicate.le_timestamp col value) =
      not (int_eq (row col).timestamp null_timestamp) && leb_ℤ (row col).timestamp value
  matches_leaf_bool row (CompiledPredicate.gt_timestamp col value) =
      not (int_eq (row col).timestamp null_timestamp) && ltb_ℤ value (row col).timestamp
  matches_leaf_bool row (CompiledPredicate.ge_timestamp col value) =
      not (int_eq (row col).timestamp null_timestamp) && leb_ℤ value (row col).timestamp
  matches_leaf_bool row (CompiledPredicate.between_timestamp col low high) =
      not (int_eq (row col).timestamp null_timestamp)
      && (leb_ℤ low (row col).timestamp && leb_ℤ (row col).timestamp high)
  matches_leaf_bool row (CompiledPredicate.in_timestamp col values) =
      if int_eq (row col).timestamp null_timestamp
      then false
      else any (λ v. int_eq v (row col).timestamp) values
  matches_leaf_bool row (CompiledPredicate.like col pattern) = elim (row col).string [
    | none ↦ false
    | some s ↦ ops.is_match pattern s
  ]
  matches_leaf_bool row (CompiledPredicate.regex col pattern) = elim (row col).string [
    | none ↦ false
    | some s ↦ ops.is_match pattern s
  ]
  matches_leaf_bool row (CompiledPredicate.eq_string_fn col func value) = elim (row col).string [
    | none ↦ false
    | some s ↦ string_fn_eq ops func s value
  ]
  matches_leaf_bool row (CompiledPredicate.neq_string_fn col func value) = elim (row col).string [
    | none ↦ true
    | some s ↦ not (string_fn_eq ops func s value)
  ]
  matches_leaf_bool row (CompiledPredicate.like_string_fn col func pattern) =
      elim (row col).string [
        | none ↦ false
        | some s ↦ ops.is_match pattern (string_fn_apply ops func s)
      ]
  matches_leaf_bool row (CompiledPredicate.length_cmp col op value) = elim (row col).string [
    | none ↦ false
    | some s ↦ apply_int op (pos (length s)) value
  ]
  matches_leaf_bool row (CompiledPredicate.eq_string_expr e value) = elim (eval_string ops row e) [
    | none ↦ false
    | some s ↦ str_eq s value
  ]
  matches_leaf_bool row (CompiledPredicate.neq_string_expr e value) = elim (eval_string ops row e) [
    | none ↦ true
    | some s ↦ not (str_eq s value)
  ]
  matches_leaf_bool row (CompiledPredicate.like_string_expr e pattern) =
      elim (eval_string ops row e) [ none ↦ false | some s ↦ ops.is_match pattern s ]
  matches_leaf_bool row (CompiledPredicate.compare_num e op value) =
      apply_f64 ops op (eval_num ops row e) value
  matches_leaf_bool row (CompiledPredicate.between_num e low high) =
      let v = eval_num ops row e in not (ops.is_nan v) && (ops.le_f low v && ops.le_f v high)
  matches_leaf_bool row (CompiledPredicate.is_null col) = column_is_null ops (row col)
  matches_leaf_bool row (CompiledPredicate.is_not_null col) = not (column_is_null ops (row col))
  matches_leaf_bool row (CompiledPredicate.is_bool col want_true negated) =
      let target : Bool = elim (row col).bool [ some v ↦ bool_eq v want_true | none ↦ false ] in
      if negated then not target else target
  matches_leaf_bool row _ = true
