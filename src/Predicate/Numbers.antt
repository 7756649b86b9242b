-- ===== src/Predicate/Numbers.antt =====
-- Numeric expressions and comparison operators (`NumCmpOp` and `NumExpr` in
-- crates/cq-core/src/predicate.rs).
use cqserver.Prelude.{
  ℕ, ℤ, ◌&&◌, ◌||◌, Bool, false, not, none, some, List, [], ◌∷◌, ◌++◌, int_eq, ltb_ℤ, leb_ℤ,
  if◌then◌else◌,
}
use cqserver.Predicate.Values.{Ops, Row, as_f64}

pub data NumCmpOp : Type 0 where
  eq_op neq_op lt_op le_op gt_op ge_op : NumCmpOp

unfoldable pub apply_int : NumCmpOp → ℤ → ℤ → Bool
apply_int eq_op lhs rhs = int_eq lhs rhs
apply_int neq_op lhs rhs = not (int_eq lhs rhs)
apply_int lt_op lhs rhs = ltb_ℤ lhs rhs
apply_int le_op lhs rhs = leb_ℤ lhs rhs
apply_int gt_op lhs rhs = ltb_ℤ rhs lhs
apply_int ge_op lhs rhs = leb_ℤ rhs lhs

mutual
  pub data NumExpr (F : Type 0) : Type 0 where
    col : ℕ → NumExpr F
    lit : F → NumExpr F
    add sub mul div : NumExpr F → NumExpr F → NumExpr F
    neg abs round floor ceil : NumExpr F → NumExpr F
    coalesce : NumExprs F → NumExpr F
    null_if : NumExpr F → NumExpr F → NumExpr F
    now_micros : ℤ → NumExpr F

  pub data NumExprs (F : Type 0) : Type 0 where
    nil : NumExprs F
    cons : NumExpr F → NumExprs F → NumExprs F

module _ {F : Type 0} where
  unfoldable mutual
    -- The columns read, in order.
    pub num_columns : NumExpr F → List ℕ
    num_columns (col c) = c ∷ []
    num_columns (lit v) = []
    num_columns (add a b) = num_columns a ++ num_columns b
    num_columns (sub a b) = num_columns a ++ num_columns b
    num_columns (mul a b) = num_columns a ++ num_columns b
    num_columns (div a b) = num_columns a ++ num_columns b
    num_columns (neg x) = num_columns x
    num_columns (abs x) = num_columns x
    num_columns (round x) = num_columns x
    num_columns (floor x) = num_columns x
    num_columns (ceil x) = num_columns x
    num_columns (coalesce parts) = parts_columns parts
    num_columns (null_if a b) = num_columns a ++ num_columns b
    num_columns (now_micros t) = []

    pub parts_columns : NumExprs F → List ℕ
    parts_columns nil = []
    parts_columns (cons e parts) = num_columns e ++ parts_columns parts

module _ {F R : Type 0} (ops : Ops F R) where
  -- No comparison holds of a NaN.
  unfoldable pub apply_f64 : NumCmpOp → F → F → Bool
  apply_f64 op lhs rhs = if ops.is_nan lhs || ops.is_nan rhs then false else elim op [
    | eq_op ↦ ops.eq_f lhs rhs
    | neq_op ↦ not (ops.eq_f lhs rhs)
    | lt_op ↦ ops.lt_f lhs rhs
    | le_op ↦ ops.le_f lhs rhs
    | gt_op ↦ ops.lt_f rhs lhs
    | ge_op ↦ ops.le_f rhs lhs
  ]

  unfoldable mutual
    pub eval_num : Row F → NumExpr F → F
    eval_num row (col c) = elim (as_f64 ops (row c).value) [ some v ↦ v | none ↦ ops.nan ]
    eval_num row (lit v) = v
    eval_num row (add a b) = ops.add_f (eval_num row a) (eval_num row b)
    eval_num row (sub a b) = ops.sub_f (eval_num row a) (eval_num row b)
    eval_num row (mul a b) = ops.mul_f (eval_num row a) (eval_num row b)
    eval_num row (div a b) =
        let rhs = eval_num row b in
        let lhs = eval_num row a in if ops.eq_f rhs ops.zero_f then ops.nan else ops.div_f lhs rhs
    eval_num row (neg x) = ops.neg_f (eval_num row x)
    eval_num row (abs x) = ops.abs_f (eval_num row x)
    eval_num row (round x) = ops.round_f (eval_num row x)
    eval_num row (floor x) = ops.floor_f (eval_num row x)
    eval_num row (ceil x) = ops.ceil_f (eval_num row x)
    eval_num row (coalesce parts) = first_num row parts
    eval_num row (null_if a b) =
        let av = eval_num row a in
        let bv = eval_num row b in
        if not (ops.is_nan av) && (not (ops.is_nan bv) && ops.eq_f av bv) then ops.nan else av
    eval_num row (now_micros t) = ops.of_int t

    -- The first part that is not NaN.
    pub first_num : Row F → NumExprs F → F
    first_num row nil = ops.nan
    first_num row (cons e parts) =
        let v = eval_num row e in
        let rest = first_num row parts in if not (ops.is_nan v) then v else rest
