-- ===== src/Predicate/Operands.antt =====
-- Expressions depend on the columns that they name only (crates/cq-core/src/predicate.rs).
use mathlib.Core.Option
use mathlib.Core.Path.{ap₂}
use cqserver.Prelude.{
  ℕ, ◌≡◌, refl, ap, not, ◌&&◌, if◌then◌else◌, Option, none, some, [], ◌++◌, All, All-append,
}
use cqserver.Predicate.Values.{Str, Ops, Row, as_f64}
use cqserver.Predicate.Strings.{
  StringExpr, StringExprs, string_columns, part_columns, slice, eval_string, eval_parts,
}
use cqserver.Predicate.Numbers.{NumExpr, NumExprs, num_columns, parts_columns, eval_num, first_num}

module _ {F R : Type 0} (ops : Ops F R) (row row' : Row F) where
  -- The two rows have the same value in a column.
  abbrev pub Agrees : ℕ → Type 0
  Agrees c = row c ≡ row' c

  mutual
    unfolding string_columns eval_string

    pub eval_string-frame :
        (e : StringExpr)
        → All Agrees (string_columns e)
        → eval_string ops row e ≡ eval_string ops row' e
    eval_string-frame (StringExpr.col c) h = ap (λ cell. cell.string) h.0
    eval_string-frame (StringExpr.lit s) h = refl
    eval_string-frame (StringExpr.to_upper e) h =
        ap (Option.map ops.to_uppercase) (eval_string-frame e h)
    eval_string-frame (StringExpr.to_lower e) h =
        ap (Option.map ops.to_lowercase) (eval_string-frame e h)
    eval_string-frame (StringExpr.substr e start len) h =
        ap (Option.map (λ s. slice s start len)) (eval_string-frame e h)
    eval_string-frame (StringExpr.concat parts) h = ap (λ s. some s) (eval_parts-frame parts h)

    eval_parts-frame :
        (es : StringExprs)
        → All Agrees (part_columns es)
        → eval_parts ops row es ≡ eval_parts ops row' es
    eval_parts-frame StringExprs.nil h = refl
    eval_parts-frame (StringExprs.cons e parts) h =
        let (l, r) = All-append Agrees (string_columns e) (part_columns parts) h in
        ap₂ (λ (x : Option Str) (y : Str). elim x [ none ↦ [] | some s ↦ s ] ++ y)
          (eval_string-frame e l) (eval_parts-frame parts r)

  mutual
    unfolding num_columns eval_num

    pub eval_num-frame :
        (e : NumExpr F) → All Agrees (num_columns e) → eval_num ops row e ≡ eval_num ops row' e
    eval_num-frame (NumExpr.col c) h =
        ap (λ cell. elim (as_f64 ops cell.value) [ some v ↦ v | none ↦ ops.nan ]) h.0
    eval_num-frame (NumExpr.lit v) h = refl
    eval_num-frame (NumExpr.add a b) h =
        let (l, r) = All-append Agrees (num_columns a) (num_columns b) h in
        ap₂ ops.add_f (eval_num-frame a l) (eval_num-frame b r)
    eval_num-frame (NumExpr.sub a b) h =
        let (l, r) = All-append Agrees (num_columns a) (num_columns b) h in
        ap₂ ops.sub_f (eval_num-frame a l) (eval_num-frame b r)
    eval_num-frame (NumExpr.mul a b) h =
        let (l, r) = All-append Agrees (num_columns a) (num_columns b) h in
        ap₂ ops.mul_f (eval_num-frame a l) (eval_num-frame b r)
    eval_num-frame (NumExpr.div a b) h =
        let (l, r) = All-append Agrees (num_columns a) (num_columns b) h in
        ap₂ (λ x y. if ops.eq_f y ops.zero_f then ops.nan else ops.div_f x y) (eval_num-frame a l)
          (eval_num-frame b r)
    eval_num-frame (NumExpr.null_if a b) h =
        let (l, r) = All-append Agrees (num_columns a) (num_columns b) h in
        ap₂
          (λ x y. if not (ops.is_nan x) && (not (ops.is_nan y) && ops.eq_f x y) then ops.nan else x)
          (eval_num-frame a l) (eval_num-frame b r)
    eval_num-frame (NumExpr.neg x) h = ap ops.neg_f (eval_num-frame x h)
    eval_num-frame (NumExpr.abs x) h = ap ops.abs_f (eval_num-frame x h)
    eval_num-frame (NumExpr.round x) h = ap ops.round_f (eval_num-frame x h)
    eval_num-frame (NumExpr.floor x) h = ap ops.floor_f (eval_num-frame x h)
    eval_num-frame (NumExpr.ceil x) h = ap ops.ceil_f (eval_num-frame x h)
    eval_num-frame (NumExpr.coalesce parts) h = first_num-frame parts h
    eval_num-frame (NumExpr.now_micros t) h = refl

    first_num-frame :
        (es : NumExprs F)
        → All Agrees (parts_columns es)
        → first_num ops row es ≡ first_num ops row' es
    first_num-frame NumExprs.nil h = refl
    first_num-frame (NumExprs.cons e parts) h =
        let (l, r) = All-append Agrees (num_columns e) (parts_columns parts) h in
        ap₂ (λ x y. if not (ops.is_nan x) then x else y) (eval_num-frame e l)
          (first_num-frame parts r)
