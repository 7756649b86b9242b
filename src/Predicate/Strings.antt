-- ===== src/Predicate/Strings.antt =====
-- String expressions and the case-folding comparison (`StringFn`, `StringExpr`, `string_fn_apply` and
-- `string_fn_eq` in crates/cq-core/src/predicate.rs).
use mathlib.Core.List.{head?}
use mathlib.Core.Option
use mathlib.Core.Option
use mathlib.Core.Option
use mathlib.Core.Option
use mathlib.Core.Option
use cqserver.Prelude.{
  ℕ, ℤ, pos, negsuc, ◌+◌, ◌-◌, ◌^◌, min, ◌&&◌, Bool, true, false, not, Option, none, some, List, [],
  ◌∷◌, ◌++◌, nat_eq, if◌then◌else◌, length, take, drop,
}
use cqserver.Predicate.Values.{Str, str_eq, Ops, Row}

pub data StringFn : Type 0 where
  upper lower : StringFn

mutual
  pub data StringExpr : Type 0 where
    col : ℕ → StringExpr
    lit : Str → StringExpr
    to_upper : StringExpr → StringExpr
    to_lower : StringExpr → StringExpr
    substr : StringExpr → ℤ → Option ℤ → StringExpr
    concat : StringExprs → StringExpr

  pub data StringExprs : Type 0 where
    nil : StringExprs
    cons : StringExpr → StringExprs → StringExprs

unfoldable mutual
  -- The columns read, in order.
  pub string_columns : StringExpr → List ℕ
  string_columns (col c) = c ∷ []
  string_columns (lit s) = []
  string_columns (to_upper e) = string_columns e
  string_columns (to_lower e) = string_columns e
  string_columns (substr e start len) = string_columns e
  string_columns (concat parts) = part_columns parts

  pub part_columns : StringExprs → List ℕ
  part_columns nil = []
  part_columns (cons e parts) = string_columns e ++ part_columns parts

-- `SUBSTR` on the characters: the start counts from one, and both ends are clamped.
unfoldable pub slice : Str → ℤ → Option ℤ → Str
slice s start len =
    let n = length s in
    let start_idx : ℕ = elim start [ pos p ↦ min (p - 1) n | negsuc p ↦ 0 ] in
    let end_idx : ℕ = elim len [
      | none ↦ n
      | some (negsuc l) ↦ start_idx
      | some (pos l) ↦ if nat_eq l 0 then start_idx else min (min (start_idx + l) (2 ^ 64 - 1)) n
    ] in
    drop start_idx (take end_idx s)

module _ {F R : Type 0} (ops : Ops F R) where
  unfoldable mutual
    pub eval_string : Row F → StringExpr → Option Str
    eval_string row (col c) = (row c).string
    eval_string row (lit s) = some s
    eval_string row (to_upper e) = Option.map ops.to_uppercase (eval_string row e)
    eval_string row (to_lower e) = Option.map ops.to_lowercase (eval_string row e)
    eval_string row (substr e start len) = Option.map (λ s. slice s start len) (eval_string row e)
    eval_string row (concat parts) = some (eval_parts row parts)

    -- A null part counts as the empty text.
    pub eval_parts : Row F → StringExprs → Str
    eval_parts row nil = []
    eval_parts row (cons e parts) =
        elim (eval_string row e) [ none ↦ [] | some s ↦ s ] ++ eval_parts row parts

  unfoldable pub string_fn_apply : StringFn → Str → Str
  string_fn_apply upper s = ops.to_uppercase s
  string_fn_apply lower s = ops.to_lowercase s

  -- The first character that a character's case mapping yields, compared.
  abbrev pub char_fn_eq : StringFn → ℕ → ℕ → Bool
  char_fn_eq func a b =
      elim (head? (elim func [ upper ↦ ops.upper_char a | lower ↦ ops.lower_char a ])) [
        | some u ↦ nat_eq u b
        | none ↦ false
      ]

  -- `s.chars().zip(literal.chars()).all(…)`, which stops with the shorter text.
  unfoldable pub zip_all : StringFn → Str → Str → Bool
  zip_all func (a ∷ s) (b ∷ t) = char_fn_eq func a b && zip_all func s t
  zip_all func _ _ = true

  unfoldable pub string_fn_eq : StringFn → Str → Str → Bool
  string_fn_eq func s literal =
      if not (nat_eq (ops.byte_len s) (ops.byte_len literal))
      then str_eq (string_fn_apply func s) literal
      else zip_all func s literal
