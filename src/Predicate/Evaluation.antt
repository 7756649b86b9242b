-- ===== src/Predicate/Evaluation.antt =====
-- The evaluation of a predicate on a row, in three-valued logic (`matches` and `matches_3vl` in
-- crates/cq-core/src/predicate.rs).
use cqserver.Prelude.{Bool, true, false, if◌then◌else◌}
use cqserver.Predicate.Values.{Ops, Row}
use cqserver.Predicate.Compiled.{CompiledPredicate}
use cqserver.Predicate.Leaf.{
  Tri, tri, and_3vl, or_3vl, not_3vl, operand_is_null, matches_leaf_bool, yes, unknown,
}

module _ {F R : Type 0} (ops : Ops F R) where
  unfoldable pub matches_3vl : Row F → CompiledPredicate F R → Tri
  matches_3vl row (CompiledPredicate.and left right) =
      and_3vl (matches_3vl row left) (matches_3vl row right)
  matches_3vl row (CompiledPredicate.or left right) =
      or_3vl (matches_3vl row left) (matches_3vl row right)
  matches_3vl row (CompiledPredicate.negate inner) = not_3vl (matches_3vl row inner)
  matches_3vl row CompiledPredicate.always_true = yes
  matches_3vl row (CompiledPredicate.is_null col) =
      tri (matches_leaf_bool ops row (CompiledPredicate.is_null col))
  matches_3vl row (CompiledPredicate.is_not_null col) =
      tri (matches_leaf_bool ops row (CompiledPredicate.is_not_null col))
  matches_3vl row (CompiledPredicate.is_bool col want_true negated) =
      tri (matches_leaf_bool ops row (CompiledPredicate.is_bool col want_true negated))
  matches_3vl row leaf =
      if operand_is_null ops row leaf then unknown else tri (matches_leaf_bool ops row leaf)

  unfoldable pub matches : Row F → CompiledPredicate F R → Bool
  matches row p = elim (matches_3vl row p) [ yes ↦ true | _ ↦ false ]
