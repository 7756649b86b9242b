-- ===== src/Predicate/Frame.antt =====
-- A predicate depends on the columns that it names only, which lets an update that touches none of
-- them skip it (crates/cq-core/src/predicate.rs).
use cqserver.Prelude.{◌≡◌, refl, ap, not, ◌&&◌, if◌then◌else◌, All, All-append}
use cqserver.Predicate.Values.{Ops, Row}
use cqserver.Predicate.Numbers.{apply_f64}
use cqserver.Predicate.Compiled.{CompiledPredicate, collect_referenced, referenced_columns}
use cqserver.Predicate.Evaluation.{matches_3vl, matches}
use cqserver.Predicate.Leaf.{unknown, tri, matches_leaf_bool}
use cqserver.Predicate.Operands.{Agrees, eval_string-frame, eval_num-frame}
use cqserver.Predicate.Columns.{All-referenced}

module _ {F R : Type 0} (ops : Ops F R) (row row' : Row F) where
  collected :
      (p : CompiledPredicate F R)
      → All (Agrees ops row row') (collect_referenced p)
      → matches_3vl ops row p ≡ matches_3vl ops row' p
  unfolding matches_3vl collect_referenced
  collected (CompiledPredicate.eq_double col value) h =
      ap (λ c. matches_3vl ops (λ _. c) (CompiledPredicate.eq_double col value)) h.0
  collected (CompiledPredicate.neq_double col value) h =
      ap (λ c. matches_3vl ops (λ _. c) (CompiledPredicate.neq_double col value)) h.0
  collected (CompiledPredicate.lt_double col value) h =
      ap (λ c. matches_3vl ops (λ _. c) (CompiledPredicate.lt_double col value)) h.0
  collected (CompiledPredicate.le_double col value) h =
      ap (λ c. matches_3vl ops (λ _. c) (CompiledPredicate.le_double col value)) h.0
  collected (CompiledPredicate.gt_double col value) h =
      ap (λ c. matches_3vl ops (λ _. c) (CompiledPredicate.gt_double col value)) h.0
  collected (CompiledPredicate.ge_double col value) h =
      ap (λ c. matches_3vl ops (λ _. c) (CompiledPredicate.ge_double col value)) h.0
  collected (CompiledPredicate.between_double col low high) h =
      ap (λ c. matches_3vl ops (λ _. c) (CompiledPredicate.between_double col low high)) h.0
  collected (CompiledPredicate.eq_long col value) h =
      ap (λ c. matches_3vl ops (λ _. c) (CompiledPredicate.eq_long col value)) h.0
  collected (CompiledPredicate.neq_long col value) h =
      ap (λ c. matches_3vl ops (λ _. c) (CompiledPredicate.neq_long col value)) h.0
  collected (CompiledPredicate.lt_long col value) h =
      ap (λ c. matches_3vl ops (λ _. c) (CompiledPredicate.lt_long col value)) h.0
  collected (CompiledPredicate.le_long col value) h =
      ap (λ c. matches_3vl ops (λ _. c) (CompiledPredicate.le_long col value)) h.0
  collected (CompiledPredicate.gt_long col value) h =
      ap (λ c. matches_3vl ops (λ _. c) (CompiledPredicate.gt_long col value)) h.0
  collected (CompiledPredicate.ge_long col value) h =
      ap (λ c. matches_3vl ops (λ _. c) (CompiledPredicate.ge_long col value)) h.0
  collected (CompiledPredicate.between_long col low high) h =
      ap (λ c. matches_3vl ops (λ _. c) (CompiledPredicate.between_long col low high)) h.0
  collected (CompiledPredicate.eq_string col value) h =
      ap (λ c. matches_3vl ops (λ _. c) (CompiledPredicate.eq_string col value)) h.0
  collected (CompiledPredicate.neq_string col value) h =
      ap (λ c. matches_3vl ops (λ _. c) (CompiledPredicate.neq_string col value)) h.0
  collected (CompiledPredicate.in_string col values) h =
      ap (λ c. matches_3vl ops (λ _. c) (CompiledPredicate.in_string col values)) h.0
  collected (CompiledPredicate.in_long col values) h =
      ap (λ c. matches_3vl ops (λ _. c) (CompiledPredicate.in_long col values)) h.0
  collected (CompiledPredicate.in_double col values) h =
      ap (λ c. matches_3vl ops (λ _. c) (CompiledPredicate.in_double col values)) h.0
  collected (CompiledPredicate.in_bool col values) h =
      ap (λ c. matches_3vl ops (λ _. c) (CompiledPredicate.in_bool col values)) h.0
  collected (CompiledPredicate.eq_bool col value) h =
      ap (λ c. matches_3vl ops (λ _. c) (CompiledPredicate.eq_bool col value)) h.0
  collected (CompiledPredicate.neq_bool col value) h =
      ap (λ c. matches_3vl ops (λ _. c) (CompiledPredicate.neq_bool col value)) h.0
  collected (CompiledPredicate.eq_timestamp col value) h =
      ap (λ c. matches_3vl ops (λ _. c) (CompiledPredicate.eq_timestamp col value)) h.0
  collected (CompiledPredicate.neq_timestamp col value) h =
      ap (λ c. matches_3vl ops (λ _. c) (CompiledPredicate.neq_timestamp col value)) h.0
  collected (CompiledPredicate.lt_timestamp col value) h =
      ap (λ c. matches_3vl ops (λ _. c) (CompiledPredicate.lt_timestamp col value)) h.0
  collected (CompiledPredicate.le_timestamp col value) h =
      ap (λ c. matches_3vl ops (λ _. c) (CompiledPredicate.le_timestamp col value)) h.0
  collected (CompiledPredicate.gt_timestamp col value) h =
      ap (λ c. matches_3vl ops (λ _. c) (CompiledPredicate.gt_timestamp col value)) h.0
  collected (CompiledPredicate.ge_timestamp col value) h =
      ap (λ c. matches_3vl ops (λ _. c) (CompiledPredicate.ge_timestamp col value)) h.0
  collected (CompiledPredicate.between_timestamp col low high) h =
      ap (λ c. matches_3vl ops (λ _. c) (CompiledPredicate.between_timestamp col low high)) h.0
  collected (CompiledPredicate.in_timestamp col values) h =
      ap (λ c. matches_3vl ops (λ _. c) (CompiledPredicate.in_timestamp col values)) h.0
  collected (CompiledPredicate.like col pattern) h =
      ap (λ c. matches_3vl ops (λ _. c) (CompiledPredicate.like col pattern)) h.0
  collected (CompiledPredicate.regex col pattern) h =
      ap (λ c. matches_3vl ops (λ _. c) (CompiledPredicate.regex col pattern)) h.0
  collected (CompiledPredicate.eq_string_fn col func value) h =
      ap (λ c. matches_3vl ops (λ _. c) (CompiledPredicate.eq_string_fn col func value)) h.0
  collected (CompiledPredicate.neq_string_fn col func value) h =
      ap (λ c. matches_3vl ops (λ _. c) (CompiledPredicate.neq_string_fn col func value)) h.0
  collected (CompiledPredicate.like_string_fn col func pattern) h =
      ap (λ c. matches_3vl ops (λ _. c) (CompiledPredicate.like_string_fn col func pattern)) h.0
  collected (CompiledPredicate.length_cmp col op value) h =
      ap (λ c. matches_3vl ops (λ _. c) (CompiledPredicate.length_cmp col op value)) h.0
  collected (CompiledPredicate.compare_num e op value) h =
      ap (λ v. if ops.is_nan v then unknown else tri (apply_f64 ops op v value))
        (eval_num-frame ops row row' e h)
  collected (CompiledPredicate.between_num e low high) h =
      ap
        (λ v.
          if ops.is_nan v
          then unknown
          else tri (not (ops.is_nan v) && (ops.le_f low v && ops.le_f v high)))
        (eval_num-frame ops row row' e h)
  collected (CompiledPredicate.eq_string_expr e value) h =
      rw (eval_string-frame ops row row' e h, matches_leaf_bool) refl
  collected (CompiledPredicate.neq_string_expr e value) h =
      rw (eval_string-frame ops row row' e h, matches_leaf_bool) refl
  collected (CompiledPredicate.like_string_expr e pattern) h =
      rw (eval_string-frame ops row row' e h, matches_leaf_bool) refl
  collected (CompiledPredicate.is_null col) h =
      ap (λ c. matches_3vl ops (λ _. c) (CompiledPredicate.is_null col)) h.0
  collected (CompiledPredicate.is_not_null col) h =
      ap (λ c. matches_3vl ops (λ _. c) (CompiledPredicate.is_not_null col)) h.0
  collected (CompiledPredicate.is_bool col want_true negated) h =
      ap (λ c. matches_3vl ops (λ _. c) (CompiledPredicate.is_bool col want_true negated)) h.0
  collected (CompiledPredicate.and a b) h =
      let (l, r) =
        All-append (Agrees ops row row') (collect_referenced a) (collect_referenced b) h in
      rw (collected a l, collected b r) refl
  collected (CompiledPredicate.or a b) h =
      let (l, r) =
        All-append (Agrees ops row row') (collect_referenced a) (collect_referenced b) h in
      rw (collected a l, collected b r) refl
  collected (CompiledPredicate.negate inner) h = rw (collected inner h) refl
  collected CompiledPredicate.always_true h = refl

  -- Two rows that agree on the columns that a predicate is said to read give it the same three-valued
  -- result, so that an update of other columns cannot change whether the row matches.
  pub referenced_columns-frame :
      (p : CompiledPredicate F R)
      → All (Agrees ops row row') (referenced_columns p)
      → (matches_3vl ops row p ≡ matches_3vl ops row' p) × (matches ops row p ≡ matches ops row' p)
  unfolding matches
  referenced_columns-frame p h =
      let same = collected p (All-referenced (Agrees ops row row') p h) in
      (same, rw (same, matches) refl)
