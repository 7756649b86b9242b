-- ===== src/Predicate/Tests.antt =====
-- Runs of predicates, and the theorems about them at these.
use cqserver.Prelude.{
  ◌&&◌, ◌||◌, not, ◌≡◌, refl, true, false, none, some, [], ◌∷◌, ℤ, nat_eq, if◌then◌else◌, All,
}
use cqserver.Predicate.Sample.{ops, text_cell}
use cqserver.Predicate.Values.{Str, Row, str_eq, column_is_null}
use cqserver.Predicate.Strings.{upper, zip_all, string_fn_apply, string_fn_eq}
use cqserver.Predicate.Compiled.{
  CompiledPredicate, eq_string_fn, eq_string, and, or, negate, collect_referenced,
  referenced_columns, sort, insert_sorted, dedup, dedup_after,
}
use cqserver.Predicate.Evaluation.{matches_3vl, matches}
use cqserver.Predicate.Operands.{Agrees}
use cqserver.Predicate.Frame.{referenced_columns-frame}
use cqserver.Predicate.Nulls.{IsNullAt, null-matches}
use cqserver.Predicate.Kleene.{IsKnown, matches-IsKnown}
use cqserver.Predicate.Folding.{string_fn_eq-longer}

-- Column 1 is a text, all others are null texts.
abbrev row : Row ℤ
row c = if nat_eq c 1 then text_cell (some (305 ∷ [])) else text_cell none

abbrev updated_row : Row ℤ
updated_row c = if nat_eq c 5 then text_cell (some []) else row c

abbrev upper_is : CompiledPredicate ℤ Str
upper_is = eq_string_fn 1 upper (73 ∷ [])

abbrev text_is : CompiledPredicate ℤ Str
text_is = eq_string 2 (73 ∷ [])

referenced_runs : referenced_columns (and (negate text_is) (or upper_is text_is)) ≡ 1 ∷ 2 ∷ []
unfolding referenced_columns collect_referenced sort insert_sorted dedup dedup_after
referenced_runs = refl

agreed : All (Agrees ops row updated_row) (referenced_columns (or upper_is text_is))
unfolding referenced_columns collect_referenced sort insert_sorted dedup dedup_after
agreed = (refl, (refl, tt))

referenced_columns-frame_example :
    (matches_3vl ops row (or upper_is text_is) ≡ matches_3vl ops updated_row (or upper_is text_is))
    × (matches ops row (or upper_is text_is) ≡ matches ops updated_row (or upper_is text_is))
referenced_columns-frame_example =
    referenced_columns-frame ops row updated_row (or upper_is text_is) agreed

-- A negated comparison, joined to another.
abbrev null_texts : CompiledPredicate ℤ Str
null_texts = and (negate text_is) (eq_string 3 [])

null_columns : All (IsNullAt ops row) (referenced_columns null_texts)
unfolding referenced_columns collect_referenced sort insert_sorted dedup dedup_after column_is_null
null_columns = (refl, (refl, tt))

null-matches_example :
    (matches ops row null_texts ≡ false) × (matches ops row (negate null_texts) ≡ false)
null-matches_example = null-matches ops row null_texts refl null_columns

matches-IsKnown_example :
    IsKnown
      (matches_3vl ops row (and upper_is text_is))
      (λ x y. x && y)
      (matches_3vl ops row upper_is)
      (matches_3vl ops row text_is)
      false
    × IsKnown
        (matches_3vl ops row (or upper_is text_is))
        (λ x y. x || y)
        (matches_3vl ops row upper_is)
        (matches_3vl ops row text_is)
        false
    × IsKnown
        (matches_3vl ops row (negate upper_is))
        (λ x y. not x)
        (matches_3vl ops row upper_is)
        (matches_3vl ops row upper_is)
        false
matches-IsKnown_example = matches-IsKnown ops row upper_is text_is false

-- The text is the dotless i alone, the literal is `IX`.
string_fn_eq-longer_example :
    (string_fn_eq ops upper (305 ∷ []) (73 ∷ 88 ∷ []) ≡ true)
    × (str_eq (string_fn_apply ops upper (305 ∷ [])) (73 ∷ 88 ∷ []) ≡ false)
unfolding string_fn_apply zip_all
string_fn_eq-longer_example =
    string_fn_eq-longer ops upper (305 ∷ []) (73 ∷ []) [] 88 refl refl refl refl
