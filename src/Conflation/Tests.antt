-- ===== src/Conflation/Tests.antt =====
-- Runs of the conflator, and the theorems about it at these.
use cqserver.Prelude.{
  ℕ, ◌≡◌, refl, arith, ◌==◌, if◌then◌else◌, none, some, List, [], ◌∷◌, lookup, insert, remove,
  number_eq,
}
use cqserver.Conflation.Conflator.{
  Delta, DeltaType, added, updated, removed, out_of_focus, merge, submit, drain, empty_conflator,
}
use cqserver.Conflation.View.{View, apply_all}
use cqserver.Conflation.Submitting.{AllAdmissible, submit_all, drain_lem}
use cqserver.Conflation.Lost.{oof_lost}

abbrev delta : DeltaType → ℕ → ℕ → Delta ℕ
delta t row content = record {
  subscription_id = "s";
  delta_type = t;
  row = row;
  sequence = content;
  row_data = content;
}

-- The consumer shows row 1 at first.
abbrev shown : View ℕ
shown r = if r == 1 then some 10 else none

abbrev replaced : List (Delta ℕ)
replaced = delta updated 1 11 ∷ delta removed 1 12 ∷ delta added 1 13 ∷ delta updated 1 14 ∷ []

replaced-Admissible : AllAdmissible shown empty_conflator replaced
unfolding submit merge lookup insert remove
replaced-Admissible = (
  record { absent = λ e. cc e; not_evicted = λ e. cc e },
  (
    record { absent = λ e. cc e; not_evicted = λ e. cc e },
    (
      record { absent = λ e. refl; not_evicted = λ e prev at o. ground (arith, at, o) },
      (record { absent = λ e. cc e; not_evicted = λ e. cc e }, tt),
    ),
  ),
)

drain_example :
    apply_all shown (drain (submit_all replaced empty_conflator)).0 1 ≡ apply_all shown replaced 1
drain_example = drain_lem shown replaced 1 replaced-Admissible

drain_runs :
    (drain (submit_all replaced empty_conflator)).0 ≡ delta removed 1 12 ∷ delta added 1 14 ∷ []
unfolding drain submit_all submit merge lookup insert remove
drain_runs = refl

oof_lost_example :
    (apply_all shown
        (drain (
          submit_all
            (delta out_of_focus 1 0 ∷ delta added 1 1 ∷ delta removed 1 2 ∷ [])
            empty_conflator)).0
        1
      ≡ some 10)
    × (apply_all shown (delta out_of_focus 1 0 ∷ delta added 1 1 ∷ delta removed 1 2 ∷ []) 1 ≡ none)
oof_lost_example =
    oof_lost shown (delta out_of_focus 1 0) (delta added 1 1) (delta removed 1 2) refl refl refl
      refl refl
