-- ===== src/Conflation/Submitting.antt =====
-- Submitting deltas to the conflator keeps the consumer's view (crates/cq-core/src/conflation.rs).
use cqserver.Prelude.{
  ℕ, false, ◌&&◌, ◌≡◌, ◌⊎◌, refl, none, some, List, [], ◌∷◌, ◌++◌, arith, number_eq, lookup, insert,
  remove, All-lookup, Bool-cases, inl, inr, Option-cases,
}
use cqserver.Conflation.Conflator.{
  Delta, Conflator, added, removed, out_of_focus, merge, submit, drain, empty_conflator, is_add,
  is_remove,
}
use cqserver.Conflation.View.{View, effect, apply, apply_all, apply_all-append, RowIsKey}
use cqserver.Conflation.Tracking.{
  Tracks, Admissible, empty-Tracks, put-Tracks, cut-Tracks, drain-Tracks,
}

module _ {D : Type 0} where
  merge-none :
      (prev d : Delta D) → merge prev d ≡ none → (prev.delta_type ≡ added) × (effect d ≡ none)
  unfolding merge
  merge-none prev d e = ground (arith, e)

  merge-some :
      (prev d m : Delta D)
      → merge prev d ≡ some m
      → (m.row ≡ d.row)
        × (effect m ≡ effect d)
        × (m.delta_type ≡ added → (prev.delta_type ≡ added) ⊎ (d.delta_type ≡ added))
  unfolding merge
  merge-some prev d m e = ground (arith, e)

  -- An Add for a row that is not shown meets a pending Remove or Oof there, if anything.
  hidden :
      (prev : Delta D)
      → effect prev ≡ none
      → (prev.delta_type ≡ removed) ⊎ (prev.delta_type ≡ out_of_focus)
  hidden prev e = ground (arith, e)

  one_more :
      (base : View D) (ready : List (Delta D)) (d : Delta D) (r : ℕ)
      → apply_all base (ready ++ d ∷ []) r ≡ apply (apply_all base ready) d r
  unfolding apply_all
  one_more base ready d r = rw (apply_all-append base ready (d ∷ [])) refl

  module _ (base now : View D) (c : Conflator D) (d : Delta D) (t : Tracks base now c) where
    keep_both :
        (prev : Delta D)
        → lookup d.row c.pending ≡ some prev
        → effect prev ≡ none
        → Tracks base (apply now d) (record {
          pending = insert d.row d (remove d.row c.pending);
          ready = c.ready ++ prev ∷ [];
        })
    keep_both prev e gone =
        let same : prev.row ≡ d.row = All-lookup RowIsKey d.row c.pending t.rows e in
        put-Tracks base now c d t d (c.ready ++ prev ∷ []) refl refl
          (λ new. ground (arith, one_more base c.ready prev d.row, same, gone))
          (λ r off. ground (arith, one_more base c.ready prev r, same, off))

    keep_one :
        (prev m : Delta D)
        → Admissible now c d
        → lookup d.row c.pending ≡ some prev
        → is_remove prev.delta_type && is_add d.delta_type ≡ false
        → merge prev d ≡ some m
        → Tracks base (apply now d) (record c { pending = insert m.row m (remove d.row c.pending) })
    keep_one prev m ok e one merged =
        let (same, shown, adds) = merge-some prev d m merged in
        put-Tracks base now c d t m c.ready same shown
          (λ new. elim (adds new) [
            | inl first ↦ t.fresh d.row prev e first
            | inr second ↦
                let prev_hidden : effect prev ≡ none =
                  ground (arith, e, t.shows d.row, ok.absent second) in
                elim (hidden prev prev_hidden) [
                  | inl r ↦ absurd (ground (arith, one, r, second))
                  | inr o ↦ absurd (ok.not_evicted second prev e o)
                ]
          ])
          (λ r off. refl)

    submit-Tracks : Admissible now c d → Tracks base (apply now d) (submit d c)
    unfolding submit
    submit-Tracks ok = elim (Option-cases (lookup d.row c.pending)) [
      | inl e ↦
          rw (e, submit)
            (put-Tracks base now c d t d c.ready refl refl
              (λ new. ground (arith, e, t.shows d.row, ok.absent new)) (λ r off. refl))
      | inr (prev, e) ↦ elim (Bool-cases (is_remove prev.delta_type && is_add d.delta_type)) [
        | inl both ↦ rw (e, submit, both) (keep_both prev e (ground (arith, both)))
        | inr one ↦ elim (Option-cases (merge prev d)) [
          | inl gone ↦
              let (first, none_shown) = merge-none prev d gone in
              rw (e, submit, one, gone)
                (cut-Tracks base now c d t none_shown (t.fresh d.row prev e first))
          | inr (m, merged) ↦ rw (e, submit, one, merged) (keep_one prev m ok e one merged)
        ]
      ]
    ]

  unfoldable pub submit_all : List (Delta D) → Conflator D → Conflator D
  submit_all [] c = c
  submit_all (d ∷ ds) c = submit_all ds (submit d c)

  -- Every delta is admissible when its turn comes.
  abbrev pub AllAdmissible : View D → Conflator D → List (Delta D) → Type 0
  AllAdmissible now c [] = Unit
  AllAdmissible now c (d ∷ ds) = Admissible now c d × AllAdmissible (apply now d) (submit d c) ds

  submit_all-Tracks :
      (base now : View D) (c : Conflator D) (ds : List (Delta D))
      → Tracks base now c
      → AllAdmissible now c ds
      → Tracks base (apply_all now ds) (submit_all ds c)
  unfolding submit_all apply_all
  submit_all-Tracks base now c [] t ok = t
  submit_all-Tracks base now c (d ∷ ds) t ok =
      submit_all-Tracks base (apply now d) (submit d c) ds (submit-Tracks base now c d t ok.0) ok.1

  -- Deltas whose payloads are whole rows, not the changed columns that a sparse subscription sends: a
  -- consumer that gets what the conflator makes of any of them sees in every row what it would see
  -- had it got the deltas themselves, where an Add comes only for a row that is not shown and not
  -- while an Oof for it is held back.
  pub drain_lem :
      (v : View D) (ds : List (Delta D)) (r : ℕ)
      → AllAdmissible v empty_conflator ds
      → apply_all v (drain (submit_all ds empty_conflator)).0 r ≡ apply_all v ds r
  drain_lem v ds r ok =
      drain-Tracks v (apply_all v ds) (submit_all ds empty_conflator) r
        (submit_all-Tracks v v empty_conflator ds (empty-Tracks v) ok)
