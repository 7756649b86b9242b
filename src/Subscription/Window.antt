-- ===== src/Subscription/Window.antt =====
-- A consumer that applies the deltas of a TOP-N subscription holds the rows of the window
-- (`evaluate_topn` in crates/cq-core/src/subscription.rs).
use cqserver.Prelude.{
  ℕ, suc, ◌≡◌, refl, ◌∙◌, sym, ap, subst, Bool, not, ◌&&◌, Option, none, some, List, [], ◌∷◌,
  lookup, nat_eq, nat_eq_iff, arith, if◌then◌else◌, Bool-cases, inl, inr, number_eq,
}
use cqserver.Predicate.Values.{Ops, Row}
use cqserver.Conflation.Conflator.{Delta, DeltaType, added, updated, removed, out_of_focus}
use cqserver.Conflation.View.{View, apply, apply_all, apply_all-append}
use cqserver.Subscription.Rows.{StoreOps, ColumnStore, JsonMap, project_row}
use cqserver.Subscription.RowSet.{contains}
use cqserver.Subscription.State.{Subscription, TopNState}
use cqserver.Subscription.Plain.{emit, full_body}
use cqserver.Subscription.TopN.{
  window, entrants, evictions, window_deltas, rerank, unrank, rank, evaluate_topn,
}
use cqserver.Subscription.Mirror.{write, project_row-write}

-- The rows of the window.
abbrev pub visible : {F R : Type 0} → Subscription F R → List ℕ
visible sub = elim sub.topn [ none ↦ [] | some t ↦ t.current_topn ]

module _ {F R : Type 0} (ops : Ops F R) (store_ops : StoreOps F) where
  module _ (store : ColumnStore F) (sequence : ℕ) (sub : Subscription F R) (r : ℕ) where
    apply-entrants :
        (old_topn rows : List ℕ) (view : View (JsonMap F))
        → apply_all view (entrants ops store_ops store sequence sub old_topn rows) r ≡ (
            if contains r rows && not (contains r old_topn)
            then some (project_row ops store_ops sub.query store r)
            else view r)
    unfolding entrants apply_all
    apply-entrants old_topn [] view = refl
    apply-entrants old_topn (s ∷ rows) view = elim (Bool-cases (contains s old_topn)) [
      | inl old ↦ rw old (ground (arith, apply-entrants old_topn rows view, old, nat_eq_iff s r))
      | inr new ↦
          let first = apply view (
            emit ops store_ops store s sequence sub added
              (project_row ops store_ops sub.query store s)) in
          rw new (ground (arith, apply-entrants old_topn rows first, new, nat_eq_iff s r))
    ]

    apply-evictions :
        (t : TopNState F) (new_topn rows : List ℕ) (view : View (JsonMap F))
        → apply_all view (evictions ops store_ops store sequence sub t new_topn rows) r
          ≡ (if contains r rows && not (contains r new_topn) then none else view r)
    unfolding evictions apply_all
    apply-evictions t new_topn [] view = refl
    apply-evictions t new_topn (s ∷ rows) view = elim (Bool-cases (contains s new_topn)) [
      | inl kept ↦
          rw kept (ground (arith, apply-evictions t new_topn rows view, kept, nat_eq_iff s r))
      | inr out ↦
          let kind : DeltaType = elim (lookup s t.row_to_key) [
            | none ↦ removed
            | some key ↦ out_of_focus
          ] in
          let first = apply view (
            emit ops store_ops store s sequence sub kind
              (project_row ops store_ops sub.query store s)) in
          rw out (ground (arith, apply-evictions t new_topn rows first, out, nat_eq_iff s r))
    ]

  -- The consumer's rows are those of the window, each as it is projected from the store.
  abbrev pub Shows : Subscription F R → ColumnStore F → View (JsonMap F) → Type 0
  Shows sub store view =
      (r : ℕ)
      → view r ≡ (
          if contains r (visible sub)
          then some (project_row ops store_ops sub.query store r)
          else none)

  apply-update :
      (store : ColumnStore F) (row sequence : ℕ) (sub : Subscription F R) (both : Bool)
      (view : View (JsonMap F)) (r : ℕ)
      → apply_all view
          (if both
            then emit ops store_ops store row sequence sub updated
                (full_body ops store_ops store row sequence sub)
              ∷ []
            else [])
          r
        ≡ (if both && nat_eq row r
            then some (project_row ops store_ops sub.query store row)
            else view r)
  unfolding apply_all
  apply-update store row sequence sub both view r = ground arith

  apply-window :
      (store : ColumnStore F) (row : ℕ) (cells : Row F) (sequence : ℕ) (sub : Subscription F R)
      (t : TopNState F) (old_topn new_topn : List ℕ) (view : View (JsonMap F)) (r : ℕ)
      → view r
        ≡ (if contains r old_topn then some (project_row ops store_ops sub.query store r) else none)
      → apply_all view
          (window_deltas ops store_ops (write row cells store) row sequence sub t old_topn new_topn)
          r
        ≡ (if contains r new_topn
            then some (project_row ops store_ops sub.query (write row cells store) r)
            else none)
  unfolding window_deltas
  apply-window store row cells sequence sub t old_topn new_topn view r same =
      let after : ColumnStore F = write row cells store in
      let came = entrants ops store_ops after sequence sub old_topn new_topn in
      let left = evictions ops store_ops after sequence sub t new_topn old_topn in
      let both = contains row old_topn && contains row new_topn in
      let first : View (JsonMap F) = apply_all view came in
      let second : View (JsonMap F) = apply_all first left in
      ap (λ (f : View (JsonMap F)). f r) (apply_all-append view came _)
      ∙ ap (λ (f : View (JsonMap F)). f r) (apply_all-append first left _)
      ∙ apply-update after row sequence sub both second r
      ∙ ground (
        arith,
        same,
        apply-entrants after sequence sub r old_topn new_topn view,
        apply-evictions after sequence sub r t new_topn old_topn first,
        nat_eq_iff row r,
        project_row-write ops store_ops sub.query store row cells r,
      )

  rerank-current :
      (store : ColumnStore F) (row : ℕ) (sub : Subscription F R) (t : TopNState F)
      → (rerank ops store_ops store row sub t).0.current_topn ≡ t.current_topn
  unfolding rerank unrank rank
  rerank-current store row sub t = ground arith

  -- The result of an evaluation with a positive limit.
  abbrev shown :
      ColumnStore F
      → ℕ
      → ℕ
      → Subscription F R
      → TopNState F
      → ℕ
      → Subscription F R × List (Delta (JsonMap F))
  shown store row sequence sub t n =
      let (t', active) = rerank ops store_ops store row sub t in
      let new_topn = window (suc n) t'.ranked in
      (
        record sub { active_set = active; topn = some (record t' { current_topn = new_topn }) },
        window_deltas ops store_ops store row sequence sub t' t'.current_topn new_topn,
      )

  evaluate_topn_lem :
      (store : ColumnStore F) (row sequence : ℕ) (sub : Subscription F R) (t : TopNState F) (n : ℕ)
      → sub.topn ≡ some t
      → sub.query.limit ≡ some (suc n)
      → evaluate_topn ops store_ops store row sequence sub ≡ shown store row sequence sub t n
  unfolding evaluate_topn
  evaluate_topn_lem store row sequence sub t n state limit = ground arith

  -- A TOP-N subscription with a positive limit: a consumer that holds the projections of the rows of the
  -- window holds, after the write of a row, its evaluation and the deltas that it sends, the projections of
  -- the rows of the new window, which are the first `limit` rows of the ranking.
  pub evaluate_topn-Shows :
      (store : ColumnStore F) (row : ℕ) (cells : Row F) (sequence : ℕ) (sub : Subscription F R)
      (t : TopNState F) (n : ℕ) (view : View (JsonMap F))
      → sub.topn ≡ some t
      → sub.query.limit ≡ some (suc n)
      → Shows sub store view
      → let (sub', deltas) = evaluate_topn ops store_ops (write row cells store) row sequence sub in
        Shows sub' (write row cells store) (apply_all view deltas)
        × (visible sub'
            ≡ window (suc n) (rerank ops store_ops (write row cells store) row sub t).0.ranked)
  evaluate_topn-Shows store row cells sequence sub t n view state limit same =
      let after : ColumnStore F = write row cells store in
      let t' : TopNState F = (rerank ops store_ops after row sub t).0 in
      let held : (r : ℕ)
          → view r ≡ (
              if contains r t'.current_topn
              then some (project_row ops store_ops sub.query store r)
              else none) =
        λ r.
          same r
          ∙ ap
              (λ rows.
                if contains r rows
                then some (project_row ops store_ops sub.query store r)
                else none)
              (ap
                  (λ (o : Option (TopNState F)). elim o as (λ _. List ℕ) [
                    | none ↦ []
                    | some x ↦ x.current_topn
                  ])
                  state
                ∙ sym (rerank-current after row sub t)) in
      subst
        (λ (p : Subscription F R × List (Delta (JsonMap F))).
          Shows p.0 after (apply_all view p.1) × (visible p.0 ≡ window (suc n) t'.ranked))
        (sym (evaluate_topn_lem after row sequence sub t n state limit))
        (
          (λ r.
              apply-window store row cells sequence sub t' t'.current_topn
                (window (suc n) t'.ranked) view r (held r)),
          refl,
        )
