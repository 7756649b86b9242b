-- ===== src/Subscription/TopN.antt =====
-- One mutation and one TOP-N subscription (`evaluate_topn` in crates/cq-core/src/subscription.rs). The
-- ranked rows, a `BTreeSet`, are a list in the order of their keys; removal takes out what compares
-- equal.
use cqserver.Prelude.{
  ℕ, Bool, true, false, not, ◌&&◌, none, some, List, [], ◌∷◌, ◌++◌, map, ltb, lookup, insert,
  remove, take, filter_by, if◌then◌else◌, number_eq,
}
use Prim.Native.Nat.Ordering.{lt, eq, gt}
use cqserver.Predicate.Values.{Ops}
use cqserver.Predicate.Evaluation.{matches}
use cqserver.Conflation.Conflator.{Delta, DeltaType, added, updated, removed, out_of_focus}
use cqserver.Subscription.Rows.{StoreOps, ColumnStore, JsonMap}
use cqserver.Subscription.RowSet.{contains, add_row, remove_row}
use cqserver.Subscription.SortKeys.{SortKey, compare_ranked, build_sort_key}
use cqserver.Subscription.State.{Subscription, TopNState}
use cqserver.Subscription.Plain.{emit, full_body}

-- The first `limit` rows.
unfoldable pub window : {F : Type 0} → ℕ → List (SortKey F × ℕ) → List ℕ
window limit ranked = map (λ e. e.1) (take limit ranked)

module _ {F : Type 0} (store_ops : StoreOps F) where
  -- `BTreeSet::insert`, which leaves an equal element alone.
  unfoldable pub rank_insert : SortKey F × ℕ → List (SortKey F × ℕ) → List (SortKey F × ℕ)
  rank_insert a [] = a ∷ []
  rank_insert a (b ∷ bs) = elim (compare_ranked store_ops a b) [
    | lt ↦ a ∷ b ∷ bs
    | eq ↦ b ∷ bs
    | gt ↦ b ∷ rank_insert a bs
  ]

  abbrev ranks_equal : SortKey F × ℕ → SortKey F × ℕ → Bool
  ranks_equal a b = elim (compare_ranked store_ops a b) [ eq ↦ true | _ ↦ false ]

  unfoldable pub rank_remove : SortKey F × ℕ → List (SortKey F × ℕ) → List (SortKey F × ℕ)
  rank_remove a ranked = filter_by (λ b. not (ranks_equal a b)) ranked

  -- The mutated row loses its old place.
  unfoldable pub unrank : ℕ → TopNState F → TopNState F
  unrank row t = elim (lookup row t.row_to_key) [
    | none ↦ t
    | some old_key ↦ record t {
      row_to_key = remove row t.row_to_key;
      ranked = rank_remove (old_key, row) t.ranked;
    }
  ]

  unfoldable pub rank : ℕ → SortKey F → TopNState F → TopNState F
  rank row key t = record t {
    ranked = rank_insert (key, row) t.ranked;
    row_to_key = insert row key t.row_to_key;
  }

module _ {F R : Type 0} (ops : Ops F R) (store_ops : StoreOps F) where
  module _ (store : ColumnStore F) (sequence : ℕ) (sub : Subscription F R) where
    -- The rows that entered the window.
    unfoldable pub entrants : List ℕ → List ℕ → List (Delta (JsonMap F))
    entrants old_topn [] = []
    entrants old_topn (r ∷ rs) =
        let rest = entrants old_topn rs in
        if contains r old_topn
        then rest
        else emit ops store_ops store r sequence sub added
            (full_body ops store_ops store r sequence sub)
          ∷ rest

    -- The rows that left it: out of focus if they are ranked still.
    unfoldable pub evictions : TopNState F → List ℕ → List ℕ → List (Delta (JsonMap F))
    evictions t new_topn [] = []
    evictions t new_topn (r ∷ rs) =
        let rest = evictions t new_topn rs in
        let kind : DeltaType = elim (lookup r t.row_to_key) [
          | none ↦ removed
          | some key ↦ out_of_focus
        ] in
        if contains r new_topn
        then rest
        else emit ops store_ops store r sequence sub kind
            (full_body ops store_ops store r sequence sub)
          ∷ rest

  -- The ranking and the active set after the mutation of a row.
  unfoldable pub rerank : ColumnStore F → ℕ → Subscription F R → TopNState F → TopNState F × List ℕ
  rerank store row sub topn =
      let t = unrank store_ops row topn in
      if matches ops (store.rows row) sub.query.predicate
      then (
        rank store_ops row (build_sort_key store row sub.query.order_by) t,
        add_row row sub.active_set,
      )
      else (t, remove_row row sub.active_set)

  -- The deltas between the two windows, and the update of the row if it is in both.
  unfoldable pub window_deltas :
      ColumnStore F
      → ℕ
      → ℕ
      → Subscription F R
      → TopNState F
      → List ℕ
      → List ℕ
      → List (Delta (JsonMap F))
  window_deltas store row sequence sub t old_topn new_topn =
      entrants store sequence sub old_topn new_topn
      ++ (evictions store sequence sub t new_topn old_topn
          ++ (if contains row old_topn && contains row new_topn
              then emit ops store_ops store row sequence sub updated
                  (full_body ops store_ops store row sequence sub)
                ∷ []
              else []))

  unfoldable pub evaluate_topn :
      ColumnStore F → ℕ → ℕ → Subscription F R → Subscription F R × List (Delta (JsonMap F))
  evaluate_topn store row sequence sub =
      let limit = elim sub.query.limit as (λ _. ℕ) [ none ↦ 0 | some n ↦ n ] in
      elim sub.topn [
        | none ↦ (sub, [])
        | some topn ↦
            let (t, active) = rerank store row sub topn in
            let new_topn = window limit t.ranked in
            if ltb 0 limit
            then (
              record sub {
                active_set = active;
                topn = some (record t { current_topn = new_topn });
              },
              window_deltas store row sequence sub t t.current_topn new_topn,
            )
            else (sub, [])
      ]
