-- ===== src/Subscription/Engine.antt =====
-- The engine that holds a topic's subscriptions: registration, closing, seeding, and the evaluation of
-- a mutation (`SubscriptionEngine` in crates/cq-core/src/subscription.rs). A hash map's order is the
-- order of its association list; the closed flag is a field.
use cqserver.Prelude.{
  ℕ, String, Bool, true, false, Option, none, some, List, [], ◌∷◌, ◌++◌, map, ltb, Assoc, lookup,
  insert, remove, length, filter_by, not, if◌then◌else◌, string_eq, number_eq,
}
use text.Mathlib.Text.{starts_with}
use cqserver.Predicate.Values.{Ops}
use cqserver.Predicate.Evaluation.{matches}
use cqserver.Conflation.Conflator.{Delta}
use cqserver.Subscription.Rows.{StoreOps, ColumnStore, JsonMap, range_from}
use cqserver.Subscription.RowSet.{add_row}
use cqserver.Subscription.SortKeys.{build_sort_key}
use cqserver.Subscription.State.{Subscription, MutationKind, close, close_too_many}
use cqserver.Subscription.Sparse.{effective_projection, snapshot_columns}
use cqserver.Subscription.Plain.{at_cap, evaluate_plain}
use cqserver.Subscription.TopN.{window, rank, evaluate_topn}
use cqserver.Subscription.Index.{PredicateIndex, add_sub, remove_sub, affected}

pub record SubscriptionEngine (F R : Type 0) : Type 0 where
  pub subscriptions : Assoc String (Subscription F R)
  pub predicate_index : PredicateIndex

unfoldable pub unindex : List String → PredicateIndex → PredicateIndex
unindex [] index = index
unindex (id ∷ ids) index = unindex ids (remove_sub id index)

module _ {F R : Type 0} where
  unfoldable pub add : Subscription F R → SubscriptionEngine F R → SubscriptionEngine F R
  add sub engine = record {
    predicate_index = add_sub sub.id sub.query.predicate engine.predicate_index;
    subscriptions = insert sub.id sub engine.subscriptions;
  }

  unfoldable pub remove_subscription : String → SubscriptionEngine F R → SubscriptionEngine F R
  remove_subscription id engine = record {
    predicate_index = remove_sub id engine.predicate_index;
    subscriptions = remove id engine.subscriptions;
  }

  -- One after the other.
  unfoldable pub remove_ids : List String → SubscriptionEngine F R → SubscriptionEngine F R
  remove_ids [] engine = engine
  remove_ids (id ∷ ids) engine = remove_ids ids (remove_subscription id engine)

  unfoldable pub ids_where :
      (String × Subscription F R → Bool) → SubscriptionEngine F R → List String
  ids_where p engine = map (λ e. e.0) (filter_by p engine.subscriptions)

  unfoldable pub remove_by_prefix : String → SubscriptionEngine F R → SubscriptionEngine F R × ℕ
  remove_by_prefix prefix engine =
      let to_drop = ids_where (λ e. starts_with e.0 prefix) engine in
      (
        record {
          predicate_index = unindex to_drop engine.predicate_index;
          subscriptions = filter_by (λ e. not (starts_with e.0 prefix)) engine.subscriptions;
        },
        length to_drop,
      )

  unfoldable pub mark_closed : String → SubscriptionEngine F R → SubscriptionEngine F R × Bool
  mark_closed id engine = elim (lookup id engine.subscriptions) [
    | none ↦ (engine, false)
    | some sub ↦
        (record engine { subscriptions = insert id (close sub) engine.subscriptions }, true)
  ]

  unfoldable pub reap_closed : SubscriptionEngine F R → SubscriptionEngine F R × ℕ
  reap_closed engine =
      let to_drop = ids_where (λ e. e.1.closed) engine in
      (remove_ids to_drop engine, length to_drop)

module _ {F R : Type 0} (ops : Ops F R) (store_ops : StoreOps F) (store : ColumnStore F) where
  -- A matching row of the store joins the active set, the snapshots and the ranking.
  unfoldable pub seed_row : ℕ → Subscription F R → Subscription F R
  seed_row row sub = record sub {
    active_set = add_row row sub.active_set;
    last_snapshot =
        if sub.sparse
        then insert row
            (snapshot_columns store row (effective_projection sub.query store.column_count))
            sub.last_snapshot
        else sub.last_snapshot;
    topn = elim sub.topn [
      | none ↦ none
      | some t ↦ some (rank store_ops row (build_sort_key store row sub.query.order_by) t)
    ];
  }

  -- The loop over the rows; it stops when the subscription is closed for its cap.
  unfoldable pub seed_rows : List ℕ → Subscription F R → Subscription F R × Bool
  seed_rows [] sub = (sub, true)
  seed_rows (row ∷ rows) sub = elim (matches ops (store.rows row) sub.query.predicate) [
    | false ↦ seed_rows rows sub
    | true ↦ elim (at_cap sub) [
      | true ↦ (close_too_many sub, false)
      | false ↦ seed_rows rows (seed_row row sub)
    ]
  ]

  -- The first rows of the ranking are the window.
  unfoldable pub prime : Subscription F R → Subscription F R
  prime sub = elim sub.topn [
    | none ↦ sub
    | some t ↦
        let limit = elim sub.query.limit as (λ _. ℕ) [ none ↦ 0 | some n ↦ n ] in
        record sub { topn = some (record t { current_topn = window limit t.ranked }) }
  ]

  unfoldable pub seed : Subscription F R → Subscription F R
  seed sub =
      let (seeded, complete) = seed_rows (range_from 0 store.row_count) sub in
      if complete then prime seeded else seeded

  unfoldable pub seed_active_set : String → SubscriptionEngine F R → SubscriptionEngine F R
  seed_active_set sub_id engine = elim (lookup sub_id engine.subscriptions) [
    | none ↦ engine
    | some sub ↦ record engine { subscriptions = insert sub_id (seed sub) engine.subscriptions }
  ]

  module _ (row sequence : ℕ) (kind : MutationKind) where
    -- One subscription without aggregates: nothing if it is closed, or for an event that the replay
    -- has covered.
    unfoldable pub evaluate_subscription :
        Subscription F R → Subscription F R × List (Delta (JsonMap F))
    evaluate_subscription sub =
        if sub.closed
        then (sub, [])
        else if ltb sequence sub.live_start_sequence
        then (sub, [])
        else elim sub.topn [
          | some t ↦ evaluate_topn ops store_ops store row sequence sub
          | none ↦ evaluate_plain ops store_ops store row sequence kind sub
        ]

    unfoldable pub evaluate_ids :
        List String
        → Assoc String (Subscription F R)
        → Assoc String (Subscription F R) × List (Delta (JsonMap F))
    evaluate_ids [] subs = (subs, [])
    evaluate_ids (id ∷ ids) subs = elim (lookup id subs) [
      | none ↦ evaluate_ids ids subs
      | some sub ↦
          let (evaluated, deltas) = evaluate_subscription sub in
          let (rest, more) = evaluate_ids ids (insert id evaluated subs) in (rest, deltas ++ more)
    ]

    unfoldable pub evaluate_row_kind_indexed :
        Option (List ℕ) → SubscriptionEngine F R → SubscriptionEngine F R × List (Delta (JsonMap F))
    evaluate_row_kind_indexed changed_cols engine =
        let ids = elim changed_cols as (λ _. List String) [
          | some cols ↦ affected (some cols) engine.predicate_index
          | none ↦ map (λ e. e.0) engine.subscriptions
        ] in
        let (subs, deltas) = evaluate_ids ids engine.subscriptions in
        (record engine { subscriptions = subs }, deltas)
