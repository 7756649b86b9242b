-- ===== src/Subscription/Registry.antt =====
-- The engine's index names each registered subscription under the columns of its predicate, whatever the
-- engine does (crates/cq-core/src/subscription.rs).
use cqserver.Prelude.{
  ℕ, String, ◌≡◌, refl, ◌∙◌, sym, ap, Bool, true, false, not, Option, none, some, List, [], ◌∷◌,
  map, Assoc, lookup, insert, lookup-insert, lookup-remove, filter_by, arith, if◌then◌else◌,
  string_eq, ◌==◌, ==_iff, Bool-cases, Option-cases, inl, inr, subst,
}
use text.Mathlib.Text.{starts_with}
use cqserver.Predicate.Values.{Ops}
use cqserver.Predicate.Compiled.{referenced_columns}
use cqserver.Subscription.Rows.{StoreOps, ColumnStore, range_from, Query}
use cqserver.Subscription.State.{Subscription, MutationKind, close, close_too_many}
use cqserver.Subscription.Plain.{evaluate_plain, enter, stay, leave}
use cqserver.Subscription.TopN.{evaluate_topn}
use cqserver.Subscription.Index.{PredicateIndex, remove_sub}
use cqserver.Subscription.Listed.{listed}
use cqserver.Subscription.Routing.{
  IsExact, remove_sub-IsExact, add_sub-IsExact, lookup-remove_sub, lookup-add_sub,
}
use cqserver.Subscription.Engine.{
  SubscriptionEngine, add, remove_subscription, remove_ids, unindex, ids_where, remove_by_prefix,
  mark_closed, reap_closed, seed_row, seed_rows, prime, seed, seed_active_set,
  evaluate_subscription, evaluate_ids, evaluate_row_kind_indexed,
}

-- The columns that a registration of the subscription names.
abbrev pub wanted : {F R : Type 0} → Option (Subscription F R) → Option (List ℕ)
wanted none = none
wanted (some sub) = some (referenced_columns sub.query.predicate)

module _ {F R : Type 0} where
  -- The index agrees with itself and with the registered subscriptions.
  pub record IsIndexed (engine : SubscriptionEngine F R) : Type 0 where
    pub exact : IsExact engine.predicate_index
    pub named :
        (id : String)
        → lookup id engine.predicate_index.sub_to_cols ≡ wanted (lookup id engine.subscriptions)

  pub add-IsIndexed :
      (sub : Subscription F R) (engine : SubscriptionEngine F R)
      → IsIndexed engine
      → IsIndexed (add sub engine)
  unfolding add
  add-IsIndexed sub engine h = record {
    exact = add_sub-IsExact sub.id sub.query.predicate engine.predicate_index h.exact;
    named = λ id. ground (
      arith,
      lookup-add_sub sub.id sub.query.predicate engine.predicate_index id,
      lookup-insert sub.id id sub engine.subscriptions,
      h.named id,
    );
  }

  pub remove-IsIndexed :
      (id : String) (engine : SubscriptionEngine F R)
      → IsIndexed engine
      → IsIndexed (remove_subscription id engine)
  unfolding remove_subscription
  remove-IsIndexed id engine h = record {
    exact = remove_sub-IsExact id engine.predicate_index h.exact;
    named = λ j. ground (
      arith,
      lookup-remove_sub id j engine.predicate_index,
      lookup-remove id j engine.subscriptions,
      h.named j,
    );
  }

  pub remove_ids-IsIndexed :
      (ids : List String) (engine : SubscriptionEngine F R)
      → IsIndexed engine
      → IsIndexed (remove_ids ids engine)
  unfolding remove_ids
  remove_ids-IsIndexed [] engine h = h
  remove_ids-IsIndexed (id ∷ ids) engine h =
      remove_ids-IsIndexed ids (remove_subscription id engine) (remove-IsIndexed id engine h)

unindex-IsExact :
    (ids : List String) (index : PredicateIndex) → IsExact index → IsExact (unindex ids index)
unfolding unindex
unindex-IsExact [] index h = h
unindex-IsExact (id ∷ ids) index h =
    unindex-IsExact ids (remove_sub id index) (remove_sub-IsExact id index h)

lookup-unindex :
    (ids : List String) (j : String) (index : PredicateIndex)
    → lookup j (unindex ids index).sub_to_cols
      ≡ (if listed j ids then none else lookup j index.sub_to_cols)
unfolding unindex
lookup-unindex [] j index = refl
lookup-unindex (id ∷ ids) j index =
    ground (arith, lookup-unindex ids j (remove_sub id index), lookup-remove_sub id j index)

module _ {V : Type 0} (q : String → Bool) (j : String) where
  lookup-filter_by :
      (m : Assoc String V)
      → lookup j (filter_by (λ e. not (q e.0)) m) ≡ (if q j then none else lookup j m)
  unfolding lookup
  lookup-filter_by [] = ground arith
  lookup-filter_by ((k, v) ∷ m) = ground (arith, lookup-filter_by m, ==_iff k j)

  listed-filter_by :
      (m : Assoc String V)
      → q j ≡ false
      → listed j (map (λ e. e.0) (filter_by (λ e. q e.0) m)) ≡ false
  listed-filter_by [] h = refl
  listed-filter_by ((k, v) ∷ m) h = ground (arith, listed-filter_by m h, ==_iff k j)

  listed-filter_by_gone :
      (m : Assoc String V)
      → q j ≡ true
      → listed j (map (λ e. e.0) (filter_by (λ e. q e.0) m)) ≡ false
      → lookup j m ≡ none
  unfolding lookup
  listed-filter_by_gone [] h e = refl
  listed-filter_by_gone ((k, v) ∷ m) h e = ground (arith, listed-filter_by_gone m h, ==_iff k j)

module _ {F R : Type 0} where
  pub remove_by_prefix-IsIndexed :
      (prefix : String) (engine : SubscriptionEngine F R)
      → IsIndexed engine
      → IsIndexed (remove_by_prefix prefix engine).0
  unfolding remove_by_prefix ids_where
  remove_by_prefix-IsIndexed prefix engine h = record {
    exact = unindex-IsExact _ engine.predicate_index h.exact;
    named = λ j. elim (Bool-cases (starts_with j prefix)) [
      | inl starts ↦ elim (Bool-cases (listed j ids)) [
        | inl dropped ↦
            rw (lookup-unindex ids j engine.predicate_index, kept j, dropped, starts) refl
        | inr absent ↦
            let gone : lookup j engine.subscriptions ≡ none =
              listed-filter_by_gone (λ k. starts_with k prefix) j engine.subscriptions starts
                absent in
            rw (lookup-unindex ids j engine.predicate_index, kept j, absent, starts)
              (h.named j ∙ rw gone refl)
      ]
      | inr other ↦
          let absent : listed j ids ≡ false =
            listed-filter_by (λ k. starts_with k prefix) j engine.subscriptions other in
          rw (lookup-unindex ids j engine.predicate_index, kept j, absent, other) (h.named j)
    ];
  }
    where
      ids : List String
      ids = map (λ e. e.0) (filter_by (λ e. starts_with e.0 prefix) engine.subscriptions)

      kept :
          (j : String)
          → lookup j (filter_by (λ e. not (starts_with e.0 prefix)) engine.subscriptions)
            ≡ (if starts_with j prefix then none else lookup j engine.subscriptions)
      kept j = lookup-filter_by (λ k. starts_with k prefix) j engine.subscriptions

  -- A subscription may be replaced by one with the same query.
  replace-IsIndexed :
      (id : String) (sub sub' : Subscription F R) (engine : SubscriptionEngine F R)
      → IsIndexed engine
      → lookup id engine.subscriptions ≡ some sub
      → sub'.query ≡ sub.query
      → IsIndexed (record engine { subscriptions = insert id sub' engine.subscriptions })
  replace-IsIndexed id sub sub' engine h found same = record {
    exact = h.exact;
    named = λ j. replaced j;
  }
    where
      replaced :
          (j : String)
          → lookup j engine.predicate_index.sub_to_cols
            ≡ wanted (lookup j (insert id sub' engine.subscriptions))
      replaced j = elim (Bool-cases (id == j)) [
        | inl here ↦
            let e : id ≡ j = (==_iff id j).0 here in
            let found' : lookup j engine.subscriptions ≡ some sub =
              subst (λ k. lookup k engine.subscriptions ≡ some sub) e found in
            let columns : wanted (some sub) ≡ wanted (some sub') =
              ap (λ (q : Query F R). some (referenced_columns q.predicate)) (sym same) in
            rw (lookup-insert id j sub' engine.subscriptions, here)
              (h.named j ∙ ap wanted found' ∙ columns)
        | inr other ↦ rw (lookup-insert id j sub' engine.subscriptions, other) (h.named j)
      ]

  pub mark_closed-IsIndexed :
      (id : String) (engine : SubscriptionEngine F R)
      → IsIndexed engine
      → IsIndexed (mark_closed id engine).0
  unfolding mark_closed close
  mark_closed-IsIndexed id engine h = elim (Option-cases (lookup id engine.subscriptions)) [
    | inl gone ↦ rw (gone, mark_closed) h
    | inr (sub, found) ↦
        rw (found, mark_closed) (replace-IsIndexed id sub (close sub) engine h found refl)
  ]

  pub reap_closed-IsIndexed :
      (engine : SubscriptionEngine F R) → IsIndexed engine → IsIndexed (reap_closed engine).0
  unfolding reap_closed
  reap_closed-IsIndexed engine h = remove_ids-IsIndexed _ engine h

module _ {F R : Type 0} (ops : Ops F R) (store_ops : StoreOps F) (store : ColumnStore F) where
  seed_rows-query :
      (rows : List ℕ) (sub : Subscription F R)
      → (seed_rows ops store_ops store rows sub).0.query ≡ sub.query
  unfolding seed_rows seed_row close_too_many
  seed_rows-query [] sub = refl
  seed_rows-query (row ∷ rows) sub =
      ground (
        arith,
        seed_rows-query rows sub,
        seed_rows-query rows (seed_row ops store_ops store row sub),
      )

  prime-query : (sub : Subscription F R) → (prime ops store_ops store sub).query ≡ sub.query
  unfolding prime
  prime-query sub = ground arith

  seed-query : (sub : Subscription F R) → (seed ops store_ops store sub).query ≡ sub.query
  unfolding seed
  seed-query sub =
      let rows = range_from 0 store.row_count in
      let seeded = seed_rows ops store_ops store rows sub in
      elim (Bool-cases seeded.1) [
        | inl complete ↦ rw complete (prime-query seeded.0 ∙ seed_rows-query rows sub)
        | inr stopped ↦ rw stopped (seed_rows-query rows sub)
      ]

  evaluate-query :
      (row sequence : ℕ) (kind : MutationKind) (sub : Subscription F R)
      → (evaluate_subscription ops store_ops store row sequence kind sub).0.query ≡ sub.query
  unfolding evaluate_subscription evaluate_plain evaluate_topn enter stay leave close_too_many
  evaluate-query row sequence kind sub = ground arith

  pub seed_active_set-IsIndexed :
      (id : String) (engine : SubscriptionEngine F R)
      → IsIndexed engine
      → IsIndexed (seed_active_set ops store_ops store id engine)
  unfolding seed_active_set
  seed_active_set-IsIndexed id engine h = elim (Option-cases (lookup id engine.subscriptions)) [
    | inl gone ↦ rw (gone, seed_active_set) h
    | inr (sub, found) ↦
        rw (found, seed_active_set)
          (replace-IsIndexed id sub (seed ops store_ops store sub) engine h found (seed-query sub))
  ]

  evaluate_ids-IsIndexed :
      (row sequence : ℕ) (kind : MutationKind) (ids : List String) (engine : SubscriptionEngine F R)
      → IsIndexed engine
      → IsIndexed (record engine {
        subscriptions =
            (evaluate_ids ops store_ops store row sequence kind ids engine.subscriptions).0;
      })
  unfolding evaluate_ids
  evaluate_ids-IsIndexed row sequence kind [] engine h = h
  evaluate_ids-IsIndexed row sequence kind (id ∷ ids) engine h =
      elim (Option-cases (lookup id engine.subscriptions)) [
        | inl gone ↦ rw (gone, evaluate_ids) (evaluate_ids-IsIndexed row sequence kind ids engine h)
        | inr (sub, found) ↦
            let sub' = (evaluate_subscription ops store_ops store row sequence kind sub).0 in
            rw (found, evaluate_ids)
              (evaluate_ids-IsIndexed row sequence kind ids
                (record engine { subscriptions = insert id sub' engine.subscriptions })
                (replace-IsIndexed id sub sub' engine h found
                  (evaluate-query row sequence kind sub)))
      ]

  pub evaluate-IsIndexed :
      (row sequence : ℕ) (kind : MutationKind) (changed : Option (List ℕ))
      (engine : SubscriptionEngine F R)
      → IsIndexed engine
      → IsIndexed (evaluate_row_kind_indexed ops store_ops store row sequence kind changed engine).0
  unfolding evaluate_row_kind_indexed
  evaluate-IsIndexed row sequence kind changed engine h =
      evaluate_ids-IsIndexed row sequence kind _ engine h
