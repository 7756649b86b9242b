-- ===== src/Subscription/Skipped.antt =====
-- What the routing by changed columns leaves out (`evaluate_row_kind_indexed` in
-- crates/cq-core/src/subscription.rs, with crates/cq-core/src/predicate_index.rs).
use cqserver.Prelude.{
  ◌≤◌, none, ◌++◌, remove, lookup-remove, ◌==◌, ==_iff, ℕ, String, ◌≡◌, refl, ◌∙◌, sym, ap, false,
  ◌||◌, some, List, [], ◌∷◌, Assoc, lookup, insert, lookup-insert, any, All, All-weaken, nat_eq_iff,
  arith, if◌then◌else◌, string_eq, Option-cases, inl, inr,
}
use cqserver.Predicate.Values.{Ops, Row}
use cqserver.Predicate.Compiled.{referenced_columns}
use cqserver.Predicate.Evaluation.{matches}
use cqserver.Predicate.Operands.{Agrees}
use cqserver.Predicate.Frame.{referenced_columns-frame}
use cqserver.Conflation.Conflator.{updated}
use cqserver.Subscription.Rows.{StoreOps, ColumnStore}
use cqserver.Subscription.RowSet.{contains}
use cqserver.Subscription.State.{Subscription, MutationKind, upsert}
use cqserver.Subscription.Plain.{matches_now, stay, evaluate_plain, emit, full_body}
use cqserver.Subscription.Index.{affected}
use cqserver.Subscription.Listed.{listed}
use cqserver.Subscription.Routing.{touched, affected_lem}
use cqserver.Subscription.Registry.{IsIndexed, wanted}
use cqserver.Subscription.Mirror.{write}
use cqserver.Subscription.History.{evaluate_open}
use cqserver.Subscription.Engine.{
  SubscriptionEngine, evaluate_subscription, evaluate_ids, evaluate_row_kind_indexed,
}

any-or :
    (c : ℕ) (cs changed : List ℕ)
    → any (λ d. contains d (c ∷ cs)) changed
      ≡ (contains c changed || any (λ d. contains d cs) changed)
any-or c cs [] = refl
any-or c cs (d ∷ changed) = ground (arith, any-or c cs changed)

disjoint :
    (cs changed : List ℕ)
    → any (λ d. contains d cs) changed ≡ false
    → All (λ c. contains c changed ≡ false) cs
disjoint [] changed h = tt
disjoint (c ∷ cs) changed h =
    (ground (arith, any-or c cs changed), disjoint cs changed (ground (arith, any-or c cs changed)))

untouched :
    (cs changed : List ℕ)
    → touched changed (some cs) ≡ false
    → All (λ c. contains c changed ≡ false) cs
untouched [] changed h = cc
untouched (c ∷ cs) changed h = disjoint (c ∷ cs) changed h

module _ {F R : Type 0} (ops : Ops F R) (engine : SubscriptionEngine F R) (id : String)
    (sub : Subscription F R) (changed : List ℕ) where
  -- A change of columns for which the index does not name a subscription leaves its predicate as it was.
  skipped-matches :
      (before after : Row F)
      → IsIndexed engine
      → lookup id engine.subscriptions ≡ some sub
      → listed id (affected (some changed) engine.predicate_index) ≡ false
      → ((c : ℕ) → contains c changed ≡ false → before c ≡ after c)
      → matches ops before sub.query.predicate ≡ matches ops after sub.query.predicate
  skipped-matches before after h found away agree =
      let cols = referenced_columns sub.query.predicate in
      let named : lookup id engine.predicate_index.sub_to_cols ≡ some cols =
        h.named id ∙ ap wanted found in
      let clear : touched changed (some cols) ≡ false =
        ap (touched changed) (sym named)
        ∙ sym (affected_lem id engine.predicate_index changed h.exact)
        ∙ away in
      (referenced_columns-frame ops before after sub.query.predicate (
        All-weaken (λ c. contains c changed ≡ false) (Agrees ops before after) agree cols
          (untouched cols changed clear))).1

module _ {F R : Type 0} (ops : Ops F R) (store_ops : StoreOps F) (store : ColumnStore F)
    (row sequence : ℕ) where
  -- The pass over other subscriptions leaves a subscription alone.
  lookup-evaluate_ids :
      (kind : MutationKind) (id : String) (ids : List String)
      (subs : Assoc String (Subscription F R))
      → listed id ids ≡ false
      → lookup id (evaluate_ids ops store_ops store row sequence kind ids subs).0 ≡ lookup id subs
  unfolding evaluate_ids
  lookup-evaluate_ids kind id [] subs h = refl
  lookup-evaluate_ids kind id (i ∷ is) subs h = elim (Option-cases (lookup i subs)) [
    | inl gone ↦ rw (gone, evaluate_ids) (lookup-evaluate_ids kind id is subs (ground arith))
    | inr (sub, found) ↦
        let sub' = (evaluate_subscription ops store_ops store row sequence kind sub).0 in
        let later = lookup-evaluate_ids kind id is (insert i sub' subs) (ground arith) in
        rw (found, evaluate_ids) (ground (arith, later, lookup-insert i id sub' subs))
  ]

  -- Its deltas are those that it sends with a registry that differs there.
  evaluate_ids-apart :
      (kind : MutationKind) (id : String) (ids : List String)
      (subs subs' : Assoc String (Subscription F R))
      → listed id ids ≡ false
      → ((j : String) → (id == j) ≡ false → lookup j subs ≡ lookup j subs')
      → (evaluate_ids ops store_ops store row sequence kind ids subs).1
        ≡ (evaluate_ids ops store_ops store row sequence kind ids subs').1
  unfolding evaluate_ids
  evaluate_ids-apart kind id [] subs subs' h same = refl
  evaluate_ids-apart kind id (i ∷ is) subs subs' h same =
      let other : (id == i) ≡ false = ground (arith, h, ==_iff id i, ==_iff i id) in
      let rest : listed id is ≡ false = ground (arith, h) in
      elim (Option-cases (lookup i subs)) [
        | inl gone ↦
            let gone' : lookup i subs' ≡ none = sym (same i other) ∙ gone in
            rw (gone, evaluate_ids, gone') (evaluate_ids-apart kind id is subs subs' rest same)
        | inr (sub, found) ↦
            let found' : lookup i subs' ≡ some sub = sym (same i other) ∙ found in
            let p = evaluate_subscription ops store_ops store row sequence kind sub in
            let later =
              evaluate_ids-apart kind id is (insert i p.0 subs) (insert i p.0 subs') rest (λ j away.
                lookup-insert i j p.0 subs
                ∙ ap (λ v. if i == j then some p.0 else v) (same j away)
                ∙ sym (lookup-insert i j p.0 subs')) in
            rw (found, evaluate_ids, found') (ap (λ ds. p.1 ++ ds) later)
      ]

  -- An upsert that leaves the match as it was leaves the active set as it was, and sends an update if the
  -- row is active.
  evaluate_plain-same :
      (sub : Subscription F R)
      → sub.sparse ≡ false
      → matches ops (store.rows row) sub.query.predicate ≡ contains row sub.active_set
      → evaluate_plain ops store_ops store row sequence upsert sub ≡ (
        sub,
        (if contains row sub.active_set
            then emit ops store_ops store row sequence sub updated
                (full_body ops store_ops store row sequence sub)
              ∷ []
            else []),
      )
  unfolding evaluate_plain matches_now stay
  evaluate_plain-same sub whole same = ground (arith, same)

module _ {F R : Type 0} (ops : Ops F R) (store_ops : StoreOps F) where
  -- An upsert of a row is routed by its changed columns, and the index does not name a subscription
  -- for them. The engine's index is true to its subscriptions, the row has changed in those columns
  -- only, and the subscription, which is open, without a TOP-N window, started before the event and
  -- has whole rows for deltas, had the row active exactly if it matched. Then the pass leaves the subscription as it is and sends the
  -- deltas that it would send if the subscription were not registered, so none for it. Evaluating it
  -- would have left it so too, its active set included; but for a row that is active it would have sent an update
  -- with the new row.
  pub skipped_lem :
      (engine : SubscriptionEngine F R) (id : String) (sub : Subscription F R) (changed : List ℕ)
      (store : ColumnStore F) (row sequence : ℕ) (cells : Row F)
      → IsIndexed engine
      → lookup id engine.subscriptions ≡ some sub
      → listed id (affected (some changed) engine.predicate_index) ≡ false
      → ((c : ℕ) → contains c changed ≡ false → store.rows row c ≡ cells c)
      → sub.closed ≡ false
      → sub.topn ≡ none
      → sub.live_start_sequence ≤ sequence
      → sub.sparse ≡ false
      → matches ops (store.rows row) sub.query.predicate ≡ contains row sub.active_set
      → let after = write row cells store in
        let pass =
          evaluate_row_kind_indexed ops store_ops after row sequence upsert (some changed) in
        (lookup id (pass engine).0.subscriptions ≡ some sub)
        × ((pass engine).1
            ≡ (pass (record engine { subscriptions = remove id engine.subscriptions })).1)
        × (evaluate_subscription ops store_ops after row sequence upsert sub ≡ (
          sub,
          (if contains row sub.active_set
              then emit ops store_ops after row sequence sub updated
                  (full_body ops store_ops after row sequence sub)
                ∷ []
              else []),
        ))
  unfolding evaluate_row_kind_indexed
  skipped_lem engine id sub changed store row sequence cells h found away agree still plain fresh
        whole active =
      let after = write row cells store in
      let now : matches ops (store.rows row) sub.query.predicate
          ≡ matches ops cells sub.query.predicate =
        skipped-matches ops engine id sub changed (store.rows row) cells h found away agree in
      let written : after.rows row ≡ cells = rw ((nat_eq_iff row row).1 refl) refl in
      (
        lookup-evaluate_ids ops store_ops after row sequence upsert id _ engine.subscriptions away
            ∙ found,
        evaluate_ids-apart ops store_ops after row sequence upsert id _ engine.subscriptions
            (remove id engine.subscriptions) away
            (λ j other. sym (lookup-remove id j engine.subscriptions ∙ rw other refl)),
        evaluate_open ops store_ops after row sequence upsert sub still fresh plain
            ∙ evaluate_plain-same ops store_ops after row sequence sub whole
                (ap (λ r. matches ops r sub.query.predicate) written ∙ sym now ∙ active),
      )
