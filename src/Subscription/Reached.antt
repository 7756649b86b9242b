-- ===== src/Subscription/Reached.antt =====
-- Every engine that the operations lead to keeps its index true to the registered subscriptions
-- (crates/cq-core/src/subscription.rs).
use cqserver.Prelude.{ℕ, String, ◌≡◌, refl, Option, List, [], lookup, string_eq}
use cqserver.Predicate.Values.{Ops}
use cqserver.Subscription.Rows.{StoreOps, ColumnStore}
use cqserver.Subscription.State.{Subscription, MutationKind}
use cqserver.Subscription.Index.{empty_index}
use cqserver.Subscription.Routing.{empty-IsExact}
use cqserver.Subscription.Engine.{
  SubscriptionEngine, add, remove_subscription, remove_by_prefix, mark_closed, reap_closed,
  seed_active_set, evaluate_row_kind_indexed,
}
use cqserver.Subscription.Registry.{
  wanted, IsIndexed, add-IsIndexed, remove-IsIndexed, remove_by_prefix-IsIndexed,
  mark_closed-IsIndexed, reap_closed-IsIndexed, seed_active_set-IsIndexed, evaluate-IsIndexed,
}

empty_named :
    (F R : Type 0) (id : String)
    → lookup id empty_index.sub_to_cols ≡ wanted (lookup {V = Subscription F R} id [])
unfolding lookup
empty_named F R id = refl

module _ {F R : Type 0} (ops : Ops F R) (store_ops : StoreOps F) where
  -- The engines that its operations lead to from the empty one.
  pub data Reached : SubscriptionEngine F R → Type 0 where
    start : Reached (record { subscriptions = []; predicate_index = empty_index })
    adds :
        {engine : SubscriptionEngine F R} (sub : Subscription F R)
        → Reached engine
        → Reached (add sub engine)
    removes :
        {engine : SubscriptionEngine F R} (id : String)
        → Reached engine
        → Reached (remove_subscription id engine)
    removes_prefix :
        {engine : SubscriptionEngine F R} (prefix : String)
        → Reached engine
        → Reached (remove_by_prefix prefix engine).0
    marks :
        {engine : SubscriptionEngine F R} (id : String)
        → Reached engine
        → Reached (mark_closed id engine).0
    reaps : {engine : SubscriptionEngine F R} → Reached engine → Reached (reap_closed engine).0
    seeds :
        {engine : SubscriptionEngine F R} (store : ColumnStore F) (id : String)
        → Reached engine
        → Reached (seed_active_set ops store_ops store id engine)
    evaluates :
        {engine : SubscriptionEngine F R} (store : ColumnStore F) (row sequence : ℕ)
        (kind : MutationKind) (changed : Option (List ℕ))
        → Reached engine
        → Reached (evaluate_row_kind_indexed ops store_ops store row sequence kind changed engine).0

  -- In every engine that is reached from the empty one by adding, removing (one, or all with a prefix),
  -- closing, reaping and seeding subscriptions and by evaluating mutations, the maps of the predicate index
  -- agree with one another, and it names exactly the registered subscriptions, each with the
  -- columns of its predicate.
  pub Reached-IsIndexed : {engine : SubscriptionEngine F R} → Reached engine → IsIndexed engine
  Reached-IsIndexed start = record { exact = empty-IsExact; named = λ id. empty_named F R id }
  Reached-IsIndexed (adds {engine = engine} sub r) = add-IsIndexed sub engine (Reached-IsIndexed r)
  Reached-IsIndexed (removes {engine = engine} id r) =
      remove-IsIndexed id engine (Reached-IsIndexed r)
  Reached-IsIndexed (removes_prefix {engine = engine} prefix r) =
      remove_by_prefix-IsIndexed prefix engine (Reached-IsIndexed r)
  Reached-IsIndexed (marks {engine = engine} id r) =
      mark_closed-IsIndexed id engine (Reached-IsIndexed r)
  Reached-IsIndexed (reaps {engine = engine} r) = reap_closed-IsIndexed engine (Reached-IsIndexed r)
  Reached-IsIndexed (seeds {engine = engine} store id r) =
      seed_active_set-IsIndexed ops store_ops store id engine (Reached-IsIndexed r)
  Reached-IsIndexed (evaluates {engine = engine} store row sequence kind changed r) =
      evaluate-IsIndexed ops store_ops store row sequence kind changed engine (Reached-IsIndexed r)
