-- ===== src/Subscription/History.antt =====
-- A subscription over a history of mutations, each evaluated when it has been written
-- (crates/cq-core/src/subscription.rs).
use cqserver.Prelude.{
  ◌≤◌, ◌≡◌, refl, ap, ◌∙◌, subst, sym, Bool, true, false, none, List, [], ◌∷◌, ◌++◌, All, arith,
  Bool-cases, inl, inr, ℕ,
}
use cqserver.Predicate.Values.{Ops, Row}
use cqserver.Conflation.Conflator.{Delta}
use cqserver.Conflation.View.{View, apply_all, apply_all-append}
use cqserver.Subscription.Rows.{StoreOps, ColumnStore, JsonMap}
use cqserver.Subscription.State.{Subscription, MutationKind, close_too_many}
use cqserver.Subscription.Plain.{enter, stay, leave, evaluate_plain}
use cqserver.Subscription.Engine.{evaluate_subscription}
use cqserver.Subscription.Mirror.{
  write, Mirrors, IsPlain, evaluate_plain-Mirrors, evaluate_plain-IsPlain,
}

-- A mutation: the row, what it holds afterwards, and what the event says of it.
pub record Mutation (F : Type 0) : Type 0 where
  pub row : ℕ
  pub cells : Row F
  pub sequence : ℕ
  pub kind : MutationKind

pub open_shut : (b : Bool) → b ≡ false → b ≡ true → ⊥
open_shut b h k = cc

module _ {F R : Type 0} (ops : Ops F R) (store_ops : StoreOps F) where
  -- The subscription and the store at the end, and the deltas that were sent.
  unfoldable pub follow :
      List (Mutation F)
      → Subscription F R
      → ColumnStore F
      → Subscription F R × ColumnStore F × List (Delta (JsonMap F))
  follow [] sub store = (sub, store, [])
  follow (e ∷ es) sub store =
      let after = write e.row e.cells store in
      let (sub', deltas) = evaluate_subscription ops store_ops after e.row e.sequence e.kind sub in
      let (last, final, more) = follow es sub' after in (last, final, deltas ++ more)

  pub evaluate_plain-live :
      (store : ColumnStore F) (row sequence : ℕ) (kind : MutationKind) (sub : Subscription F R)
      → (evaluate_plain ops store_ops store row sequence kind sub).0.live_start_sequence
        ≡ sub.live_start_sequence
  unfolding evaluate_plain enter stay leave close_too_many
  evaluate_plain-live store row sequence kind sub = ground arith

  pub evaluate_closed :
      (store : ColumnStore F) (row sequence : ℕ) (kind : MutationKind) (sub : Subscription F R)
      → sub.closed ≡ true
      → evaluate_subscription ops store_ops store row sequence kind sub ≡ (sub, [])
  unfolding evaluate_subscription
  evaluate_closed store row sequence kind sub h = ground arith

  pub evaluate_open :
      (store : ColumnStore F) (row sequence : ℕ) (kind : MutationKind) (sub : Subscription F R)
      → sub.closed ≡ false
      → sub.live_start_sequence ≤ sequence
      → sub.topn ≡ none
      → evaluate_subscription ops store_ops store row sequence kind sub
        ≡ evaluate_plain ops store_ops store row sequence kind sub
  unfolding evaluate_subscription
  evaluate_open store row sequence kind sub h fresh plain = ground arith

  -- A closed subscription stays as it is.
  pub follow-shut :
      (es : List (Mutation F)) (sub : Subscription F R) (store : ColumnStore F)
      → sub.closed ≡ true
      → (follow es sub store).0 ≡ sub
  unfolding follow
  follow-shut [] sub store h = refl
  follow-shut (e ∷ es) sub store h =
      let after = write e.row e.cells store in
      let same = evaluate_closed after e.row e.sequence e.kind sub h in
      subst (λ (p : Subscription F R × List (Delta (JsonMap F))). (follow es p.0 after).0 ≡ sub)
        (sym same) (follow-shut es sub after h)

  pub follow-closed :
      (es : List (Mutation F)) (sub : Subscription F R) (store : ColumnStore F)
      → sub.closed ≡ true
      → (follow es sub store).0.closed ≡ true
  follow-closed es sub store h =
      ap (λ (s : Subscription F R). s.closed) (follow-shut es sub store h) ∙ h

  pub still_open :
      (es : List (Mutation F)) (sub : Subscription F R) (store : ColumnStore F)
      → (follow es sub store).0.closed ≡ false
      → sub.closed ≡ false
  still_open es sub store still = elim (Bool-cases sub.closed) [
    | inl shut ↦ absurd (open_shut _ still (follow-closed es sub store shut))
    | inr not_shut ↦ not_shut
  ]

  -- A consumer that holds the projections of the active rows of a subscription (one that is open,
  -- with whole rows for deltas and no TOP-N window) holds, once it has applied the deltas of any list
  -- of mutations that are not older than the subscription's start, the projections of the rows that
  -- are active then, unless the subscription has been closed for its cap.
  pub follow-Mirrors :
      (es : List (Mutation F)) (sub : Subscription F R) (store : ColumnStore F)
      (view : View (JsonMap F))
      → IsPlain ops store_ops sub
      → All (λ e. sub.live_start_sequence ≤ e.sequence) es
      → Mirrors ops store_ops sub store view
      → let (last, final, deltas) = follow es sub store in
        last.closed ≡ false → Mirrors ops store_ops last final (apply_all view deltas)
  unfolding follow apply_all
  follow-Mirrors [] sub store view plain fresh same = λ still. same
  follow-Mirrors (e ∷ es) sub store view plain fresh same = elim (Bool-cases sub.closed) [
    | inl shut ↦ λ still. absurd (open_shut _ still (follow-closed (e ∷ es) sub store shut))
    | inr not_shut ↦
        let after : ColumnStore F = write e.row e.cells store in
        let p : Subscription F R × List (Delta (JsonMap F)) =
          evaluate_plain ops store_ops after e.row e.sequence e.kind sub in
        let plain' =
          evaluate_plain-IsPlain ops store_ops store e.row e.cells e.sequence e.kind sub plain in
        let fresh' : All (λ (m : Mutation F). p.0.live_start_sequence ≤ m.sequence) es =
          subst (λ n. All (λ (m : Mutation F). n ≤ m.sequence) es)
            (sym (evaluate_plain-live after e.row e.sequence e.kind sub)) fresh.1 in
        let right =
          evaluate_plain-Mirrors ops store_ops store e.row e.cells e.sequence e.kind sub view plain
            same in
        subst
          (λ (q : Subscription F R × List (Delta (JsonMap F))).
            (follow es q.0 after).0.closed ≡ false
            → Mirrors ops store_ops (follow es q.0 after).0 (follow es q.0 after).1
                (apply_all view (q.1 ++ (follow es q.0 after).2)))
          (sym (evaluate_open after e.row e.sequence e.kind sub not_shut fresh.0 plain.1))
          (λ still.
            subst (λ v. Mirrors ops store_ops (follow es p.0 after).0 (follow es p.0 after).1 v)
              (sym (apply_all-append view p.1 (follow es p.0 after).2))
              (follow-Mirrors es p.0 after (apply_all view p.1) plain' fresh'
                (right (still_open es p.0 after still)) still))
  ]
