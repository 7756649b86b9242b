-- ===== src/Subscription/Mirror.antt =====
-- A consumer that applies the deltas of a subscription holds what the server holds: the projection of
-- each active row (crates/cq-core/src/subscription.rs).
use cqserver.Prelude.{
  ℕ, ◌≡◌, refl, ◌∙◌, subst, true, false, none, some, List, [], ◌∷◌, nat_eq, nat_eq_iff, arith,
  if◌then◌else◌, Bool-cases, List-cases, inl, inr, number_eq, string_eq,
}
use cqserver.Predicate.Values.{Ops, Row}
use cqserver.Conflation.View.{View, apply_all}
use cqserver.Subscription.Rows.{
  StoreOps, ColumnStore, JsonMap, Query, fill, get_row_map, get_row_map_projected, project_row,
}
use cqserver.Subscription.RowSet.{contains, contains-add_row, contains-remove_row}
use cqserver.Subscription.State.{Subscription, MutationKind, close_too_many}
use cqserver.Subscription.Plain.{at_cap, enter, stay, leave, matches_now, evaluate_plain}

-- The store after a row was written.
abbrev pub write : {F : Type 0} → ℕ → Row F → ColumnStore F → ColumnStore F
write row cells store = record store { rows = λ r. if nat_eq row r then cells else store.rows r }

module _ {F R : Type 0} (ops : Ops F R) (store_ops : StoreOps F) where
  fill-write :
      (store : ColumnStore F) (row : ℕ) (cells : Row F) (r : ℕ) (cols : List ℕ)
      (entries : JsonMap F)
      → nat_eq row r ≡ false
      → fill ops store_ops (write row cells store) r cols entries
        ≡ fill ops store_ops store r cols entries
  unfolding fill
  fill-write store row cells r [] entries h = refl
  fill-write store row cells r (c ∷ cols) entries h = rw h (fill-write store row cells r cols _ h)

  -- Only the written row is projected anew.
  pub project_row-write :
      (query : Query F R) (store : ColumnStore F) (row : ℕ) (cells : Row F) (r : ℕ)
      → nat_eq row r ≡ false
      → project_row ops store_ops query (write row cells store) r
        ≡ project_row ops store_ops query store r
  unfolding project_row get_row_map get_row_map_projected
  project_row-write query store row cells r h = elim (List-cases query.projection) [
    | inl all ↦ rw (all, project_row) (fill-write store row cells r _ [] h)
    | inr (c, cs, some_columns) ↦
        rw (some_columns, project_row) (fill-write store row cells r (c ∷ cs) [] h)
  ]

  -- The consumer's rows are the active ones, each as it is projected from the store.
  abbrev pub Mirrors : Subscription F R → ColumnStore F → View (JsonMap F) → Type 0
  Mirrors sub store view =
      (r : ℕ)
      → view r ≡ (
          if contains r sub.active_set
          then some (project_row ops store_ops sub.query store r)
          else none)

  -- No sparse deltas and no TOP-N window.
  abbrev pub IsPlain : Subscription F R → Type 0
  IsPlain sub = (sub.sparse ≡ false) × (sub.topn ≡ none)

  enter-closed :
      (store : ColumnStore F) (row sequence : ℕ) (sub : Subscription F R)
      → at_cap sub ≡ true
      → (enter ops store_ops store row sequence sub).0.closed ≡ false
      → ⊥
  unfolding enter close_too_many
  enter-closed store row sequence sub full h = ground arith

  module _ (store : ColumnStore F) (row : ℕ) (cells : Row F) (sequence : ℕ)
      (kind : MutationKind) where
    abbrev after : ColumnStore F
    after = write row cells store

    module _ (sub : Subscription F R) (view : View (JsonMap F)) (plain : IsPlain sub)
        (same : Mirrors sub store view) (r : ℕ) where
      away :
          nat_eq row r ≡ false
          → view r ≡ (
              if contains r sub.active_set
              then some (project_row ops store_ops sub.query (write row cells store) r)
              else none)
      away h = ground (arith, same r, project_row-write sub.query store row cells r h)

      enter-Mirrors :
          at_cap sub ≡ false
          → let (sub', ds) = enter ops store_ops (write row cells store) row sequence sub in
            apply_all view ds r ≡ (
              if contains r sub'.active_set
              then some (project_row ops store_ops sub'.query (write row cells store) r)
              else none)
      unfolding enter apply_all
      enter-Mirrors room = rw room (ground (arith, away, contains-add_row row r sub.active_set))

      stay-Mirrors :
          contains row sub.active_set ≡ true
          → let (sub', ds) = stay ops store_ops (write row cells store) row sequence sub in
            apply_all view ds r ≡ (
              if contains r sub'.active_set
              then some (project_row ops store_ops sub'.query (write row cells store) r)
              else none)
      unfolding stay apply_all
      stay-Mirrors was = rw (plain.0) (ground (arith, away))

      leave-Mirrors :
          let (sub', ds) = leave ops store_ops (write row cells store) row sequence kind sub in
          apply_all view ds r ≡ (
            if contains r sub'.active_set
            then some (project_row ops store_ops sub'.query (write row cells store) r)
            else none)
      unfolding leave apply_all
      leave-Mirrors = ground (arith, away, contains-remove_row row r sub.active_set)

      idle-Mirrors :
          contains row sub.active_set ≡ false
          → view r ≡ (
              if contains r sub.active_set
              then some (project_row ops store_ops sub.query (write row cells store) r)
              else none)
      idle-Mirrors was = elim (Bool-cases (nat_eq row r)) [
        | inl here ↦
            let e : row ≡ r = (nat_eq_iff row r).0 here in
            let gone : contains r sub.active_set ≡ false =
              subst (λ x. contains x sub.active_set ≡ false) e was in
            rw gone (same r ∙ rw gone refl)
        | inr other ↦ away other
      ]

    -- One event: the consumer is right unless the cap closes the subscription.
    pub evaluate_plain-Mirrors :
        (sub : Subscription F R) (view : View (JsonMap F))
        → IsPlain sub
        → Mirrors sub store view
        → let (sub', ds) =
            evaluate_plain ops store_ops (write row cells store) row sequence kind sub in
          sub'.closed ≡ false → Mirrors sub' (write row cells store) (apply_all view ds)
    unfolding evaluate_plain apply_all
    evaluate_plain-Mirrors sub view plain same =
        elim (Bool-cases
          (matches_now ops store_ops (write row cells store) row sequence kind sub)) [
            | inl now ↦ elim (Bool-cases (contains row sub.active_set)) [
              | inl was ↦ rw (now, was) (λ open_still r. stay-Mirrors sub view plain same r was)
              | inr was ↦ elim (Bool-cases (at_cap sub)) [
                | inl full ↦
                    rw (now, was)
                      (λ open_still. absurd (enter-closed _ row sequence sub full open_still))
                | inr room ↦
                    rw (now, was) (λ open_still r. enter-Mirrors sub view plain same r room)
              ]
            ]
            | inr now ↦ elim (Bool-cases (contains row sub.active_set)) [
              | inl was ↦ rw (now, was) (λ open_still r. leave-Mirrors sub view plain same r)
              | inr was ↦ rw (now, was) (λ open_still r. idle-Mirrors sub view plain same r was)
            ]
          ]

    pub evaluate_plain-IsPlain :
        (sub : Subscription F R)
        → IsPlain sub
        → IsPlain (evaluate_plain ops store_ops (write row cells store) row sequence kind sub).0
    unfolding evaluate_plain enter stay leave close_too_many
    evaluate_plain-IsPlain sub plain = ground arith
