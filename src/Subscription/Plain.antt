-- ===== src/Subscription/Plain.antt =====
-- One mutation and one subscription without a TOP-N window: the row enters the active set, stays in it, or leaves it
-- (`SubscriptionEngine::evaluate_row_kind_indexed` in crates/cq-core/src/subscription.rs).
use cqserver.Prelude.{
  ℕ, Bool, false, not, ◌&&◌, none, some, List, [], ◌∷◌, leb, Assoc, lookup, insert, remove, length,
  if◌then◌else◌, number_eq,
}
use cqserver.Predicate.Values.{Ops, Value}
use cqserver.Predicate.Evaluation.{matches}
use cqserver.Conflation.Conflator.{Delta, DeltaType, added, updated, removed, out_of_focus}
use cqserver.Subscription.Rows.{StoreOps, ColumnStore, JsonMap, project_row}
use cqserver.Subscription.RowSet.{contains, add_row, remove_row}
use cqserver.Subscription.State.{Subscription, MutationKind, upsert, delete, close_too_many}
use cqserver.Subscription.Sparse.{
  effective_projection, snapshot_columns, diff_update, key_only_payload,
}

-- The active set has as many rows as the cap allows.
abbrev pub at_cap : {F R : Type 0} → Subscription F R → Bool
at_cap sub = elim sub.max_active [ none ↦ false | some c ↦ leb c (length sub.active_set) ]

module _ {F R : Type 0} (ops : Ops F R) (store_ops : StoreOps F) where
  module _ (store : ColumnStore F) (row sequence : ℕ) where
    abbrev pub emit : Subscription F R → DeltaType → JsonMap F → Delta (JsonMap F)
    emit sub kind body = record {
      subscription_id = sub.id;
      delta_type = kind;
      row = row;
      sequence = sequence;
      row_data = body;
    }

    abbrev pub full_body : Subscription F R → JsonMap F
    full_body sub = project_row ops store_ops sub.query store row

    -- The row matches and was not active.
    unfoldable pub enter : Subscription F R → Subscription F R × List (Delta (JsonMap F))
    enter sub = if at_cap sub then (close_too_many sub, []) else (
      record sub {
        active_set = add_row row sub.active_set;
        last_snapshot =
            if sub.sparse
            then insert row
                (snapshot_columns store row (effective_projection sub.query store.column_count))
                sub.last_snapshot
            else sub.last_snapshot;
      },
      emit sub added (full_body sub) ∷ [],
    )

    -- The row matches and was active.
    unfoldable pub stay : Subscription F R → Subscription F R × List (Delta (JsonMap F))
    stay sub =
        let proj = effective_projection sub.query store.column_count in
        let diff =
          diff_update ops store_ops store row sub.key_cols (lookup row sub.last_snapshot) proj in
        if sub.sparse
        then (
          record sub { last_snapshot = insert row diff.new_snapshot sub.last_snapshot },
          (if diff.any_changed then emit sub updated diff.payload ∷ [] else []),
        )
        else (sub, emit sub updated (full_body sub) ∷ [])

    -- What a row that leaves is sent with.
    unfoldable pub leave_body : MutationKind → Subscription F R → JsonMap F
    leave_body kind sub =
        let prev : Assoc ℕ (Value F) = elim (lookup row sub.last_snapshot) [
          | none ↦ []
          | some p ↦ p
        ] in
        if sub.sparse
        then key_only_payload ops store_ops store prev sub.key_cols []
        else elim kind [ delete ↦ [] | upsert ↦ full_body sub ]

    -- The row was active and does not match.
    unfoldable pub leave :
        MutationKind → Subscription F R → Subscription F R × List (Delta (JsonMap F))
    leave kind sub = (
      record sub {
        active_set = remove_row row sub.active_set;
        last_snapshot = if sub.sparse then remove row sub.last_snapshot else sub.last_snapshot;
      },
      emit sub (elim kind [ delete ↦ removed | upsert ↦ out_of_focus ]) (leave_body kind sub) ∷ [],
    )

    -- A delete matches no predicate.
    unfoldable pub matches_now : MutationKind → Subscription F R → Bool
    matches_now delete sub = false
    matches_now upsert sub = matches ops (store.rows row) sub.query.predicate

    unfoldable pub evaluate_plain :
        MutationKind → Subscription F R → Subscription F R × List (Delta (JsonMap F))
    evaluate_plain kind sub =
        let now = matches_now kind sub in
        let was_active = contains row sub.active_set in
        if now && not was_active
        then enter sub
        else if now && was_active
        then stay sub
        else if not now && was_active
        then leave kind sub
        else (sub, [])
