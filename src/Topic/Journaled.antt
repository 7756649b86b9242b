-- ===== src/Topic/Journaled.antt =====
-- Publications and deletions of a row write entries that do the same when they are replayed
-- (crates/cq-core/src/topic.rs).
use cqserver.Prelude.{
  ℕ, ◌+◌, ◌≡◌, ◌∙◌, sym, ap, subst, Bool, true, Option, none, some, List, [], ◌∷◌, ◌++◌, lookup,
  arith, string_eq, list_eq, number_eq, inl, inr, ◌⊎◌,
}
use cqserver.Predicate.Values.{Ops, Str, Value}
use cqserver.Subscription.Rows.{JsonMap}
use cqserver.Topic.Values.{TextOps}
use cqserver.Topic.State.{
  StoreState, Payload, json, json_delta, tombstone, Entry, Topic, compute_key_from_map,
  commit_values_locked, free,
}
use cqserver.Topic.Merging.{merged_values, map_values, changed_columns}
use cqserver.Topic.Publishing.{
  delta_payload, append_with_origin, dispatch, write_store_with_changed, upsert_map,
  delta_upsert_map, delta_upsert_keyed, delete_row, or_empty,
}
use cqserver.Topic.Replay.{replay_entry, recover}
use cqserver.Topic.Sparse.{delta_upsert_map-cases}
use cqserver.Topic.Rebuilding.{
  untimed, commit-same, IsRecoverable, journal-IsRecoverable, replay_upsert_lem, replay_delete_lem,
  free-same, merge_delta-same, replay_delta_lem,
}

module _ {F R : Type 0} (ops : Ops F R) (text : TextOps F) where
  module _ (appends : ℕ → Bool) (journaled : (n : ℕ) → appends n ≡ true) (later : ℕ)
      (start : Topic F) where
    write_store_lem :
        (now : ℕ) (values : List (Value F)) (key : Str) (payload : Payload F)
        (changed : Option (List ℕ)) (t : Topic F) (entries : List (Entry F))
        → t.txlog ≡ some entries
        → let t' = (write_store_with_changed ops text appends now values key payload changed t).0 in
          (t'.txlog
            ≡ some (
                entries
                ++ record {
                  sequence = t.next_sequence + 1;
                  key = key;
                  origin = t.origin_id;
                  payload = payload;
                }
                  ∷ []))
          × ((t'.columns ≡ t.columns)
              × (t'.key_fields ≡ t.key_fields)
              × (t'.origin_id ≡ t.origin_id)
              × (t'.state ≡ (commit_values_locked ops text now values t.state).0)
              × (t'.next_sequence ≡ t.next_sequence + 1))
    unfolding write_store_with_changed append_with_origin dispatch
    write_store_lem now values key payload changed t entries log =
        ground (arith, journaled (t.next_sequence + 1))

    pub upsert_map-IsRecoverable :
        (now : ℕ) (fields : JsonMap F) (t : Topic F)
        → IsRecoverable ops text later start t
        → IsRecoverable ops text later start (upsert_map ops text appends now fields t).0
    unfolding upsert_map replay_entry
    upsert_map-IsRecoverable now fields t h =
        let r : Topic F = recover ops text later h.entries start in
        let values = map_values ops text t.columns fields in
        let key = or_empty ops text appends (compute_key_from_map ops text t.key_fields fields) in
        let (logged, kept) = write_store_lem now values key (json fields) none t h.entries h.log in
        let same : untimed (commit_values_locked ops text now values t.state).0
            ≡ untimed
                (commit_values_locked ops text later (map_values ops text r.columns fields)
                  r.state).0 =
          commit-same ops text now later values t.state r.state h.rebuilt.state
          ∙ ap
              (λ cs.
                untimed
                  (commit_values_locked ops text later (map_values ops text cs fields) r.state).0)
              (sym h.rebuilt.columns) in
        journal-IsRecoverable ops text later start t h _ _ _ _ same
          (replay_upsert_lem ops text later t r fields h.rebuilt) logged kept

    delete_row_lem :
        (key : Str) (row : ℕ) (t : Topic F) (entries : List (Entry F))
        → t.txlog ≡ some entries
        → let t' = (delete_row ops text appends key row t).0 in
          (t'.txlog
            ≡ some (
                entries
                ++ record {
                  sequence = t.next_sequence + 1;
                  key = key;
                  origin = t.origin_id;
                  payload = tombstone;
                }
                  ∷ []))
          × ((t'.columns ≡ t.columns)
              × (t'.key_fields ≡ t.key_fields)
              × (t'.origin_id ≡ t.origin_id)
              × (t'.state ≡ free ops text key row t.state)
              × (t'.next_sequence ≡ t.next_sequence + 1))
    unfolding delete_row append_with_origin dispatch
    delete_row_lem key row t entries log = ground (arith, journaled (t.next_sequence + 1))

    pub delete_row-IsRecoverable :
        (key : Str) (row : ℕ) (t : Topic F)
        → lookup key t.state.key_to_row ≡ some row
        → IsRecoverable ops text later start t
        → IsRecoverable ops text later start (delete_row ops text appends key row t).0
    unfolding replay_entry
    delete_row-IsRecoverable key row t found h =
        let r : Topic F = recover ops text later h.entries start in
        let (logged, kept) = delete_row_lem key row t h.entries h.log in
        let found' : lookup key r.state.key_to_row ≡ some row =
          ap (λ (s : StoreState F). lookup key s.key_to_row) (sym h.rebuilt.state) ∙ found in
        journal-IsRecoverable ops text later start t h _ _ _ _
          (free-same ops text later key row t.state r.state h.rebuilt.state)
          (replay_delete_lem ops text later t r key row h.rebuilt found') logged kept

    delta_upsert_keyed-IsRecoverable :
        (now : ℕ) (key : Str) (fields : JsonMap F) (t : Topic F)
        → t.sparse_delta_txlog ≡ true
        → ((compute_key_from_map ops text t.key_fields fields ≡ some key)
            ⊎ ((compute_key_from_map ops text t.key_fields fields ≡ none)
                × (t.key_fields ≡ [])
                × (key ≡ [])))
        → IsRecoverable ops text later start t
        → IsRecoverable ops text later start
            (delta_upsert_keyed ops text appends now key fields t).0
    unfolding delta_upsert_keyed delta_payload replay_entry
    delta_upsert_keyed-IsRecoverable now key fields t sparse cases h =
        let r : Topic F = recover ops text later h.entries start in
        let values =
          merged_values ops text t.state.table (lookup key t.state.key_to_row) fields 0 t.columns in
        let (written, kept) =
          write_store_lem now values key (delta_payload ops text appends values fields t)
            (some (changed_columns fields 0 t.columns)) t h.entries h.log in
        let payload : delta_payload ops text appends values fields t ≡ json_delta fields =
          ground (arith, sparse) in
        let logged =
          written
          ∙ ap
              (λ (p : Payload F). some (
                h.entries
                ++ record {
                  sequence = t.next_sequence + 1;
                  key = key;
                  origin = t.origin_id;
                  payload = p;
                }
                  ∷ []))
              payload in
        journal-IsRecoverable ops text later start t h _ _ _ _
          (merge_delta-same ops text later now key fields t r h.rebuilt)
          (replay_delta_lem ops text later t r fields key h.rebuilt cases) logged kept

    pub delta_upsert_map-IsRecoverable :
        (now : ℕ) (fields : JsonMap F) (t : Topic F)
        → t.sparse_delta_txlog ≡ true
        → IsRecoverable ops text later start t
        → IsRecoverable ops text later start (delta_upsert_map ops text appends now fields t).0
    delta_upsert_map-IsRecoverable now fields t sparse h =
        elim (delta_upsert_map-cases ops text appends now fields t) [
          | inr refused ↦ subst (IsRecoverable ops text later start) (sym refused) h
          | inl (key, has_key, eq) ↦
              subst (IsRecoverable ops text later start) (sym eq)
                (delta_upsert_keyed-IsRecoverable now key fields t sparse has_key h)
        ]
