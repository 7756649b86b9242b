-- ===== src/Topic/Publishing.antt =====
-- The operations that write a topic: publications, deletions, the expiry of old records
-- (crates/cq-core/src/topic.rs). `appends n` tells whether the journal takes the entry of sequence `n`. The
-- throttling of a publisher whose consumer is behind, and the views' copies of the events, are left out.
use cqserver.Prelude.{
  String, insert, ℕ, ◌+◌, ◌-◌, ltb, leb, Bool, true, false, Option, none, some, List, [], ◌∷◌, ◌++◌,
  Assoc, lookup, get_elem?, if◌then◌else◌, string_eq, list_eq, number_eq, Result, ok, err,
}
use cqserver.Predicate.Values.{ColumnType, Ops, Str, Value}
use cqserver.Subscription.Rows.{to_json, JsonMap}
use cqserver.Subscription.State.{MutationKind, upsert, delete}
use cqserver.Topic.Values.{TextOps}
use cqserver.Topic.Merging.{map_values, merged_values, changed_columns}
use cqserver.Topic.State.{
  Payload, json, json_delta, tombstone, Topic, compute_key_from_map, commit_values_locked, free,
}

pub data TopicError : Type 0 where
  log_failed missing_key_fields : TopicError

module _ {F R : Type 0} (ops : Ops F R) (text : TextOps F) (appends : ℕ → Bool) where
  -- Takes the next sequence and appends an entry, if there is a journal.
  unfoldable pub append_with_origin : Str → Payload F → Topic F → Topic F × Bool
  append_with_origin key payload t =
      let seq = t.next_sequence + 1 in
      elim t.txlog [
        | none ↦ (record t { next_sequence = seq }, true)
        | some entries ↦
            if appends seq
            then (
              record t {
                next_sequence = seq;
                txlog = some (
                    entries
                    ++ record { sequence = seq; key = key; origin = t.origin_id; payload = payload }
                      ∷ []);
              },
              true,
            )
            else (record t { next_sequence = seq }, false)
      ]

  unfoldable pub dispatch : ℕ → MutationKind → Option (List ℕ) → Topic F → Topic F
  dispatch row kind changed_cols t = record t {
    events =
        t.events
        ++ record {
          row = row;
          sequence = t.next_sequence;
          kind = kind;
          changed_cols = changed_cols;
        }
          ∷ [];
  }

  unfoldable pub write_store_with_changed :
      ℕ
      → List (Value F)
      → Str
      → Payload F
      → Option (List ℕ)
      → Topic F
      → Topic F × Result ℕ TopicError
  write_store_with_changed now values key payload changed_cols t =
      let (logged, done) = append_with_origin key payload t in
      let (state, row) = commit_values_locked ops text now values logged.state in
      if done
      then (
        dispatch row upsert changed_cols (record logged { state = state }),
        ok logged.next_sequence,
      )
      else (logged, err log_failed)

  abbrev pub or_empty : Option Str → Str
  or_empty none = []
  or_empty (some key) = key

  unfoldable pub upsert_map : ℕ → JsonMap F → Topic F → Topic F × Result ℕ TopicError
  upsert_map now fields t =
      write_store_with_changed now (map_values ops text t.columns fields)
        (or_empty (compute_key_from_map ops text t.key_fields fields)) (json fields) none t

  -- A frame of rows, up to the first that the journal does not take.
  unfoldable pub upsert_map_batch :
      ℕ → List (JsonMap F) → Topic F → Topic F × Result (List ℕ) TopicError
  upsert_map_batch now [] t = (t, ok [])
  upsert_map_batch now (fields ∷ rows) t =
      let (t', result) = upsert_map now fields t in
      elim result [
        | err e ↦ (t', err e)
        | ok seq ↦
            let (last, rest) = upsert_map_batch now rows t' in
            (last, elim rest [ err e ↦ err e | ok seqs ↦ ok (seq ∷ seqs) ])
      ]

  -- The full row that a sparse publication makes, as JSON.
  unfoldable pub merged_payload :
      List (String × ColumnType) → List (Value F) → JsonMap F → JsonMap F
  merged_payload (c ∷ cs) (v ∷ vs) entries =
      merged_payload cs vs (insert c.0 (to_json ops text.store_ops v) entries)
  merged_payload _ vs entries = entries

  -- What the journal gets of a sparse publication: itself, or the full row.
  unfoldable pub delta_payload : List (Value F) → JsonMap F → Topic F → Payload F
  delta_payload values fields t =
      if t.sparse_delta_txlog then json_delta fields else json (merged_payload t.columns values [])

  unfoldable pub delta_upsert_keyed : ℕ → Str → JsonMap F → Topic F → Topic F × Result ℕ TopicError
  delta_upsert_keyed now key fields t =
      let values =
        merged_values ops text t.state.table (lookup key t.state.key_to_row) fields 0 t.columns in
      write_store_with_changed now values key (delta_payload values fields t)
        (some (changed_columns fields 0 t.columns)) t

  unfoldable pub delta_upsert_map : ℕ → JsonMap F → Topic F → Topic F × Result ℕ TopicError
  delta_upsert_map now fields t = elim (compute_key_from_map ops text t.key_fields fields) [
    | some key ↦ delta_upsert_keyed now key fields t
    | none ↦ elim t.key_fields [
      | [] ↦ delta_upsert_keyed now [] fields t
      | name ∷ names ↦ (t, err missing_key_fields)
    ]
  ]

  -- The row is freed before the journal is written.
  unfoldable pub delete_row : Str → ℕ → Topic F → Topic F × Result ℕ TopicError
  delete_row key row t =
      let (logged, done) =
        append_with_origin key tombstone (record t { state = free ops text key row t.state }) in
      if done
      then (dispatch row delete none logged, ok logged.next_sequence)
      else (logged, err log_failed)

  unfoldable pub delete_key : Str → Topic F → Topic F × Result (Option ℕ) TopicError
  delete_key key t = elim (lookup key t.state.key_to_row) [
    | none ↦ (t, ok none)
    | some row ↦
        let (deleted, result) = delete_row key row t in
        (deleted, elim result [ ok seq ↦ ok (some seq) | err e ↦ err e ])
  ]

  -- Deletes the key if it is still as old as the sweep saw it.
  unfoldable pub delete_if_still_expired : Str → ℕ → ℕ → Topic F → Topic F × Result Bool TopicError
  delete_if_still_expired key ttl observed_at t = elim (lookup key t.state.key_to_row) [
    | none ↦ (t, ok false)
    | some row ↦ elim (get_elem? t.state.last_touched row) [
      | none ↦ (t, ok false)
      | some touched ↦
          let (deleted, result) = delete_row key row t in
          if ltb observed_at touched
          then (t, ok false)
          else if ltb (observed_at - touched) ttl
          then (t, ok false)
          else (deleted, elim result [ ok seq ↦ ok true | err e ↦ err e ])
    ]
  ]

  -- The first error ends the sweep.
  unfoldable pub expire_keys : ℕ → ℕ → List Str → Topic F → Topic F × Result (List Str) TopicError
  expire_keys ttl now [] t = (t, ok [])
  expire_keys ttl now (k ∷ ks) t =
      let (t', result) = delete_if_still_expired k ttl now t in
      elim result [
        | err e ↦ (t', err e)
        | ok gone ↦
            let (last, rest) = expire_keys ttl now ks t' in
            (last, elim rest [ err e ↦ err e | ok keys ↦ ok (if gone then k ∷ keys else keys) ])
      ]

  unfoldable pub candidates : ℕ → ℕ → List ℕ → Assoc Str ℕ → List Str
  candidates ttl now last_touched [] = []
  candidates ttl now last_touched ((k, row) ∷ entries) =
      let rest = candidates ttl now last_touched entries in
      elim (get_elem? last_touched row) [
        | none ↦ rest
        | some touched ↦ if leb ttl (now - touched) then k ∷ rest else rest
      ]

  unfoldable pub sweep_expired : ℕ → Topic F → Topic F × Result (List Str) TopicError
  sweep_expired now t = elim t.expire_seconds [
    | none ↦ (t, ok [])
    | some ttl ↦ expire_keys ttl now (candidates ttl now t.state.last_touched t.state.key_to_row) t
  ]
