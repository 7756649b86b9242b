-- ===== src/Topic/Replay.antt =====
-- The replay of journal entries into a topic, at a restart and from other servers
-- (crates/cq-core/src/topic.rs).
use cqserver.Prelude.{
  ℕ, ltb, leb, max, String, Bool, false, ◌&&◌, ◌||◌, none, some, List, [], ◌∷◌, lookup, insert,
  if◌then◌else◌, string_eq, list_eq, number_eq, ◌==◌,
}
use cqserver.Predicate.Values.{Ops, Str}
use cqserver.Subscription.Rows.{JsonMap}
use cqserver.Topic.Values.{TextOps}
use cqserver.Topic.State.{
  StoreState, json, json_delta, tombstone, Entry, Topic, compute_key_from_map, commit_values_locked,
  free,
}
use cqserver.Topic.Merging.{map_values, merged_values}

module _ {F : Type 0} where
  -- The empty origin and the topic's own.
  abbrev pub is_own : String → Topic F → Bool
  is_own origin t = origin == "" || origin == t.origin_id

  unfoldable pub replay_is_duplicate : String → ℕ → Topic F → Bool
  replay_is_duplicate origin sequence t =
      let hw = t.last_applied_sequence in
      if is_own origin t
      then leb sequence hw && ltb 0 hw
      else elim (lookup origin t.replicated_highwater) as (λ _. Bool) [
        | none ↦ false
        | some mark ↦ leb sequence mark
      ]

  unfoldable pub bump_sequence_to : ℕ → Topic F → Topic F
  bump_sequence_to seq t = record t {
    next_sequence = max t.next_sequence seq;
    last_applied_sequence = max t.last_applied_sequence seq;
  }

  unfoldable pub replay_note_applied : String → ℕ → Topic F → Topic F
  replay_note_applied origin sequence t =
      let mark = elim (lookup origin t.replicated_highwater) as (λ _. ℕ) [
        | none ↦ 0
        | some hw ↦ hw
      ] in
      if is_own origin t then bump_sequence_to sequence t else record t {
        replicated_highwater = insert origin (max mark sequence) t.replicated_highwater;
      }

module _ {F R : Type 0} (ops : Ops F R) (text : TextOps F) where
  unfoldable pub replay_upsert_map_origin : ℕ → String → ℕ → JsonMap F → Topic F → Topic F
  replay_upsert_map_origin now origin sequence fields t =
      let state =
        (commit_values_locked ops text now (map_values ops text t.columns fields) t.state).0 in
      if replay_is_duplicate origin sequence t
      then t
      else replay_note_applied origin sequence (record t { state = state })

  unfoldable pub merge_delta : ℕ → Str → JsonMap F → Topic F → StoreState F
  merge_delta now key fields t =
      (commit_values_locked ops text now
        (merged_values ops text t.state.table (lookup key t.state.key_to_row) fields 0 t.columns)
        t.state).0

  -- An entry without the key of a keyed topic is skipped.
  unfoldable pub replay_delta_map_origin : ℕ → String → ℕ → JsonMap F → Topic F → Topic F
  replay_delta_map_origin now origin sequence fields t =
      if replay_is_duplicate origin sequence t
      then t
      else elim (compute_key_from_map ops text t.key_fields fields) [
        | some key ↦
            replay_note_applied origin sequence (record t { state = merge_delta now key fields t })
        | none ↦ elim t.key_fields [
          | [] ↦
              replay_note_applied origin sequence (record t { state = merge_delta now [] fields t })
          | name ∷ names ↦ t
        ]
      ]

  unfoldable pub replay_delete_origin : String → ℕ → Str → Topic F → Topic F
  replay_delete_origin origin sequence key t =
      let state = elim (lookup key t.state.key_to_row) as (λ _. StoreState F) [
        | none ↦ t.state
        | some row ↦ free ops text key row t.state
      ] in
      if replay_is_duplicate origin sequence t
      then t
      else replay_note_applied origin sequence (record t { state = state })

  -- An entry of the journal, at the time `now`.
  unfoldable pub replay_entry : ℕ → Entry F → Topic F → Topic F
  replay_entry now e t = elim e.payload [
    | json fields ↦ replay_upsert_map_origin now e.origin e.sequence fields t
    | json_delta fields ↦ replay_delta_map_origin now e.origin e.sequence fields t
    | tombstone ↦ replay_delete_origin e.origin e.sequence e.key t
  ]

  unfoldable pub recover : ℕ → List (Entry F) → Topic F → Topic F
  recover now [] t = t
  recover now (e ∷ es) t = recover now es (replay_entry now e t)
