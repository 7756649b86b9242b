-- ===== src/Topic/Recovery.antt =====
-- A journal rebuilds the topic that wrote it, there or on a standby (crates/cq-core/src/topic.rs).
use cqserver.Prelude.{
  refl, ◌∙◌, All, arith, ℕ, ◌≡◌, sym, Bool, true, some, List, [], string_eq, list_eq, number_eq,
}
use cqserver.Predicate.Values.{Ops, Str}
use cqserver.Subscription.Rows.{JsonMap}
use cqserver.Topic.Values.{TextOps}
use cqserver.Topic.State.{Entry, Topic}
use cqserver.Topic.Replay.{recover}
use cqserver.Topic.Rebuilding.{Unseen, untimed, IsRecoverable}
use cqserver.Topic.Journaled.{
  upsert_map-IsRecoverable, delete_row-IsRecoverable, delta_upsert_map-IsRecoverable,
}
use cqserver.Topic.Publishing.{
  upsert_map, delta_upsert_map, delta_upsert_keyed, delete_row, write_store_with_changed,
  append_with_origin, dispatch,
}
use cqserver.Topic.Runs.{Op, Allowed, IsKept, run, run-kept}

module _ {F R : Type 0} (ops : Ops F R) (text : TextOps F) where
  upsert_map-sparse :
      (appends : ℕ → Bool) (now : ℕ) (fields : JsonMap F) (t : Topic F)
      → (upsert_map ops text appends now fields t).0.sparse_delta_txlog ≡ t.sparse_delta_txlog
  unfolding upsert_map write_store_with_changed append_with_origin dispatch
  upsert_map-sparse appends now fields t = ground arith

  delta_upsert_map-sparse :
      (appends : ℕ → Bool) (now : ℕ) (fields : JsonMap F) (t : Topic F)
      → (delta_upsert_map ops text appends now fields t).0.sparse_delta_txlog ≡ t.sparse_delta_txlog
  unfolding delta_upsert_map delta_upsert_keyed write_store_with_changed append_with_origin dispatch
  delta_upsert_map-sparse appends now fields t = ground arith

  delete_row-sparse :
      (appends : ℕ → Bool) (key : Str) (row : ℕ) (t : Topic F)
      → (delete_row ops text appends key row t).0.sparse_delta_txlog ≡ t.sparse_delta_txlog
  unfolding delete_row append_with_origin dispatch
  delete_row-sparse appends key row t = ground arith

  -- The topic and its copy, while the journal's mode stays as it was.
  abbrev Follows : ℕ → Topic F → Bool → Topic F → Type 0
  Follows later copy sparse t =
      (t.sparse_delta_txlog ≡ sparse) × IsRecoverable ops text later copy t

  rebuilds :
      (appends : ℕ → Bool) (later : ℕ) (copy : Topic F) (sparse : Bool)
      → ((n : ℕ) → appends n ≡ true)
      → IsKept ops text appends (sparse ≡ true) (Follows later copy sparse)
  rebuilds appends later copy sparse journaled = record {
    upserts = λ now fields t h. (
      upsert_map-sparse appends now fields t ∙ h.0,
      upsert_map-IsRecoverable ops text appends journaled later copy now fields t h.1,
    );
    deltas = λ now fields t on h. (
      delta_upsert_map-sparse appends now fields t ∙ h.0,
      delta_upsert_map-IsRecoverable ops text appends journaled later copy now fields t (h.0 ∙ on)
          h.1,
    );
    frees = λ key row t found h. (
      delete_row-sparse appends key row t ∙ h.0,
      delete_row-IsRecoverable ops text appends journaled later copy key row t found h.1,
    );
  }

  -- A topic starts with an empty journal that takes every entry, and, if there are sparse
  -- publications, has them journaled as they come (sparse_delta_txlog). A copy has the same columns, key fields, table,
  -- keys and free slots, and has not seen any entry that the topic will number: such as the
  -- topic itself before a restart, or a standby. After any publications (full, sparse, in
  -- batches), deletions and sweeps, the replay of the topic's journal into the copy, at any time, gives it
  -- the topic's table, rows for the keys and free slots; only the times of the writes differ.
  pub run-recover :
      (appends : ℕ → Bool) (later : ℕ) (start copy : Topic F) (more : List (Op ops text))
      → ((n : ℕ) → appends n ≡ true)
      → All (Allowed ops text (start.sparse_delta_txlog ≡ true)) more
      → start.txlog ≡ some []
      → copy.columns ≡ start.columns
      → copy.key_fields ≡ start.key_fields
      → untimed start.state ≡ untimed copy.state
      → Unseen start.origin_id start.next_sequence copy
      → let t = run ops text appends more start in
        (entries : List (Entry F)) × (t.txlog ≡ some entries)
        × (untimed (recover ops text later entries copy).state ≡ untimed t.state)
  unfolding recover
  run-recover appends later start copy more journaled allowed empty columns key_fields state
        unseen =
      let sparse = start.sparse_delta_txlog in
      let (mode, h) =
        run-kept ops text appends (sparse ≡ true) (Follows later copy sparse)
          (rebuilds appends later copy sparse journaled) more start allowed
          (
            refl,
            record {
              entries = [];
              log = empty;
              rebuilt = record {
                columns = columns;
                key_fields = key_fields;
                state = state;
                unseen = unseen;
              };
            },
          ) in
      (h.entries, h.log, sym h.rebuilt.state)
