-- ===== src/Topic/Failures.antt =====
-- What the operations of a topic do when the journal does not take an entry, or a publication has no key
-- (crates/cq-core/src/topic.rs).
use cqserver.Prelude.{
  ℕ, ◌+◌, ◌≡◌, Bool, false, none, some, List, get_elem?, lookup, arith, list_eq, number_eq, err,
}
use cqserver.Predicate.Values.{Ops, Str, Value}
use cqserver.Subscription.Rows.{JsonMap}
use cqserver.Topic.Values.{TextOps}
use cqserver.Topic.Table.{set_present}
use cqserver.Topic.State.{
  StoreState, Entry, Topic, compute_key_with, commit_values_locked, refresh, free,
}
use cqserver.Topic.Publishing.{
  log_failed, append_with_origin, write_store_with_changed, upsert_map, delete_row, delete_key,
}
use cqserver.Topic.Slots.{record_of}
use cqserver.Topic.Cells.{get-update_row, get_elem?-inside}

module _ {F R : Type 0} (ops : Ops F R) (text : TextOps F) where
  -- The journal does not take the next entry. A full publication then reports the error and leaves the
  -- table, the journal and the events as they were. A deletion of a key with a row reports it
  -- too, with the same journal and events, but has freed the row already.
  pub log_failed_lem :
      (appends : ℕ → Bool) (now : ℕ) (fields : JsonMap F) (key : Str) (row : ℕ) (t : Topic F)
      (entries : List (Entry F))
      → t.txlog ≡ some entries
      → appends (t.next_sequence + 1) ≡ false
      → lookup key t.state.key_to_row ≡ some row
      → (upsert_map ops text appends now fields t
          ≡ (record t { next_sequence = t.next_sequence + 1 }, err log_failed))
        × (delete_key ops text appends key t ≡ (
          record t { next_sequence = t.next_sequence + 1; state = free ops text key row t.state },
          err log_failed,
        ))
  unfolding upsert_map write_store_with_changed append_with_origin delete_key delete_row
  log_failed_lem appends now fields key row t entries log refuses found =
      (ground (arith, log, refuses), ground (arith, log, refuses, found))

  -- A commit of values without a key, to a sound state in which a key has the first row, as when a full
  -- publication to a topic with key fields lacks one of them: it writes the values that are not
  -- null over the record of that key.
  pub commit_keyless_lem :
      (now : ℕ) (values cells : List (Value F)) (s : StoreState F) (k : Str)
      → compute_key_with ops text values s.key_col_indices ≡ none
      → lookup k s.key_to_row ≡ some 0
      → record_of ops text s k ≡ some cells
      → record_of ops text (commit_values_locked ops text now values s).0 k
        ≡ some (set_present ops text s.table.kinds values cells)
  unfolding commit_values_locked refresh
  commit_keyless_lem now values cells s k keyless first held =
      let there : get_elem? s.table.rows 0 ≡ some cells = ground (arith, first, held) in
      ground (
        arith,
        keyless,
        first,
        get_elem?-inside s.table.rows 0 cells there,
        get-update_row ops text s.table 0 0 values cells there,
      )
