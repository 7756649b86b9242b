-- ===== src/Topic/State.antt =====
-- The state of a topic with a schema and without index columns (`StoreState`, `Topic`, `MutationEvent` and the commit of a
-- row in crates/cq-core/src/topic.rs). The journal's entries are the decoded payloads.
use cqserver.Prelude.{
  Bool, ℕ, ◌+◌, String, Option, none, some, List, [], ◌∷◌, ◌++◌, length, get_elem?, set, replicate,
  ◌-◌, ltb, Assoc, lookup, insert, remove, if◌then◌else◌, string_eq, list_eq, number_eq,
}
use cqserver.Predicate.Values.{
  Ops, Str, Value, ColumnType, string_value, long_value, int_value, double_value,
}
use cqserver.Subscription.Rows.{Json, JsonMap, text_json, integer_json, float_json}
use cqserver.Subscription.State.{MutationKind}
use cqserver.Topic.Values.{TextOps}
use cqserver.Topic.Table.{Table, append_row_owned, write_row_at, update_row, null_out_row}

pub record StoreState (F : Type 0) : Type 0 where
  pub table : Table F
  pub key_to_row : Assoc Str ℕ
  pub key_col_indices : List ℕ
  pub last_touched : List ℕ
  -- The last one that was freed first.
  pub free_slots : List ℕ

pub record MutationEvent : Type 0 where
  pub row : ℕ
  pub sequence : ℕ
  pub kind : MutationKind
  pub changed_cols : Option (List ℕ)

-- A full row, a sparse delta, or the empty payload of a deletion.
pub data Payload (F : Type 0) : Type 0 where
  json json_delta : JsonMap F → Payload F
  tombstone : Payload F

pub record Entry (F : Type 0) : Type 0 where
  pub sequence : ℕ
  pub key : Str
  pub origin : String
  pub payload : Payload F

pub record Topic (F : Type 0) : Type 0 where
  pub columns : List (String × ColumnType)
  pub key_fields : List String
  pub expire_seconds : Option ℕ
  pub origin_id : String
  -- Whether the journal has sparse publications as they came; off unless configured.
  pub sparse_delta_txlog : Bool
  pub state : StoreState F
  pub next_sequence : ℕ
  pub last_applied_sequence : ℕ
  pub replicated_highwater : Assoc String ℕ
  pub txlog : Option (List (Entry F))
  -- What has been sent on the mutation channel.
  pub events : List MutationEvent

-- Parts of a key, with `|` between them.
unfoldable pub join_parts : Str → List Str → Str
join_parts p [] = p
join_parts p (q ∷ qs) = p ++ 124 ∷ join_parts q qs

abbrev pub key_of_parts : Option (List Str) → Option Str
key_of_parts none = none
key_of_parts (some []) = none
key_of_parts (some (p ∷ ps)) = some (join_parts p ps)

abbrev cons_part : Option Str → Option (List Str) → Option (List Str)
cons_part none parts = none
cons_part (some p) none = none
cons_part (some p) (some parts) = some (p ∷ parts)

module _ {F R : Type 0} (ops : Ops F R) (text : TextOps F) where
  unfoldable pub value_part : Option (Value F) → Option Str
  value_part (some (string_value (some s))) = some s
  value_part (some (long_value n)) = some (text.print_int n)
  value_part (some (int_value n)) = some (text.print_int n)
  value_part (some (double_value v)) = some (text.print_f64 v)
  value_part _ = none

  unfoldable pub value_parts : List (Value F) → List ℕ → Option (List Str)
  value_parts values [] = some []
  value_parts values (idx ∷ idxs) =
      cons_part (value_part (get_elem? values idx)) (value_parts values idxs)

  -- No key columns, or one without a value: no key.
  unfoldable pub compute_key_with : List (Value F) → List ℕ → Option Str
  compute_key_with values key_col_indices = key_of_parts (value_parts values key_col_indices)

  unfoldable pub json_part : Option (Json F) → Option Str
  json_part (some (text_json s)) = some s
  json_part (some (integer_json n)) = some (text.print_int n)
  json_part (some (float_json v)) = some (text.print_number v)
  json_part _ = none

  unfoldable pub json_parts : JsonMap F → List String → Option (List Str)
  json_parts fields [] = some []
  json_parts fields (name ∷ names) =
      cons_part (json_part (lookup name fields)) (json_parts fields names)

  unfoldable pub compute_key_from_map : List String → JsonMap F → Option Str
  compute_key_from_map key_fields fields = key_of_parts (json_parts fields key_fields)

  module _ (now : ℕ) where
    -- Extends the list to the row, with the time.
    unfoldable pub push_last_touched : ℕ → List ℕ → List ℕ
    push_last_touched row touched =
        set (touched ++ replicate (row + 1 - length touched) now) row now

    -- The row of an existing key.
    unfoldable pub refresh : ℕ → List (Value F) → StoreState F → StoreState F
    refresh row values s = record s {
      table = update_row ops text row values s.table;
      last_touched = set s.last_touched row now;
    }

    -- A row at the end of the table.
    unfoldable pub append : List (Value F) → StoreState F → StoreState F × ℕ
    append values s =
        let row = length s.table.rows in
        (
          record s {
            table = append_row_owned ops text values s.table;
            last_touched = push_last_touched row s.last_touched;
          },
          row,
        )

    -- A new key, in a free slot or at the end.
    unfoldable pub place : Str → List (Value F) → StoreState F → StoreState F × ℕ
    place key values s = elim s.free_slots [
      | slot ∷ slots ↦ (
        record s {
          free_slots = slots;
          table = write_row_at ops text slot values s.table;
          key_to_row = insert key slot s.key_to_row;
          last_touched =
              if ltb slot (length s.last_touched)
              then set s.last_touched slot now
              else push_last_touched slot s.last_touched;
        },
        slot,
      )
      | [] ↦
          let (appended, row) = append values s in
          (record appended { key_to_row = insert key row appended.key_to_row }, row)
    ]

    unfoldable pub commit_values_locked : List (Value F) → StoreState F → StoreState F × ℕ
    commit_values_locked values s = elim (compute_key_with values s.key_col_indices) [
      | some key ↦ elim (lookup key s.key_to_row) [
        | some row ↦ (refresh row values s, row)
        | none ↦ place key values s
      ]
      | none ↦ if ltb 0 (length s.table.rows) then (refresh 0 values s, 0) else append values s
    ]

  -- The row of a key is nulled and freed.
  unfoldable pub free : Str → ℕ → StoreState F → StoreState F
  free key row s = record s {
    key_to_row = remove key s.key_to_row;
    table = null_out_row ops text row s.table;
    free_slots = row ∷ s.free_slots;
  }
