-- ===== src/Topic/Tests.antt =====
-- Runs of topics, and the theorems about them at these.
use mathlib.Core.List.{Memᴰ}
use Prim.Native.Nat.{compare}
use cqserver.Prelude.{
  ◌%◌, nat_eq, not, ℕ, ◌≡◌, refl, Bool, true, Option, none, some, List, [], ◌∷◌, ℤ, pos, lookup,
  insert, remove, arith, length, map, string_eq, number_eq, list_eq, pos_part,
}
use cqserver.Predicate.Sample.{ops}
use cqserver.Predicate.Values.{
  Str, Value, string_column, long_column, string_value, long_value, null_value,
}
use cqserver.Subscription.Rows.{StoreOps, JsonMap, text_json, integer_json}
use cqserver.Topic.Values.{TextOps, wrap_i32, null_of, parse_bool, from_json, set_value}
use cqserver.Topic.Table.{
  get, set_all, set_present, null_row, append_row_owned, write_row_at, update_row, null_out_row,
}
use cqserver.Topic.State.{
  StoreState, Entry, Topic, join_parts, value_part, value_parts, compute_key_with, json_part,
  json_parts, compute_key_from_map, push_last_touched, refresh, append, place, commit_values_locked,
  free, json, tombstone,
}
use cqserver.Topic.Merging.{map_values, stored_value, merged_values, changed_columns}
use cqserver.Topic.Publishing.{
  append_with_origin, dispatch, write_store_with_changed, upsert_map, upsert_map_batch,
  delta_upsert_keyed, delta_upsert_map, delete_row, delete_key, delete_if_still_expired,
  expire_keys, candidates, sweep_expired,
}
use cqserver.Topic.Replay.{recover}
use cqserver.Topic.Replay.{replay_is_duplicate}
use cqserver.Topic.Rebuilding.{untimed}
use cqserver.Topic.Runs.{Op, publish, publish_delta, publish_batch, deletes, sweep, run}
use cqserver.Topic.Recovery.{run-recover}
use cqserver.Topic.Slots.{record_of, IsSound}
use cqserver.Topic.Writes.{Write, commits, frees, perform_all, change_all, perform_all-Holds}
use cqserver.Topic.Numbering.{IsNumbered, run-IsNumbered}
use cqserver.Topic.Redelivery.{recover-again}

-- A parser of one digit, and a printer of it.
abbrev digit : Str → Option ℤ
digit (c ∷ []) = some (pos c)
digit _ = none

abbrev store_ops : StoreOps ℤ
store_ops = record {
  total_cmp = λ a b. compare (pos_part a) (pos_part b);
  is_finite = λ _. true;
  format_timestamp_micros = λ v. pos_part v ∷ [];
  base64 = λ b. b;
}

abbrev text : TextOps ℤ
text = record {
  parse_f64 = digit;
  parse_i64 = digit;
  parse_i32 = digit;
  print_f64 = λ v. pos_part v ∷ [];
  print_int = λ v. pos_part v ∷ [];
  print_number = λ v. pos_part v ∷ [];
  parse_timestamp_json = λ j. pos 0;
  parse_timestamp_str = digit;
  store_ops = store_ops;
  decode_base64 = λ s. some s;
  ascii_lowercase = λ s. s;
}

abbrev store : StoreState ℤ
store = record {
  table = record { kinds = string_column ∷ long_column ∷ []; rows = [] };
  key_to_row = [];
  key_col_indices = 0 ∷ [];
  last_touched = [];
  free_slots = [];
}

-- A topic with a key and a price, whose records live for 10 units of time.
abbrev prices : Topic ℤ
prices = record {
  columns = ("id", string_column) ∷ ("px", long_column) ∷ [];
  key_fields = "id" ∷ [];
  expire_seconds = some 10;
  origin_id = "here";
  sparse_delta_txlog = true;
  state = store;
  next_sequence = 0;
  last_applied_sequence = 0;
  replicated_highwater = [];
  txlog = some [];
  events = [];
}

abbrev price : ℕ → ℕ → JsonMap ℤ
price id px = ("id", text_json (id ∷ [])) ∷ ("px", integer_json (pos px)) ∷ []

abbrev always : ℕ → Bool
always n = true

abbrev ops_done : List (Op ops text)
ops_done =
    publish 1 (price 97 5)
    ∷ publish 2 (price 98 6)
    ∷ deletes (97 ∷ [])
    ∷ publish_delta 4 (("id", text_json (99 ∷ [])) ∷ [])
    ∷ publish_batch 5 (price 98 7 ∷ price 97 8 ∷ [])
    ∷ sweep 14
    ∷ []

-- The first key is deleted and comes again, and the sweep takes the third.
ops_runs :
    map (λ e. e.0) (run ops text always ops_done prices).state.key_to_row
    ≡ (98 ∷ []) ∷ (97 ∷ []) ∷ []
unfolding run sweep_expired upsert_map_batch upsert_map write_store_with_changed append_with_origin
    delta_upsert_map compute_key_from_map json_parts delete_key lookup dispatch commit_values_locked
    compute_key_with value_parts value_part map_values from_json insert remove changed_columns
    merged_values stored_value candidates delete_if_still_expired delete_row delta_upsert_keyed
    expire_keys append free join_parts json_part place push_last_touched refresh append_row_owned
    get null_out_row null_row set_all set_present update_row write_row_at null_of parse_bool
    set_value wrap_i32
ops_runs = refl

-- Another server's copy of the topic, which has seen an entry of a third one.
abbrev standby : Topic ℤ
standby = record prices { origin_id = "there"; replicated_highwater = ("elsewhere", 7) ∷ [] }

run-recover_example :
    (entries : List (Entry ℤ)) × ((run ops text always ops_done prices).txlog ≡ some entries)
    × (untimed (recover ops text 20 entries standby).state
        ≡ untimed (run ops text always ops_done prices).state)
unfolding replay_is_duplicate lookup
run-recover_example =
    run-recover ops text always 20 prices standby ops_done (λ n. refl)
      (tt, (tt, (tt, (refl, (tt, (tt, tt)))))) refl refl refl refl (λ m later. refl)

abbrev values : ℕ → ℕ → List (Value ℤ)
values id px = string_value (some (id ∷ [])) ∷ long_value (pos px) ∷ []

-- Two keys, of which the first is deleted and leaves its row to a third; the second is written again.
abbrev writes : List (Write ℤ)
writes =
    commits 1 (values 97 5)
    ∷ commits 2 (values 98 6)
    ∷ frees (97 ∷ [])
    ∷ commits 3 (values 99 7)
    ∷ commits 4 (string_value (some (98 ∷ [])) ∷ null_value ∷ [])
    ∷ []

store-IsSound : IsSound ops text store
unfolding lookup
store-IsSound = record {
  mapped = λ key row found. ground arith;
  apart = λ key row found. refl;
  single = λ k j row found other. ground arith;
  nulled = λ row h. ground (arith, h);
  once = _;
}

perform_all-Holds_example :
    IsSound ops text (perform_all ops text writes store)
    × ((j : Str)
        → record_of ops text (perform_all ops text writes store) j
          ≡ change_all ops text store.table.kinds store.key_col_indices writes
              (record_of ops text store)
              j)
unfolding compute_key_with value_parts value_part join_parts
perform_all-Holds_example =
    perform_all-Holds ops text writes store
      ((97 ∷ [], refl), ((98 ∷ [], refl), ((99 ∷ [], refl), ((98 ∷ [], refl), _)))) store-IsSound

-- The row that was freed has the third key, and the second key keeps its price.
writes_runs :
    (record_of ops text (perform_all ops text writes store) (99 ∷ []) ≡ some (values 99 7))
    × (record_of ops text (perform_all ops text writes store) (98 ∷ []) ≡ some (values 98 6))
    × (length (perform_all ops text writes store).table.rows ≡ 2)
unfolding commit_values_locked lookup compute_key_with value_parts value_part place append insert
    join_parts free remove refresh update_row write_row_at null_out_row append_row_owned set_all
    null_row push_last_touched set_present null_of parse_bool set_value
writes_runs = (refl, refl, refl)

-- A record of another server and its deletion.
abbrev shipped : Entry ℤ
shipped = record { sequence = 1; key = 97 ∷ []; origin = "there"; payload = json (price 97 5) }

abbrev deleted : Entry ℤ
deleted = record { sequence = 2; key = 97 ∷ []; origin = "there"; payload = tombstone }

recover-again_example :
    recover ops text 9 (deleted ∷ shipped ∷ []) (recover ops text 5 (shipped ∷ deleted ∷ []) prices)
    ≡ recover ops text 5 (shipped ∷ deleted ∷ []) prices
recover-again_example =
    recover-again ops text 5 9 (shipped ∷ deleted ∷ []) (deleted ∷ shipped ∷ []) prices
      ((omega arith, Memᴰ.tail (Memᴰ.head refl)), ((omega arith, Memᴰ.head refl), _))

-- A journal that refuses every third entry.
abbrev refuses_third : ℕ → Bool
refuses_third n = not (nat_eq (n % 3) 0)

run-IsNumbered_example : IsNumbered 0 (run ops text refuses_third ops_done prices)
run-IsNumbered_example = run-IsNumbered ops text refuses_third ops_done prices refl refl
