-- ===== src/Topic/Slots.antt =====
-- The table as a map from keys to records: what a commit and a deletion change, through the reuse of slots
-- (crates/cq-core/src/topic.rs).
use cqserver.Prelude.{
  ℕ, ◌<◌, ◌≡◌, subst, true, false, nat_eq_iff, Option, none, some, List, [], ◌∷◌, length,
  length-append, get_elem?, lookup, insert, lookup-insert, lookup-remove, arith, list_eq, number_eq,
  ==_iff,
}
use cqserver.Predicate.Values.{Ops, Str, Value}
use cqserver.Subscription.RowSet.{contains}
use cqserver.Topic.Values.{TextOps}
use cqserver.Topic.Table.{set_all, null_row, append_row_owned, write_row_at}
use cqserver.Topic.State.{StoreState, refresh, free}
use cqserver.Topic.Cells.{
  get_elem?-inside, get-update_row, get-write_row_at, get-null_out_row, length-update_row,
  length-write_row_at, length-null_out_row, kinds-kept,
}

-- No row twice.
abbrev pub NoDup : List ℕ → Type 0
NoDup [] = Unit
NoDup (r ∷ rs) = (contains r rs ≡ false) × NoDup rs

module _ {F R : Type 0} (ops : Ops F R) (text : TextOps F) where
  -- What the table holds for a key.
  abbrev pub record_of : StoreState F → Str → Option (List (Value F))
  record_of s key = elim (lookup key s.key_to_row) [
    | none ↦ none
    | some row ↦ get_elem? s.table.rows row
  ]

  -- Keys have rows of their own, which are in the table and not free; free rows are nulled and free once.
  pub record IsSound (s : StoreState F) : Type 0 where
    pub mapped :
        (key : Str) (row : ℕ) → lookup key s.key_to_row ≡ some row → row < length s.table.rows
    pub apart :
        (key : Str) (row : ℕ)
        → lookup key s.key_to_row ≡ some row
        → contains row s.free_slots ≡ false
    pub single :
        (k j : Str) (row : ℕ)
        → lookup k s.key_to_row ≡ some row
        → lookup j s.key_to_row ≡ some row
        → k ≡ j
    pub nulled :
        (row : ℕ)
        → contains row s.free_slots ≡ true
        → get_elem? s.table.rows row ≡ some (null_row ops text s.table.kinds)
    pub once : NoDup s.free_slots

  module _ (now : ℕ) (values : List (Value F)) (s : StoreState F) (h : IsSound s) where
    pub refresh-IsSound :
        (k : Str) (row : ℕ) (cells : List (Value F))
        → lookup k s.key_to_row ≡ some row
        → get_elem? s.table.rows row ≡ some cells
        → IsSound (refresh ops text now row values s)
    unfolding refresh
    refresh-IsSound k row cells found there = record {
      mapped = λ key r e.
          ground (arith, h.mapped key r e, length-update_row ops text s.table row values);
      apart = h.apart;
      single = h.single;
      nulled = λ r e. ground (
        arith,
        get-update_row ops text s.table row r values cells there,
        h.nulled r e,
        h.apart k row found,
        nat_eq_iff row r,
        kinds-kept ops text s.table row values,
      );
      once = h.once;
    }

    abbrev pub reuse : ℕ → List ℕ → Str → StoreState F
    reuse slot slots k = record s {
      free_slots = slots;
      table = write_row_at ops text slot values s.table;
      key_to_row = insert k slot s.key_to_row;
    }

    pub reuse-IsSound :
        (k : Str) (slot : ℕ) (slots : List ℕ)
        → lookup k s.key_to_row ≡ none
        → s.free_slots ≡ slot ∷ slots
        → IsSound (reuse slot slots k)
    reuse-IsSound k slot slots gone top =
        let listed : contains slot s.free_slots ≡ true = rw top (ground arith) in
        let there = h.nulled slot listed in
        let once : NoDup (slot ∷ slots) = subst NoDup top h.once in
        record {
          mapped = λ key r e. ground (
            arith,
            lookup-insert k key slot s.key_to_row,
            h.mapped key r,
            e,
            get_elem?-inside s.table.rows slot _ there,
            length-write_row_at ops text s.table slot values,
          );
          apart = λ key r e.
              ground (arith, lookup-insert k key slot s.key_to_row, h.apart key r, e, top, once.0);
          single = λ i j r e f. ground (
            arith,
            lookup-insert k i slot s.key_to_row,
            lookup-insert k j slot s.key_to_row,
            h.apart i slot,
            h.apart j slot,
            h.single i j r,
            ==_iff k i,
            ==_iff k j,
            e,
            f,
            listed,
          );
          nulled = λ r e. ground (
            arith,
            get-write_row_at ops text s.table slot r values _ there,
            h.nulled r,
            e,
            top,
            once.0,
            nat_eq_iff slot r,
            kinds-kept ops text s.table slot values,
          );
          once = once.1;
        }

    abbrev pub grown : Str → StoreState F
    grown k = record s {
      table = append_row_owned ops text values s.table;
      key_to_row = insert k (length s.table.rows) s.key_to_row;
    }

    pub grown-IsSound :
        (k : Str) → lookup k s.key_to_row ≡ none → s.free_slots ≡ [] → IsSound (grown k)
    unfolding append_row_owned
    grown-IsSound k gone none_free =
        let n : ℕ = length s.table.rows in
        let longer =
          length-append s.table.rows
            (set_all ops text s.table.kinds values (null_row ops text s.table.kinds) ∷ []) in
        record {
          mapped = λ key r e.
              ground (arith, lookup-insert k key n s.key_to_row, h.mapped key r, e, longer);
          apart = λ key r e. ground (arith, none_free);
          single = λ i j r e f. ground (
            arith,
            lookup-insert k i n s.key_to_row,
            lookup-insert k j n s.key_to_row,
            h.mapped i n,
            h.mapped j n,
            h.single i j r,
            ==_iff k i,
            ==_iff k j,
            e,
            f,
          );
          nulled = λ r e. absurd (not_listed r e);
          once = h.once;
        }
      where
        not_listed : (r : ℕ) → contains r s.free_slots ≡ true → ⊥
        not_listed r e = ground (arith, none_free, e)

    pub freed-IsSound :
        (k : Str) (row : ℕ) (cells : List (Value F))
        → lookup k s.key_to_row ≡ some row
        → get_elem? s.table.rows row ≡ some cells
        → IsSound (free ops text k row s)
    unfolding free
    freed-IsSound k row cells found there = record {
      mapped = λ key r e. ground (
        arith,
        lookup-remove k key s.key_to_row,
        h.mapped key r,
        e,
        length-null_out_row ops text s.table row,
      );
      apart = λ key r e. ground (
        arith,
        lookup-remove k key s.key_to_row,
        h.apart key r,
        h.single k key r,
        ==_iff k key,
        found,
        nat_eq_iff row r,
        e,
      );
      single = λ i j r e f. ground (
        arith,
        lookup-remove k i s.key_to_row,
        lookup-remove k j s.key_to_row,
        h.single i j r,
        e,
        f,
      );
      nulled = λ r e. ground (
        arith,
        get-null_out_row ops text s.table row r cells there,
        h.nulled r,
        nat_eq_iff row r,
        kinds-kept ops text s.table row [],
        e,
      );
      once = (h.apart k row found, h.once);
    }
