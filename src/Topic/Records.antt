-- ===== src/Topic/Records.antt =====
-- Publications and deletions as changes of a map from keys to records (crates/cq-core/src/topic.rs).
use cqserver.Prelude.{
  ℕ, zero, suc, ◌<◌, ◌≡◌, refl, sym, subst, true, ltb, nat_eq_iff, Option, none, some, List, [],
  ◌∷◌, length, get_elem?, set, lookup, lookup-insert, lookup-remove, arith, if◌then◌else◌, list_eq,
  number_eq, ◌==◌, ==_iff, Option-cases, List-cases, inl, inr,
}
use cqserver.Predicate.Values.{Ops, Str, Value}
use cqserver.Subscription.RowSet.{contains}
use cqserver.Topic.Values.{TextOps}
use cqserver.Topic.Table.{set_all, set_present, null_row, append_row_owned}
use cqserver.Topic.State.{
  StoreState, compute_key_with, commit_values_locked, refresh, append, place, push_last_touched,
  free,
}
use cqserver.Topic.Slots.{
  record_of, IsSound, refresh-IsSound, reuse, reuse-IsSound, grown, grown-IsSound, freed-IsSound,
}
use cqserver.Topic.Cells.{get-update_row, get-write_row_at, get-null_out_row, get_elem?-append}

get_elem?-some :
    {A : Type 0} (xs : List A) (j : ℕ) → j < length xs → (a : A) × (get_elem? xs j ≡ some a)
get_elem?-some [] j h = absurd (omega arith)
get_elem?-some (x ∷ xs) zero h = (x, refl)
get_elem?-some (x ∷ xs) (suc j) h = get_elem?-some xs j (omega arith)

module _ {F R : Type 0} (ops : Ops F R) (text : TextOps F) where
  retimed :
      (touched : List ℕ) (s : StoreState F)
      → IsSound ops text s
      → IsSound ops text (record s { last_touched = touched })
  retimed touched s h = record {
    mapped = h.mapped;
    apart = h.apart;
    single = h.single;
    nulled = h.nulled;
    once = h.once;
  }

  -- A record after values were published for its key.
  abbrev pub published : List (Value F) → StoreState F → Option (List (Value F)) → List (Value F)
  published values s none = set_all ops text s.table.kinds values (null_row ops text s.table.kinds)
  published values s (some cells) = set_present ops text s.table.kinds values cells

  module _ (now : ℕ) (values : List (Value F)) (s : StoreState F) (h : IsSound ops text s)
      (k : Str) where
    abbrev Publishes : StoreState F → Type 0
    Publishes s' =
        IsSound ops text s'
        × ((j : Str)
            → record_of ops text s' j ≡ (
                if k == j
                then some (published values s (record_of ops text s k))
                else record_of ops text s j))

    refresh-Publishes :
        (row : ℕ) → lookup k s.key_to_row ≡ some row → Publishes (refresh ops text now row values s)
    unfolding refresh
    refresh-Publishes row found =
        let (cells, there) = get_elem?-some s.table.rows row (h.mapped k row found) in
        (
          refresh-IsSound ops text now values s h k row cells found there,
          λ j. elim (Option-cases (lookup j s.key_to_row)) [
            | inl gone ↦ ground (arith, gone, found, ==_iff k j)
            | inr (r, at) ↦ ground (
              arith,
              at,
              found,
              there,
              ==_iff k j,
              h.single k j r,
              get-update_row ops text s.table row r values cells there,
              nat_eq_iff row r,
            )
          ],
        )

    reuse-Publishes :
        (slot : ℕ) (slots : List ℕ)
        → lookup k s.key_to_row ≡ none
        → s.free_slots ≡ slot ∷ slots
        → Publishes (reuse ops text now values s h slot slots k)
    reuse-Publishes slot slots gone top =
        let listed : contains slot s.free_slots ≡ true = rw top (ground arith) in
        let there = h.nulled slot listed in
        (
          reuse-IsSound ops text now values s h k slot slots gone top,
          λ j. elim (Option-cases (lookup j s.key_to_row)) [
            | inl away ↦ ground (
              arith,
              away,
              gone,
              ==_iff k j,
              lookup-insert k j slot s.key_to_row,
              get-write_row_at ops text s.table slot slot values _ there,
            )
            | inr (r, at) ↦ ground (
              arith,
              at,
              gone,
              ==_iff k j,
              lookup-insert k j slot s.key_to_row,
              h.apart j r,
              listed,
              get-write_row_at ops text s.table slot r values _ there,
              nat_eq_iff slot r,
            )
          ],
        )

    grown-Publishes :
        lookup k s.key_to_row ≡ none
        → s.free_slots ≡ []
        → Publishes (grown ops text now values s h k)
    unfolding append_row_owned
    grown-Publishes gone none_free =
        let cells = set_all ops text s.table.kinds values (null_row ops text s.table.kinds) in
        (
          grown-IsSound ops text now values s h k gone none_free,
          λ j. elim (Option-cases (lookup j s.key_to_row)) [
            | inl away ↦ ground (
              arith,
              away,
              gone,
              ==_iff k j,
              lookup-insert k j (length s.table.rows) s.key_to_row,
              get_elem?-append s.table.rows cells (length s.table.rows),
            )
            | inr (r, at) ↦ ground (
              arith,
              at,
              gone,
              ==_iff k j,
              lookup-insert k j (length s.table.rows) s.key_to_row,
              h.mapped j r,
              get_elem?-append s.table.rows cells r,
            )
          ],
        )

    retime :
        (touched : List ℕ) (s' : StoreState F)
        → Publishes s'
        → Publishes (record s' { last_touched = touched })
    retime touched s' (sound, records) = (retimed touched s' sound, records)

    commit_grown :
        compute_key_with ops text values s.key_col_indices ≡ some k
        → lookup k s.key_to_row ≡ none
        → s.free_slots ≡ []
        → (commit_values_locked ops text now values s).0
          ≡ record (grown ops text now values s h k) {
            last_touched = push_last_touched ops text now (length s.table.rows) s.last_touched;
          }
    unfolding commit_values_locked place append
    commit_grown key gone none_free = ground (arith, key, gone, none_free)

    commit_reuse :
        (slot : ℕ) (slots : List ℕ)
        → compute_key_with ops text values s.key_col_indices ≡ some k
        → lookup k s.key_to_row ≡ none
        → s.free_slots ≡ slot ∷ slots
        → (commit_values_locked ops text now values s).0
          ≡ record (reuse ops text now values s h slot slots k) {
            last_touched =
                if ltb slot (length s.last_touched)
                then set s.last_touched slot now
                else push_last_touched ops text now slot s.last_touched;
          }
    unfolding commit_values_locked place
    commit_reuse slot slots key gone top = ground (arith, key, gone, top)

    commit_refresh :
        (row : ℕ)
        → compute_key_with ops text values s.key_col_indices ≡ some k
        → lookup k s.key_to_row ≡ some row
        → (commit_values_locked ops text now values s).0 ≡ refresh ops text now row values s
    unfolding commit_values_locked
    commit_refresh row key found = ground (arith, key, found)

    -- A commit of values that carry a key, to a sound state, whether the key is known, new in a free slot, or new
    -- at the end of the table: the state stays sound (keys have rows of their own, free rows are nulled
    -- and belong to no key); the record of the key holds the values that are not null over what it
    -- held, or the values in a fresh row; and the record of every other key is as it was.
    pub commit_lem :
        compute_key_with ops text values s.key_col_indices ≡ some k
        → let s' = (commit_values_locked ops text now values s).0 in
          IsSound ops text s'
          × ((j : Str)
              → record_of ops text s' j ≡ (
                  if k == j
                  then some (published values s (record_of ops text s k))
                  else record_of ops text s j))
    commit_lem key = elim (Option-cases (lookup k s.key_to_row)) [
      | inr (row, found) ↦
          subst Publishes (sym (commit_refresh row key found)) (refresh-Publishes row found)
      | inl gone ↦ elim (List-cases s.free_slots) [
        | inl none_free ↦
            subst Publishes (sym (commit_grown key gone none_free))
              (retime _ _ (grown-Publishes gone none_free))
        | inr (slot, slots, top) ↦
            subst Publishes (sym (commit_reuse slot slots key gone top))
              (retime _ _ (reuse-Publishes slot slots gone top))
      ]
    ]

  -- The deletion of a key frees its row: the state stays sound, the key has no record any more, and the
  -- record of every other key is as it was.
  pub free_lem :
      (s : StoreState F) (k : Str) (row : ℕ)
      → IsSound ops text s
      → lookup k s.key_to_row ≡ some row
      → IsSound ops text (free ops text k row s)
        × ((j : Str)
            → record_of ops text (free ops text k row s) j
              ≡ (if k == j then none else record_of ops text s j))
  unfolding free
  free_lem s k row h found =
      let (cells, there) = get_elem?-some s.table.rows row (h.mapped k row found) in
      (
        freed-IsSound ops text 0 [] s h k row cells found there,
        λ j. elim (Option-cases (lookup j s.key_to_row)) [
          | inl gone ↦ ground (arith, gone, found, ==_iff k j, lookup-remove k j s.key_to_row)
          | inr (r, at) ↦ ground (
            arith,
            at,
            found,
            ==_iff k j,
            lookup-remove k j s.key_to_row,
            h.single k j r,
            get-null_out_row ops text s.table row r cells there,
            nat_eq_iff row r,
          )
        ],
      )
