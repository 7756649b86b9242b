-- ===== src/Topic/Writes.antt =====
-- Sequences of commits and deletions as changes of a map from keys to records
-- (crates/cq-core/src/topic.rs).
use cqserver.Prelude.{
  ℕ, ◌≡◌, refl, ◌∙◌, ap, subst, Option, none, some, List, [], ◌∷◌, lookup, arith, if◌then◌else◌,
  list_eq, number_eq, ◌==◌, ==_iff, Option-cases, inl, inr,
}
use cqserver.Predicate.Values.{Ops, Str, Value, ColumnType}
use cqserver.Topic.Values.{TextOps}
use cqserver.Topic.Table.{
  set_all, set_present, null_row, append_row_owned, write_row_at, update_row, null_out_row,
}
use cqserver.Topic.State.{
  StoreState, compute_key_with, commit_values_locked, refresh, append, place, free,
}
use cqserver.Topic.Slots.{record_of, IsSound}
use cqserver.Topic.Records.{published, commit_lem, free_lem}

-- The commit of values at a time, and the deletion of a key.
pub data Write (F : Type 0) : Type 0 where
  commits : ℕ → List (Value F) → Write F
  frees : Str → Write F

-- The records by their keys.
abbrev pub Records : Type 0 → Type 0
Records F = Str → Option (List (Value F))

module _ {F R : Type 0} (ops : Ops F R) (text : TextOps F) where
  abbrev pub perform : Write F → StoreState F → StoreState F
  perform (commits now values) s = (commit_values_locked ops text now values s).0
  perform (frees key) s = elim (lookup key s.key_to_row) [
    | none ↦ s
    | some row ↦ free ops text key row s
  ]

  abbrev pub perform_all : List (Write F) → StoreState F → StoreState F
  perform_all [] s = s
  perform_all (w ∷ ws) s = perform_all ws (perform w s)

  -- A record after values were published for its key.
  abbrev pub publish_on :
      List ColumnType → List (Value F) → Option (List (Value F)) → List (Value F)
  publish_on kinds values none = set_all ops text kinds values (null_row ops text kinds)
  publish_on kinds values (some cells) = set_present ops text kinds values cells

  abbrev pub change : List ColumnType → List ℕ → Write F → Records F → Records F
  change kinds cols (commits now values) m j = elim (compute_key_with ops text values cols) [
    | none ↦ m j
    | some k ↦ if k == j then some (publish_on kinds values (m k)) else m j
  ]
  change kinds cols (frees key) m j = if key == j then none else m j

  abbrev pub change_all : List ColumnType → List ℕ → List (Write F) → Records F → Records F
  change_all kinds cols [] m = m
  change_all kinds cols (w ∷ ws) m = change_all kinds cols ws (change kinds cols w m)

  -- All commits carry a key.
  abbrev pub Keyed : List ℕ → List (Write F) → Type 0
  Keyed cols [] = Unit
  Keyed cols (commits now values ∷ ws) =
      ((key : Str) × (compute_key_with ops text values cols ≡ some key)) × Keyed cols ws
  Keyed cols (frees key ∷ ws) = Keyed cols ws

  commits-kinds :
      (now : ℕ) (values : List (Value F)) (s : StoreState F)
      → ((commit_values_locked ops text now values s).0.table.kinds ≡ s.table.kinds)
        × ((commit_values_locked ops text now values s).0.key_col_indices ≡ s.key_col_indices)
  unfolding commit_values_locked refresh append place update_row write_row_at append_row_owned
  commits-kinds now values s = (ground arith, ground arith)

  free-kinds :
      (key : Str) (row : ℕ) (s : StoreState F)
      → ((free ops text key row s).table.kinds ≡ s.table.kinds)
        × ((free ops text key row s).key_col_indices ≡ s.key_col_indices)
  unfolding free null_out_row
  free-kinds key row s = (ground arith, refl)

  -- A state and the records that it stands for.
  pub record Holds (kinds : List ColumnType) (cols : List ℕ) (s : StoreState F) (m : Records F)
      : Type 0 where
    pub sound : IsSound ops text s
    pub same_kinds : s.table.kinds ≡ kinds
    pub same_cols : s.key_col_indices ≡ cols
    pub records : (j : Str) → record_of ops text s j ≡ m j

  published_lem :
      (kinds : List ColumnType) (values : List (Value F)) (s : StoreState F)
      (old new : Option (List (Value F)))
      → s.table.kinds ≡ kinds
      → old ≡ new
      → published ops text values s old ≡ publish_on kinds values new
  published_lem kinds values s old new same e =
      subst (λ o. published ops text values s old ≡ publish_on kinds values o) e
        (elim (Option-cases old) [
          | inl gone ↦ rw (gone) (ap (λ ks. set_all ops text ks values (null_row ops text ks)) same)
          | inr (cells, there) ↦ rw (there) (ap (λ ks. set_present ops text ks values cells) same)
        ])

  commits-Holds :
      (kinds : List ColumnType) (cols : List ℕ) (now : ℕ) (values : List (Value F)) (key : Str)
      (s : StoreState F) (m : Records F)
      → compute_key_with ops text values cols ≡ some key
      → Holds kinds cols s m
      → Holds kinds cols (perform (commits now values) s) (change kinds cols (commits now values) m)
  commits-Holds kinds cols now values key s m keyed h =
      let keyed' : compute_key_with ops text values s.key_col_indices ≡ some key =
        ap (compute_key_with ops text values) h.same_cols ∙ keyed in
      let (sound, records) = commit_lem ops text now values s h.sound key keyed' in
      let (kept, kept') = commits-kinds now values s in
      let new =
        published_lem kinds values s (record_of ops text s key) (m key) h.same_kinds
          (h.records key) in
      record {
        sound = sound;
        same_kinds = kept ∙ h.same_kinds;
        same_cols = kept' ∙ h.same_cols;
        records = λ j. records j ∙ ground (arith, keyed, new, h.records j);
      }

  frees-Holds :
      (kinds : List ColumnType) (cols : List ℕ) (key : Str) (s : StoreState F) (m : Records F)
      → Holds kinds cols s m
      → Holds kinds cols (perform (frees key) s) (change kinds cols (frees key) m)
  frees-Holds kinds cols key s m h = elim (Option-cases (lookup key s.key_to_row)) [
    | inr (row, found) ↦
        let (sound, records) = free_lem ops text s key row h.sound found in
        let (kept, kept') = free-kinds key row s in
        rw (found, perform)
          (record {
            sound = sound;
            same_kinds = kept ∙ h.same_kinds;
            same_cols = kept' ∙ h.same_cols;
            records = λ j. records j ∙ ground (arith, h.records j);
          })
    | inl gone ↦
        rw (gone, perform)
          (record {
            sound = h.sound;
            same_kinds = h.same_kinds;
            same_cols = h.same_cols;
            records = λ j. ground (arith, gone, h.records j, h.records key, ==_iff key j);
          })
  ]

  perform_all-Mirrors :
      (kinds : List ColumnType) (cols : List ℕ) (ws : List (Write F)) (s : StoreState F)
      (m : Records F)
      → Keyed cols ws
      → Holds kinds cols s m
      → Holds kinds cols (perform_all ws s) (change_all kinds cols ws m)
  perform_all-Mirrors kinds cols [] s m keyed h = h
  perform_all-Mirrors kinds cols (commits now values ∷ ws) s m ((key, found), keyed) h =
      perform_all-Mirrors kinds cols ws _ _ keyed
        (commits-Holds kinds cols now values key s m found h)
  perform_all-Mirrors kinds cols (frees key ∷ ws) s m keyed h =
      perform_all-Mirrors kinds cols ws _ _ keyed (frees-Holds kinds cols key s m h)

  -- Commits of values that carry a key, and deletions, of any number and in any order, to a sound
  -- state: the state that results is sound (keys have rows of their own in the table, free rows are nulled, free
  -- once, and belong to no key), and its records by key are those of the map: a commit for a new key
  -- makes a fresh record of its values, a commit for a known key writes those that are not null over the record,
  -- a deletion removes the record, and neither touches the other keys, whichever row it uses.
  pub perform_all-Holds :
      (ws : List (Write F)) (s : StoreState F)
      → Keyed s.key_col_indices ws
      → IsSound ops text s
      → IsSound ops text (perform_all ws s)
        × ((j : Str)
            → record_of ops text (perform_all ws s) j
              ≡ change_all s.table.kinds s.key_col_indices ws (record_of ops text s) j)
  perform_all-Holds ws s keyed sound =
      let h =
        perform_all-Mirrors s.table.kinds s.key_col_indices ws s (record_of ops text s) keyed
          (record { sound = sound; same_kinds = refl; same_cols = refl; records = λ j. refl }) in
      (h.sound, h.records)
