-- ===== src/Topic/Rebuilding.antt =====
-- A topic and one rebuilt from its journal (crates/cq-core/src/topic.rs).
use cqserver.Prelude.{
  ℕ, ◌+◌, ◌<◌, max, lookup-insert, Bool-cases, ◌≡◌, refl, ◌∙◌, sym, ap, subst, String, false, none,
  some, List, [], ◌∷◌, ◌++◌, lookup, arith, string_eq, list_eq, number_eq, ==_refl, inl, inr, ◌⊎◌,
}
use cqserver.Predicate.Values.{Ops, Str, Value}
use cqserver.Subscription.Rows.{JsonMap}
use cqserver.Topic.Values.{TextOps}
use cqserver.Topic.State.{
  StoreState, Entry, Topic, compute_key_from_map, commit_values_locked, refresh, append, place,
  free,
}
use cqserver.Topic.Merging.{map_values, merged_values}
use cqserver.Topic.Replay.{
  is_own, replay_is_duplicate, bump_sequence_to, replay_note_applied, replay_upsert_map_origin,
  replay_delta_map_origin, merge_delta, replay_delete_origin, replay_entry, recover,
}

-- The state without the times of the writes.
abbrev pub untimed : {F : Type 0} → StoreState F → StoreState F
untimed s = record s { last_touched = [] }

-- A topic has not seen the entries of an origin after the sequence `n`.
abbrev pub Unseen : {F : Type 0} → String → ℕ → Topic F → Type 0
Unseen origin n r = (m : ℕ) → n < m → replay_is_duplicate origin m r ≡ false

module _ {F : Type 0} where
  duplicate-noted :
      (origin : String) (n m : ℕ) (r : Topic F)
      → n < m
      → replay_is_duplicate origin m r ≡ false
      → replay_is_duplicate origin m (replay_note_applied origin n r) ≡ false
  unfolding replay_is_duplicate replay_note_applied bump_sequence_to
  duplicate-noted origin n m r later new = ground (
    arith,
    new,
    later,
    lookup-insert origin origin
        (max (elim (lookup origin r.replicated_highwater) as (λ _. ℕ) [ none ↦ 0 | some hw ↦ hw ])
          n)
        r.replicated_highwater,
    ==_refl origin,
  )

  note-kept :
      (origin : String) (n : ℕ) (r : Topic F)
      → ((replay_note_applied origin n r).columns ≡ r.columns)
        × ((replay_note_applied origin n r).key_fields ≡ r.key_fields)
        × ((replay_note_applied origin n r).state ≡ r.state)
  unfolding replay_note_applied bump_sequence_to
  note-kept origin n r = elim (Bool-cases (is_own origin r)) [
    | inl own ↦ rw (own) (refl, refl, refl)
    | inr foreign ↦ rw (foreign) (refl, refl, refl)
  ]

module _ {F R : Type 0} (ops : Ops F R) (text : TextOps F) where
  -- A commit at any time changes the rest of the state in the same way.
  commit-untimed :
      (now : ℕ) (values : List (Value F)) (s : StoreState F)
      → untimed (commit_values_locked ops text now values s).0
        ≡ untimed (commit_values_locked ops text 0 values (untimed s)).0
  unfolding commit_values_locked refresh append place
  commit-untimed now values s = ground arith

  pub commit-same :
      (now later : ℕ) (values : List (Value F)) (s s' : StoreState F)
      → untimed s ≡ untimed s'
      → untimed (commit_values_locked ops text now values s).0
        ≡ untimed (commit_values_locked ops text later values s').0
  commit-same now later values s s' same =
      commit-untimed now values s
      ∙ ap (λ (x : StoreState F). untimed (commit_values_locked ops text 0 values x).0) same
      ∙ sym (commit-untimed later values s')

  -- A topic and one rebuilt from its journal.
  pub record Agrees (t r : Topic F) : Type 0 where
    pub columns : r.columns ≡ t.columns
    pub key_fields : r.key_fields ≡ t.key_fields
    pub state : untimed t.state ≡ untimed r.state
    pub unseen : Unseen t.origin_id t.next_sequence r

  not_duplicate :
      (t r : Topic F) → Agrees t r → replay_is_duplicate t.origin_id (t.next_sequence + 1) r ≡ false
  not_duplicate t r a = a.unseen (t.next_sequence + 1) (omega arith)

  -- A step of the topic and the replay of the entry that it wrote.
  step-Agrees :
      (t r : Topic F) (state state' : StoreState F)
      → Agrees t r
      → untimed state ≡ untimed state'
      → Agrees
          (record t { state = state; next_sequence = t.next_sequence + 1 })
          (replay_note_applied t.origin_id (t.next_sequence + 1) (record r { state = state' }))
  unfolding replay_is_duplicate
  step-Agrees t r state state' a same =
      let noted : Topic F = record r { state = state' } in
      let (columns, key_fields, kept) = note-kept t.origin_id (t.next_sequence + 1) noted in
      record {
        columns = columns ∙ a.columns;
        key_fields = key_fields ∙ a.key_fields;
        state = same ∙ ap untimed (sym kept);
        unseen = λ m later.
            duplicate-noted t.origin_id (t.next_sequence + 1) m noted later
              (a.unseen m (omega arith));
      }

  recover-append :
      (later : ℕ) (es : List (Entry F)) (e : Entry F) (start : Topic F)
      → recover ops text later (es ++ e ∷ []) start
        ≡ replay_entry ops text later e (recover ops text later es start)
  unfolding recover
  recover-append later [] e start = refl
  recover-append later (d ∷ es) e start =
      recover-append later es e (replay_entry ops text later d start)

  module _ (later : ℕ) where
    pub replay_upsert_lem :
        (t r : Topic F) (fields : JsonMap F)
        → Agrees t r
        → replay_upsert_map_origin ops text later t.origin_id (t.next_sequence + 1) fields r
          ≡ replay_note_applied t.origin_id (t.next_sequence + 1) (record r {
            state =
                (commit_values_locked ops text later
                  (map_values ops text r.columns fields)
                  r.state).0;
          })
    unfolding replay_upsert_map_origin
    replay_upsert_lem t r fields a = rw (not_duplicate t r a) refl

    pub replay_delete_lem :
        (t r : Topic F) (key : Str) (row : ℕ)
        → Agrees t r
        → lookup key r.state.key_to_row ≡ some row
        → replay_delete_origin ops text t.origin_id (t.next_sequence + 1) key r
          ≡ replay_note_applied t.origin_id
              (t.next_sequence + 1)
              (record r { state = free ops text key row r.state })
    unfolding replay_delete_origin
    replay_delete_lem t r key row a found = rw (not_duplicate t r a, found) refl

    pub free-same :
        (key : Str) (row : ℕ) (s s' : StoreState F)
        → untimed s ≡ untimed s'
        → untimed (free ops text key row s) ≡ untimed (free ops text key row s')
    unfolding free
    free-same key row s s' same = ap (λ (x : StoreState F). untimed (free ops text key row x)) same

    pub merge_delta-same :
        (now : ℕ) (key : Str) (fields : JsonMap F) (t r : Topic F)
        → Agrees t r
        → untimed
            (commit_values_locked ops text now
              (merged_values ops text t.state.table
                (lookup key t.state.key_to_row)
                fields
                0
                t.columns)
              t.state).0
          ≡ untimed (merge_delta ops text later key fields r)
    unfolding merge_delta
    merge_delta-same now key fields t r a =
        commit-same now later _ t.state r.state a.state
        ∙ ap
            (λ (s : StoreState F).
              untimed
                (commit_values_locked ops text later
                  (merged_values ops text s.table (lookup key s.key_to_row) fields 0 t.columns)
                  r.state).0)
            a.state
        ∙ ap
            (λ cs.
              untimed
                (commit_values_locked ops text later
                  (merged_values ops text r.state.table (lookup key r.state.key_to_row) fields 0 cs)
                  r.state).0)
            (sym a.columns)

    pub replay_delta_lem :
        (t r : Topic F) (fields : JsonMap F) (key : Str)
        → Agrees t r
        → ((compute_key_from_map ops text t.key_fields fields ≡ some key)
            ⊎ ((compute_key_from_map ops text t.key_fields fields ≡ none)
                × (t.key_fields ≡ [])
                × (key ≡ [])))
        → replay_delta_map_origin ops text later t.origin_id (t.next_sequence + 1) fields r
          ≡ replay_note_applied t.origin_id
              (t.next_sequence + 1)
              (record r { state = merge_delta ops text later key fields r })
    unfolding replay_delta_map_origin
    replay_delta_lem t r fields key a (inl found) =
        let found' : compute_key_from_map ops text r.key_fields fields ≡ some key =
          ap (λ names. compute_key_from_map ops text names fields) a.key_fields ∙ found in
        rw (not_duplicate t r a, found') refl
    replay_delta_lem t r fields key a (inr (gone, keyless, empty)) =
        let gone' : compute_key_from_map ops text r.key_fields fields ≡ none =
          ap (λ names. compute_key_from_map ops text names fields) a.key_fields ∙ gone in
        let keyless' : r.key_fields ≡ [] = a.key_fields ∙ keyless in
        ground (arith, not_duplicate t r a, gone', keyless')

  module _ (later : ℕ) (start : Topic F) where
    -- The journal rebuilds the topic from where it started.
    pub record IsRecoverable (t : Topic F) : Type 0 where
      pub entries : List (Entry F)
      pub log : t.txlog ≡ some entries
      pub rebuilt : Agrees t (recover ops text later entries start)

    -- A step that journals an entry whose replay does the same.
    pub journal-IsRecoverable :
        (t : Topic F) (h : IsRecoverable t) (e : Entry F) (state state' : StoreState F)
        (t' : Topic F)
        → untimed state ≡ untimed state'
        → replay_entry ops text later e (recover ops text later h.entries start)
          ≡ replay_note_applied t.origin_id
              (t.next_sequence + 1)
              (record (recover ops text later h.entries start) { state = state' })
        → t'.txlog ≡ some (h.entries ++ e ∷ [])
        → (t'.columns ≡ t.columns)
          × (t'.key_fields ≡ t.key_fields)
          × (t'.origin_id ≡ t.origin_id)
          × (t'.state ≡ state)
          × (t'.next_sequence ≡ t.next_sequence + 1)
        → IsRecoverable t'
    journal-IsRecoverable t h e state state' t' same replayed logged fields =
        let r = recover ops text later h.entries start in
        let a : Agrees (record t { state = state; next_sequence = t.next_sequence + 1 })
            (recover ops text later (h.entries ++ e ∷ []) start) =
          subst (Agrees _) (sym (recover-append later h.entries e start ∙ replayed))
            (step-Agrees t r state state' h.rebuilt same) in
        record {
          entries = h.entries ++ e ∷ [];
          log = logged;
          rebuilt = record {
            columns = a.columns ∙ sym fields.0;
            key_fields = a.key_fields ∙ sym fields.1;
            state = ap untimed fields.3 ∙ a.state;
            unseen = λ m later_m. rw (fields.2) (a.unseen m (subst (λ n. n < m) fields.4 later_m));
          };
        }
