-- ===== src/Topic/Numbering.antt =====
-- The entries of a journal and the events for the evaluator, side by side
-- (crates/cq-core/src/topic.rs).
use cqserver.Prelude.{
  All, ℕ, ◌+◌, ◌≤◌, ◌<◌, ◌≡◌, refl, ◌∙◌, sym, ap, subst, Bool, Option, none, some, List, [], ◌∷◌,
  ◌++◌, map, arith, string_eq, list_eq, number_eq, Bool-cases, inl, inr,
}
use cqserver.Predicate.Values.{Ops, Str, Value}
use cqserver.Subscription.Rows.{JsonMap}
use cqserver.Subscription.State.{MutationKind, upsert, delete}
use cqserver.Topic.Values.{TextOps}
use cqserver.Topic.State.{
  MutationEvent, Payload, json, json_delta, tombstone, Entry, Topic, commit_values_locked,
}
use cqserver.Topic.Publishing.{
  delta_payload, append_with_origin, dispatch, write_store_with_changed, upsert_map,
  delta_upsert_keyed, delta_upsert_map, delete_row,
}
use cqserver.Topic.Sparse.{delta_upsert_map-cases}
use cqserver.Topic.Runs.{
  Allowed, publish, publish_delta, publish_batch, deletes, sweep, Op, run, run-kept,
}

-- Numbers that rise strictly, all above the one bound and at most the other.
abbrev pub Rising : ℕ → List ℕ → ℕ → Type 0
Rising lo [] hi = lo ≤ hi
Rising lo (n ∷ ns) hi = (lo < n) × Rising n ns hi

Rising-append :
    (lo : ℕ) (ns : List ℕ) (hi n : ℕ) → Rising lo ns hi → hi < n → Rising lo (ns ++ n ∷ []) n
Rising-append lo [] hi n rising above = (omega arith, omega arith)
Rising-append lo (m ∷ ns) hi n (first, rising) above = (first, Rising-append m ns hi n rising above)

Rising-le : (lo : ℕ) (ns : List ℕ) (hi n : ℕ) → Rising lo ns hi → hi ≤ n → Rising lo ns n
Rising-le lo [] hi n rising above = omega arith
Rising-le lo (m ∷ ns) hi n (first, rising) above = (first, Rising-le m ns hi n rising above)

map-append : {A B : Type 0} → (f : A → B) (xs ys : List A) → map f (xs ++ ys) ≡ map f xs ++ map f ys
map-append f [] ys = refl
map-append f (x ∷ xs) ys = ap (λ zs. f x ∷ zs) (map-append f xs ys)

abbrev pub kind_of : {F : Type 0} → Payload F → MutationKind
kind_of tombstone = delete
kind_of (json fields) = upsert
kind_of (json_delta fields) = upsert

abbrev pub of_entry : {F : Type 0} → Entry F → ℕ × MutationKind
of_entry e = (e.sequence, kind_of e.payload)

abbrev pub of_event : MutationEvent → ℕ × MutationKind
of_event v = (v.sequence, v.kind)

-- The journal and the events tell of the same mutations, with numbers that rise.
pub record IsNumbered {F : Type 0} (from : ℕ) (t : Topic F) : Type 0 where
  pub entries : List (Entry F)
  pub log : t.txlog ≡ some entries
  pub same : map of_entry entries ≡ map of_event t.events
  pub rising : Rising from (map (λ (v : MutationEvent). v.sequence) t.events) t.next_sequence

module _ {F R : Type 0} (ops : Ops F R) (text : TextOps F) where
  -- A step that takes a number and nothing else.
  failed-IsNumbered :
      (from : ℕ) (t t' : Topic F)
      → IsNumbered from t
      → t'.txlog ≡ t.txlog
      → t'.events ≡ t.events
      → t'.next_sequence ≡ t.next_sequence + 1
      → IsNumbered from t'
  failed-IsNumbered from t t' h log events next = record {
    entries = h.entries;
    log = log ∙ h.log;
    same = h.same ∙ ap (map of_event) (sym events);
    rising =
        rw (events, next)
          (Rising-le from (map (λ (v : MutationEvent). v.sequence) t.events) t.next_sequence
            (t.next_sequence + 1) h.rising (omega arith));
  }

  -- A step that writes an entry and sends its event.
  logged-IsNumbered :
      (from : ℕ) (t t' : Topic F) (e : Entry F) (v : MutationEvent) (h : IsNumbered from t)
      → of_entry e ≡ of_event v
      → v.sequence ≡ t.next_sequence + 1
      → t'.txlog ≡ some (h.entries ++ e ∷ [])
      → t'.events ≡ t.events ++ v ∷ []
      → t'.next_sequence ≡ t.next_sequence + 1
      → IsNumbered from t'
  logged-IsNumbered from t t' e v h alike number log events next = record {
    entries = h.entries ++ e ∷ [];
    log = log;
    same =
        map-append of_entry h.entries (e ∷ [])
        ∙ ap (λ xs. xs ++ of_entry e ∷ []) h.same
        ∙ ap (λ x. map of_event t.events ++ x ∷ []) alike
        ∙ sym (map-append of_event t.events (v ∷ []))
        ∙ ap (map of_event) (sym events);
    rising =
        subst
          (λ (vs : List MutationEvent).
            Rising from (map (λ (v : MutationEvent). v.sequence) vs) t'.next_sequence)
          (sym events)
          (subst (λ ns. Rising from ns t'.next_sequence)
            (sym (map-append (λ (v : MutationEvent). v.sequence) t.events (v ∷ [])))
            (subst
              (λ n.
                Rising from (map (λ (v : MutationEvent). v.sequence) t.events ++ v.sequence ∷ []) n)
              (number ∙ sym next)
              (Rising-append from (map (λ (v : MutationEvent). v.sequence) t.events) t.next_sequence
                v.sequence h.rising (omega arith))));
  }

  module _ (appends : ℕ → Bool) (from : ℕ) where
    write_store-IsNumbered :
        (now : ℕ) (values : List (Value F)) (key : Str) (payload : Payload F)
        (changed : Option (List ℕ)) (t : Topic F)
        → kind_of payload ≡ upsert
        → IsNumbered from t
        → IsNumbered from
            (write_store_with_changed ops text appends now values key payload changed t).0
    unfolding write_store_with_changed append_with_origin dispatch
    write_store-IsNumbered now values key payload changed t kind h =
        let t' : Topic F =
          (write_store_with_changed ops text appends now values key payload changed t).0 in
        elim (Bool-cases (appends (t.next_sequence + 1))) [
          | inr refused ↦
              failed-IsNumbered from t t' h (ground (arith, refused, h.log))
                (ground (arith, refused, h.log)) (ground (arith, refused, h.log))
          | inl taken ↦
              logged-IsNumbered from t t'
                (record {
                  sequence = t.next_sequence + 1;
                  key = key;
                  origin = t.origin_id;
                  payload = payload;
                })
                (record {
                  row = (commit_values_locked ops text now values t.state).1;
                  sequence = t.next_sequence + 1;
                  kind = upsert;
                  changed_cols = changed;
                })
                h (ap (λ k. (t.next_sequence + 1, k)) kind) refl (ground (arith, taken, h.log))
                (ground (arith, taken, h.log)) (ground (arith, taken, h.log))
        ]

    delete_row-IsNumbered :
        (key : Str) (row : ℕ) (t : Topic F)
        → IsNumbered from t
        → IsNumbered from (delete_row ops text appends key row t).0
    unfolding delete_row append_with_origin dispatch
    delete_row-IsNumbered key row t h =
        let t' : Topic F = (delete_row ops text appends key row t).0 in
        elim (Bool-cases (appends (t.next_sequence + 1))) [
          | inr refused ↦
              failed-IsNumbered from t t' h (ground (arith, refused, h.log))
                (ground (arith, refused, h.log)) (ground (arith, refused, h.log))
          | inl taken ↦
              logged-IsNumbered from t t'
                (record {
                  sequence = t.next_sequence + 1;
                  key = key;
                  origin = t.origin_id;
                  payload = tombstone;
                })
                (record {
                  row = row;
                  sequence = t.next_sequence + 1;
                  kind = delete;
                  changed_cols = none;
                })
                h refl refl (ground (arith, taken, h.log)) (ground (arith, taken, h.log))
                (ground (arith, taken, h.log))
        ]

    delta_payload-upsert :
        (values : List (Value F)) (fields : JsonMap F) (t : Topic F)
        → kind_of (delta_payload ops text appends values fields t) ≡ upsert
    unfolding delta_payload
    delta_payload-upsert values fields t = ground arith

    delta-IsNumbered :
        (now : ℕ) (fields : JsonMap F) (t : Topic F)
        → IsNumbered from t
        → IsNumbered from (delta_upsert_map ops text appends now fields t).0
    unfolding delta_upsert_keyed
    delta-IsNumbered now fields t h = elim (delta_upsert_map-cases ops text appends now fields t) [
      | inr refused ↦ subst (IsNumbered from) (sym refused) h
      | inl (key, has_key, eq) ↦
          subst (IsNumbered from) (sym eq)
            (write_store-IsNumbered now _ key _ _ t (delta_payload-upsert _ fields t) h)
    ]

    upsert-IsNumbered :
        (now : ℕ) (fields : JsonMap F) (t : Topic F)
        → IsNumbered from t
        → IsNumbered from (upsert_map ops text appends now fields t).0
    unfolding upsert_map
    upsert-IsNumbered now fields t h = write_store-IsNumbered now _ _ (json fields) none t refl h

  -- Sparse publications are allowed.
  Allowed-All : (more : List (Op ops text)) → All (Allowed ops text Unit) more
  Allowed-All [] = tt
  Allowed-All (publish now fields ∷ more) = (tt, Allowed-All more)
  Allowed-All (publish_delta now fields ∷ more) = (tt, Allowed-All more)
  Allowed-All (publish_batch now rows ∷ more) = (tt, Allowed-All more)
  Allowed-All (deletes key ∷ more) = (tt, Allowed-All more)
  Allowed-All (sweep now ∷ more) = (tt, Allowed-All more)

  -- After any publications, deletions and sweeps of a topic that started with an empty journal and no
  -- events, whichever entries the journal refuses: the journal's entries and the events that were sent tell
  -- of the same mutations, upserts or deletions, in the same order and under the same sequences; these
  -- rise strictly from above the one the topic started with to at most its last.
  pub run-IsNumbered :
      (appends : ℕ → Bool) (more : List (Op ops text)) (start : Topic F)
      → start.txlog ≡ some []
      → start.events ≡ []
      → IsNumbered start.next_sequence (run ops text appends more start)
  run-IsNumbered appends more start empty quiet =
      run-kept ops text appends Unit (IsNumbered start.next_sequence)
        (record {
          upserts = upsert-IsNumbered appends start.next_sequence;
          deltas =
              λ now fields t any h. delta-IsNumbered appends start.next_sequence now fields t h;
          frees = λ key row t found. delete_row-IsNumbered appends start.next_sequence key row t;
        })
        more start (Allowed-All more)
        (record {
          entries = [];
          log = empty;
          same = ap (map of_event) (sym quiet);
          rising = rw (quiet) (omega arith);
        })
