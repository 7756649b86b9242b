-- ===== src/Topic/Redelivery.antt =====
-- Entries of a journal that are delivered to a topic more than once
-- (crates/cq-core/src/topic.rs).
use mathlib.Core.List.{Memᴰ}
use cqserver.Prelude.{
  ℕ, ◌<◌, ◌≡◌, refl, ◌∙◌, sym, ap, subst, String, max, true, false, none, some, List, [], ◌∷◌, All,
  lookup, lookup-insert, arith, string_eq, list_eq, number_eq, ==_refl, ==_iff, Bool-cases,
  Option-cases, List-cases, inl, inr, ◌⊎◌,
}
use cqserver.Predicate.Values.{Ops}
use cqserver.Subscription.Rows.{JsonMap}
use cqserver.Topic.Values.{TextOps}
use cqserver.Topic.State.{
  StoreState, Payload, json, json_delta, tombstone, Entry, Topic, compute_key_from_map,
  commit_values_locked, free,
}
use cqserver.Topic.Merging.{map_values}
use cqserver.Topic.Replay.{
  is_own, replay_is_duplicate, bump_sequence_to, replay_note_applied, replay_upsert_map_origin,
  replay_delta_map_origin, merge_delta, replay_delete_origin, replay_entry, recover,
}

module _ {F : Type 0} where
  note-duplicate :
      (origin : String) (sequence : ℕ) (t : Topic F)
      → 0 < sequence
      → replay_is_duplicate origin sequence (replay_note_applied origin sequence t) ≡ true
  unfolding replay_is_duplicate replay_note_applied bump_sequence_to
  note-duplicate origin sequence t positive = ground (
    arith,
    lookup-insert origin origin
        (max (elim (lookup origin t.replicated_highwater) as (λ _. ℕ) [ none ↦ 0 | some hw ↦ hw ])
          sequence)
        t.replicated_highwater,
    ==_refl origin,
  )

  -- A mark only rises.
  duplicate-note :
      (origin other : String) (sequence n : ℕ) (t : Topic F)
      → replay_is_duplicate origin sequence t ≡ true
      → replay_is_duplicate origin sequence (replay_note_applied other n t) ≡ true
  unfolding replay_is_duplicate replay_note_applied bump_sequence_to
  duplicate-note origin other sequence n t seen = ground (
    arith,
    seen,
    ==_iff other origin,
    lookup-insert other origin
        (max (elim (lookup other t.replicated_highwater) as (λ _. ℕ) [ none ↦ 0 | some hw ↦ hw ]) n)
        t.replicated_highwater,
  )

module _ {F : Type 0} where
  Payload-cases :
      (p : Payload F)
      → ((fields : JsonMap F) × (p ≡ json fields))
        ⊎ (((fields : JsonMap F) × (p ≡ json_delta fields)) ⊎ (p ≡ tombstone))
  Payload-cases (json fields) = inl (fields, refl)
  Payload-cases (json_delta fields) = inr (inl (fields, refl))
  Payload-cases tombstone = inr (inr refl)

module _ {F R : Type 0} (ops : Ops F R) (text : TextOps F) where
  -- A sparse entry without the key of a keyed topic.
  abbrev pub IsSkipped : Topic F → Entry F → Type 0
  IsSkipped t e =
      (fields : JsonMap F) × (name : String) × (names : List String) × (e.payload
        ≡ json_delta fields)
      × (t.key_fields ≡ name ∷ names)
      × (compute_key_from_map ops text t.key_fields fields ≡ none)

  abbrev pub IsAbsorbed : Topic F → Entry F → Type 0
  IsAbsorbed t e = (replay_is_duplicate e.origin e.sequence t ≡ true) ⊎ IsSkipped t e

  replay_absorbed :
      (now : ℕ) (t : Topic F) (e : Entry F) → IsAbsorbed t e → replay_entry ops text now e t ≡ t
  unfolding replay_entry replay_upsert_map_origin replay_delta_map_origin replay_delete_origin
  replay_absorbed now t e (inl seen) = ground (arith, seen)
  replay_absorbed now t e (inr (fields, name, names, sparse, keyed, keyless)) =
      ground (arith, sparse, keyed, keyless)

  upsert-fresh :
      (now : ℕ) (t : Topic F) (e : Entry F) (fields : JsonMap F)
      → replay_is_duplicate e.origin e.sequence t ≡ false
      → replay_upsert_map_origin ops text now e.origin e.sequence fields t
        ≡ replay_note_applied e.origin e.sequence (record t {
          state =
              (commit_values_locked ops text now (map_values ops text t.columns fields) t.state).0;
        })
  unfolding replay_upsert_map_origin
  upsert-fresh now t e fields new = rw (new) refl

  delete-fresh :
      (t : Topic F) (e : Entry F)
      → replay_is_duplicate e.origin e.sequence t ≡ false
      → (state : StoreState F) × (replay_delete_origin ops text e.origin e.sequence e.key t
          ≡ replay_note_applied e.origin e.sequence (record t { state = state }))
  unfolding replay_delete_origin
  delete-fresh t e new = (
    elim (lookup e.key t.state.key_to_row) as (λ _. StoreState F) [
      | none ↦ t.state
      | some row ↦ free ops text e.key row t.state
    ],
    rw (new) refl,
  )

  delta-fresh :
      (now : ℕ) (t : Topic F) (e : Entry F) (fields : JsonMap F)
      → replay_is_duplicate e.origin e.sequence t ≡ false
      → ((name : String) × (names : List String) × (t.key_fields ≡ name ∷ names)
          × (compute_key_from_map ops text t.key_fields fields ≡ none))
        ⊎ ((state : StoreState F) × (replay_delta_map_origin ops text now e.origin e.sequence fields
                t
              ≡ replay_note_applied e.origin e.sequence (record t { state = state })))
  unfolding replay_delta_map_origin
  delta-fresh now t e fields new =
      elim (Option-cases (compute_key_from_map ops text t.key_fields fields)) [
        | inr (key, found) ↦ inr (merge_delta ops text now key fields t, ground (arith, new, found))
        | inl gone ↦ elim (List-cases t.key_fields) [
          | inl keyless ↦
              inr (merge_delta ops text now [] fields t, ground (arith, new, gone, keyless))
          | inr (name, names, keyed) ↦ inl (name, names, keyed, gone)
        ]
      ]

  fresh :
      (now : ℕ) (t : Topic F) (e : Entry F)
      → replay_is_duplicate e.origin e.sequence t ≡ false
      → IsAbsorbed t e
        ⊎ ((state : StoreState F) × (replay_entry ops text now e t
              ≡ replay_note_applied e.origin e.sequence (record t { state = state })))
  unfolding replay_entry
  fresh now t e new = elim (Payload-cases e.payload) [
    | inl (fields, full) ↦ inr (
      (commit_values_locked ops text now (map_values ops text t.columns fields) t.state).0,
      rw (full) (upsert-fresh now t e fields new),
    )
    | inr other ↦ elim other [
      | inr gone ↦
          (let opened : replay_entry ops text now e t
                ≡ replay_delete_origin ops text e.origin e.sequence e.key t =
              ground (arith, gone) in
            let (state, eq) = delete-fresh t e new in inr (state, opened ∙ eq))
      | inl (fields, sparse) ↦ elim (delta-fresh now t e fields new) [
        | inl (name, names, keyed, keyless) ↦
            inl (inr (fields, name, names, sparse, keyed, keyless))
        | inr (state, eq) ↦ inr (state, rw (sparse) eq)
      ]
    ]
  ]

  -- A replay does nothing, or changes the state and notes the sequence.
  replay-cases :
      (now : ℕ) (t : Topic F) (e : Entry F)
      → IsAbsorbed t e
        ⊎ ((state : StoreState F) × (replay_entry ops text now e t
              ≡ replay_note_applied e.origin e.sequence (record t { state = state })))
  unfolding replay_entry replay_upsert_map_origin replay_delta_map_origin replay_delete_origin
  replay-cases now t e = elim (Bool-cases (replay_is_duplicate e.origin e.sequence t)) [
    | inl seen ↦ inl (inl seen)
    | inr new ↦ fresh now t e new
  ]

  noted-IsAbsorbed :
      (origin : String) (n : ℕ) (t : Topic F) (e : Entry F)
      → IsAbsorbed t e
      → IsAbsorbed (replay_note_applied origin n t) e
  unfolding replay_note_applied bump_sequence_to
  noted-IsAbsorbed origin n t e (inl seen) =
      inl (duplicate-note e.origin origin e.sequence n t seen)
  noted-IsAbsorbed origin n t e (inr skipped) = inr (elim (Bool-cases (is_own origin t)) [
    | inl own ↦ rw (own) skipped
    | inr foreign ↦ rw (foreign) skipped
  ])

  -- What is absorbed stays so.
  replay_entry-IsAbsorbed :
      (now : ℕ) (t : Topic F) (d e : Entry F)
      → IsAbsorbed t e
      → IsAbsorbed (replay_entry ops text now d t) e
  unfolding replay_is_duplicate
  replay_entry-IsAbsorbed now t d e absorbed = elim (replay-cases now t d) [
    | inl idle ↦
        subst (λ (x : Topic F). IsAbsorbed x e) (sym (replay_absorbed now t d idle)) absorbed
    | inr (state, eq) ↦
        subst (λ (x : Topic F). IsAbsorbed x e) (sym eq)
          (noted-IsAbsorbed d.origin d.sequence (record t { state = state }) e absorbed)
  ]

  replayed-IsAbsorbed :
      (now : ℕ) (t : Topic F) (e : Entry F)
      → 0 < e.sequence
      → IsAbsorbed (replay_entry ops text now e t) e
  replayed-IsAbsorbed now t e positive = elim (replay-cases now t e) [
    | inl idle ↦ subst (λ (x : Topic F). IsAbsorbed x e) (sym (replay_absorbed now t e idle)) idle
    | inr (state, eq) ↦
        subst (λ (x : Topic F). IsAbsorbed x e) (sym eq)
          (inl (note-duplicate e.origin e.sequence (record t { state = state }) positive))
  ]

  recover-IsAbsorbed :
      (now : ℕ) (es : List (Entry F)) (t : Topic F) (e : Entry F)
      → IsAbsorbed t e
      → IsAbsorbed (recover ops text now es t) e
  unfolding recover
  recover-IsAbsorbed now [] t e absorbed = absorbed
  recover-IsAbsorbed now (d ∷ es) t e absorbed =
      recover-IsAbsorbed now es (replay_entry ops text now d t) e
        (replay_entry-IsAbsorbed now t d e absorbed)

  recovered-IsAbsorbed :
      (now : ℕ) (es : List (Entry F)) (t : Topic F) (e : Entry F)
      → 0 < e.sequence
      → Memᴰ e es
      → IsAbsorbed (recover ops text now es t) e
  unfolding recover
  recovered-IsAbsorbed now [] t e positive member = elim member [ ]
  recovered-IsAbsorbed now (d ∷ es) t e positive (Memᴰ.head same) =
      recover-IsAbsorbed now es (replay_entry ops text now d t) e (
        subst (λ (x : Entry F). IsAbsorbed (replay_entry ops text now x t) e) same
          (replayed-IsAbsorbed now t e positive))
  recovered-IsAbsorbed now (d ∷ es) t e positive (Memᴰ.tail rest) =
      recovered-IsAbsorbed now es (replay_entry ops text now d t) e positive rest

  -- Entries of any origins, with sequences that are not zero, have been replayed into a topic. When any of them
  -- come again, in any order and as often as one likes, as from overlapping paths of
  -- replication or a second recovery, nothing changes: not the table, not the marks, not the times.
  pub recover-again :
      (now later : ℕ) (es again : List (Entry F)) (t : Topic F)
      → All (λ (e : Entry F). (0 < e.sequence) × Memᴰ e es) again
      → recover ops text later again (recover ops text now es t) ≡ recover ops text now es t
  unfolding recover
  recover-again now later es [] t known = refl
  recover-again now later es (e ∷ again) t ((positive, member), known) =
      ap (recover ops text later again) (
        replay_absorbed later (recover ops text now es t) e
          (recovered-IsAbsorbed now es t e positive member))
      ∙ recover-again now later es again t known
