-- ===== src/Topic/Runs.antt =====
-- What every operation of a topic keeps, when the writes of a row keep it
-- (crates/cq-core/src/topic.rs).
use cqserver.Prelude.{
  All, ℕ, ◌≡◌, sym, subst, ltb, Bool, some, List, [], ◌∷◌, lookup, arith, string_eq, list_eq,
  number_eq, Bool-cases, Option-cases, inl, inr, Result-cases, get_elem?, ◌-◌,
}
use cqserver.Predicate.Values.{Ops, Str}
use cqserver.Subscription.Rows.{JsonMap}
use cqserver.Topic.Values.{TextOps}
use cqserver.Topic.State.{Topic}
use cqserver.Topic.Publishing.{
  upsert_map, delta_upsert_map, delete_key, delete_if_still_expired, expire_keys, candidates,
  sweep_expired, upsert_map_batch, delete_row,
}

module _ {F R : Type 0} (ops : Ops F R) (text : TextOps F) where
  -- What is done to a topic; the numbers are the times.
  pub data Op : Type 0 where
    publish publish_delta : ℕ → JsonMap F → Op
    publish_batch : ℕ → List (JsonMap F) → Op
    deletes : Str → Op
    sweep : ℕ → Op

  abbrev pub perform : (ℕ → Bool) → Op → Topic F → Topic F
  perform appends (publish now fields) t = (upsert_map ops text appends now fields t).0
  perform appends (publish_delta now fields) t = (delta_upsert_map ops text appends now fields t).0
  perform appends (publish_batch now rows) t = (upsert_map_batch ops text appends now rows t).0
  perform appends (deletes key) t = (delete_key ops text appends key t).0
  perform appends (sweep now) t = (sweep_expired ops text appends now t).0

  unfoldable pub run : (ℕ → Bool) → List Op → Topic F → Topic F
  run appends [] t = t
  run appends (op ∷ more) t = run appends more (perform appends op t)

  -- Sparse publications only where `Sparse` holds.
  abbrev pub Allowed : Type 0 → Op → Type 0
  Allowed Sparse (publish_delta now fields) = Sparse
  Allowed Sparse op = Unit

  -- A predicate that the publication of a row and the deletion of a key's row keep.
  pub record IsKept (appends : ℕ → Bool) (Sparse : Type 0) (P : Topic F → Type 0) : Type 0 where
    pub upserts :
        (now : ℕ) (fields : JsonMap F) (t : Topic F)
        → P t
        → P (upsert_map ops text appends now fields t).0
    pub deltas :
        (now : ℕ) (fields : JsonMap F) (t : Topic F)
        → Sparse
        → P t
        → P (delta_upsert_map ops text appends now fields t).0
    pub frees :
        (key : Str) (row : ℕ) (t : Topic F)
        → lookup key t.state.key_to_row ≡ some row
        → P t
        → P (delete_row ops text appends key row t).0

  module _ (appends : ℕ → Bool) (Sparse : Type 0) (P : Topic F → Type 0)
      (kept : IsKept appends Sparse P) where
    expire-kept :
        (key : Str) (ttl observed_at : ℕ) (t : Topic F)
        → P t
        → P (delete_if_still_expired ops text appends key ttl observed_at t).0
    unfolding delete_if_still_expired
    expire-kept key ttl observed_at t h = elim (Option-cases (lookup key t.state.key_to_row)) [
      | inl gone ↦ rw (gone, delete_if_still_expired) h
      | inr (row, found) ↦ elim (Option-cases (get_elem? t.state.last_touched row)) [
        | inl never ↦ rw (found, delete_if_still_expired, never) h
        | inr (touched, at) ↦ elim (Bool-cases (ltb observed_at touched)) [
          | inl newer ↦ rw (found, delete_if_still_expired, at, newer) h
          | inr older ↦ elim (Bool-cases (ltb (observed_at - touched) ttl)) [
            | inl young ↦ rw (found, delete_if_still_expired, at, older, young) h
            | inr old ↦
                rw (found, delete_if_still_expired, at, older, old) (kept.frees key row t found h)
          ]
        ]
      ]
    ]

    expire_keys-kept :
        (ttl now : ℕ) (keys : List Str) (t : Topic F)
        → P t
        → P (expire_keys ops text appends ttl now keys t).0
    unfolding expire_keys
    expire_keys-kept ttl now [] t h = h
    expire_keys-kept ttl now (k ∷ ks) t h =
        let first = expire-kept k ttl now t h in
        elim (Result-cases (delete_if_still_expired ops text appends k ttl now t).1) [
          | inl (gone, e) ↦
              rw (e, expire_keys)
                (expire_keys-kept ttl now ks
                  (delete_if_still_expired ops text appends k ttl now t).0 first)
          | inr (failed, e) ↦ rw (e, expire_keys) first
        ]

    sweep_lem :
        (now ttl : ℕ) (t : Topic F)
        → t.expire_seconds ≡ some ttl
        → (sweep_expired ops text appends now t).0
          ≡ (expire_keys ops text appends ttl now
              (candidates ops text appends ttl now t.state.last_touched t.state.key_to_row)
              t).0
    unfolding sweep_expired
    sweep_lem now ttl t limit = ground (arith, limit)

    sweep_expired-kept : (now : ℕ) (t : Topic F) → P t → P (sweep_expired ops text appends now t).0
    unfolding sweep_expired
    sweep_expired-kept now t h = elim (Option-cases t.expire_seconds) [
      | inl never ↦ rw (never, sweep_expired) h
      | inr (ttl, limit) ↦ subst (P) (sym (sweep_lem now ttl t limit)) (
          expire_keys-kept ttl now
            (candidates ops text appends ttl now t.state.last_touched t.state.key_to_row) t h)
    ]

    delete_key-kept : (key : Str) (t : Topic F) → P t → P (delete_key ops text appends key t).0
    unfolding delete_key
    delete_key-kept key t h = elim (Option-cases (lookup key t.state.key_to_row)) [
      | inl gone ↦ rw (gone, delete_key) h
      | inr (row, found) ↦ rw (found, delete_key) (kept.frees key row t found h)
    ]

    batch-kept :
        (now : ℕ) (rows : List (JsonMap F)) (t : Topic F)
        → P t
        → P (upsert_map_batch ops text appends now rows t).0
    unfolding upsert_map_batch
    batch-kept now [] t h = h
    batch-kept now (fields ∷ rows) t h =
        let first = kept.upserts now fields t h in
        elim (Result-cases (upsert_map ops text appends now fields t).1) [
          | inl (seq, e) ↦
              rw (e, upsert_map_batch)
                (batch-kept now rows (upsert_map ops text appends now fields t).0 first)
          | inr (failed, e) ↦ rw (e, upsert_map_batch) first
        ]

    perform-kept : (op : Op) (t : Topic F) → Allowed Sparse op → P t → P (perform appends op t)
    perform-kept (publish now fields) t free h = kept.upserts now fields t h
    perform-kept (publish_delta now fields) t sparse h = kept.deltas now fields t sparse h
    perform-kept (publish_batch now rows) t free h = batch-kept now rows t h
    perform-kept (deletes key) t free h = delete_key-kept key t h
    perform-kept (sweep now) t free h = sweep_expired-kept now t h

    pub run-kept :
        (more : List Op) (t : Topic F) → All (Allowed Sparse) more → P t → P (run appends more t)
    unfolding run
    run-kept [] t allowed h = h
    run-kept (op ∷ more) t allowed h =
        run-kept more (perform appends op t) allowed.1 (perform-kept op t allowed.0 h)
