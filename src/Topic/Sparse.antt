-- ===== src/Topic/Sparse.antt =====
-- The cases of a sparse publication (`Topic::delta_upsert_map` in crates/cq-core/src/topic.rs).
use cqserver.Prelude.{
  ℕ, ◌≡◌, refl, Bool, none, some, [], arith, list_eq, number_eq, Option-cases, List-cases, inl, inr,
  ◌⊎◌,
}
use cqserver.Predicate.Values.{Ops, Str}
use cqserver.Subscription.Rows.{JsonMap}
use cqserver.Topic.Values.{TextOps}
use cqserver.Topic.State.{Topic, compute_key_from_map}
use cqserver.Topic.Publishing.{delta_upsert_keyed, delta_upsert_map}

module _ {F R : Type 0} (ops : Ops F R) (text : TextOps F) where
  -- The key of a publication: that of its fields, or the empty one of a topic without key fields.
  abbrev pub HasKey : Topic F → JsonMap F → Str → Type 0
  HasKey t fields key =
      (compute_key_from_map ops text t.key_fields fields ≡ some key)
      ⊎ ((compute_key_from_map ops text t.key_fields fields ≡ none)
          × (t.key_fields ≡ [])
          × (key ≡ []))

  pub delta_upsert_map-cases :
      (appends : ℕ → Bool) (now : ℕ) (fields : JsonMap F) (t : Topic F)
      → ((key : Str) × HasKey t fields key
          × ((delta_upsert_map ops text appends now fields t).0
              ≡ (delta_upsert_keyed ops text appends now key fields t).0))
        ⊎ ((delta_upsert_map ops text appends now fields t).0 ≡ t)
  unfolding delta_upsert_map
  delta_upsert_map-cases appends now fields t =
      elim (Option-cases (compute_key_from_map ops text t.key_fields fields)) [
        | inr (key, found) ↦ inl (key, inl found, ground (arith, found))
        | inl gone ↦ elim (List-cases t.key_fields) [
          | inl keyless ↦ inl ([], inr (gone, keyless, refl), ground (arith, gone, keyless))
          | inr (name, names, keyed) ↦ inr (ground (arith, gone, keyed))
        ]
      ]
