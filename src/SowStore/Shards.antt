-- ===== src/SowStore/Shards.antt =====
-- The store and its operations (`SingleShard` and `SowStore` in crates/cq-core/src/sow_store.rs). A
-- shard is an association list, the hash of a key is a parameter, and a row is of any type.
use cqserver.Prelude.{
  ℕ, zero, suc, ◌+◌, ◌%◌, String, Bool, true, false, Option, none, some, List, [], ◌∷◌, string_eq,
  length, get_elem?, replicate, Assoc, lookup, insert, remove,
}

pub data SowStore (R : Type 0) : Type 0 where
  single : Assoc String R → SowStore R
  sharded : List (Assoc String R) → SowStore R

abbrev pub is_some : {A : Type 0} → Option A → Bool
is_some none = false
is_some (some a) = true

-- A change of the shard at an index.
abbrev pub modify : {A : Type 0} → ℕ → (A → A) → List A → List A
modify i f [] = []
modify zero f (x ∷ xs) = f x ∷ xs
modify (suc i) f (x ∷ xs) = x ∷ modify i f xs

module _ {R : Type 0} where
  abbrev pub new_single : SowStore R
  new_single = single []

  -- For `n` of one or more.
  unfoldable pub new_sharded : ℕ → SowStore R
  new_sharded n = sharded (replicate n [])

  unfoldable pub live_row_count : SowStore R → ℕ
  live_row_count (single m) = length m
  live_row_count (sharded []) = 0
  live_row_count (sharded (m ∷ ms)) = length m + live_row_count (sharded ms)

  module _ (hash : String → ℕ) where
    abbrev pub shard_for : List (Assoc String R) → String → ℕ
    shard_for shards key = hash key % length shards

    unfoldable pub upsert : String → R → SowStore R → SowStore R
    upsert key row (single m) = single (insert key row m)
    upsert key row (sharded shards) =
        sharded (modify (shard_for shards key) (insert key row) shards)

    unfoldable pub get : String → SowStore R → Option R
    get key (single m) = lookup key m
    get key (sharded shards) = elim (get_elem? shards (shard_for shards key)) [
      | none ↦ none
      | some m ↦ lookup key m
    ]

    unfoldable pub delete : String → SowStore R → SowStore R × Bool
    unfolding get
    delete key (single m) = (single (remove key m), is_some (lookup key m))
    delete key (sharded shards) = (
      sharded (modify (shard_for shards key) (remove key) shards),
      is_some (get key (sharded shards)),
    )
