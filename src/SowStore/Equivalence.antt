-- ===== src/SowStore/Equivalence.antt =====
-- The number of shards does not show (crates/cq-core/src/sow_store.rs).
use mathlib.Core.Path.{ap₂}
use cqserver.Prelude.{
  ℕ, zero, Assoc, suc, ◌≡◌, refl, ap, sym, ◌∙◌, String, Bool, none, some, List, [], ◌∷◌, arith,
  string_eq, ◌==◌, if◌then◌else◌, replicate, get_elem?, lookup,
}
use cqserver.SowStore.Shards.{SowStore, new_single, new_sharded, is_some, upsert, get, delete}
use cqserver.SowStore.Lookup.{
  IsSized, get-upsert, get-delete, delete-get, upsert-IsSized, delete-IsSized,
}

pub data Op (R : Type 0) : Type 0 where
  put : String → R → Op R
  drop : String → Op R

module _ {R : Type 0} (hash : String → ℕ) where
  -- A sequence of operations: the store after it, and what the deletions answered.
  unfoldable pub run : List (Op R) → SowStore R → SowStore R × List Bool
  run [] s = (s, [])
  run (put key row ∷ ops) s = run ops (upsert hash key row s)
  run (drop key ∷ ops) s =
      let (s', was) = delete hash key s in let (s'', answers) = run ops s' in (s'', was ∷ answers)

  -- Two stores with the same rows, each with a shard.
  record Same (s t : SowStore R) : Type 0 where
    rows : (k : String) → get hash k s ≡ get hash k t
    left : IsSized s
    right : IsSized t

  upsert-Same :
      (key : String) (row : R) (s t : SowStore R)
      → Same s t
      → Same (upsert hash key row s) (upsert hash key row t)
  upsert-Same key row s t h = record {
    rows = λ k.
        get-upsert hash key k row s h.left
        ∙ (ap (λ v. if key == k then some row else v) (h.rows k)
            ∙ sym (get-upsert hash key k row t h.right));
    left = upsert-IsSized hash key row s h.left;
    right = upsert-IsSized hash key row t h.right;
  }

  delete-Same :
      (key : String) (s t : SowStore R)
      → Same s t
      → Same (delete hash key s).0 (delete hash key t).0
  delete-Same key s t h = record {
    rows = λ k.
        get-delete hash key k s h.left
        ∙ (ap (λ v. if key == k then none else v) (h.rows k)
            ∙ sym (get-delete hash key k t h.right));
    left = delete-IsSized hash key s h.left;
    right = delete-IsSized hash key t h.right;
  }

  run-Same :
      (ops : List (Op R)) (s t : SowStore R)
      → Same s t
      → ((run ops s).1 ≡ (run ops t).1) × Same (run ops s).0 (run ops t).0
  unfolding run
  run-Same [] s t h = (refl, h)
  run-Same (put key row ∷ ops) s t h =
      run-Same ops (upsert hash key row s) (upsert hash key row t) (upsert-Same key row s t h)
  run-Same (drop key ∷ ops) s t h =
      let (answers, same) =
        run-Same ops (delete hash key s).0 (delete hash key t).0 (delete-Same key s t h) in
      let was : (delete hash key s).1 ≡ (delete hash key t).1 =
        delete-get hash key s ∙ (ap is_some (h.rows key) ∙ sym (delete-get hash key t)) in
      (ap₂ (λ (b : Bool) (bs : List Bool). b ∷ bs) was answers, same)

  empty_shards :
      (n i : ℕ) (k : String)
      → elim (get_elem? (replicate {A = Assoc String R} n []) i) [
        | none ↦ none
        | some m ↦ lookup k m
      ]
        ≡ none
  unfolding lookup
  empty_shards zero i k = refl
  empty_shards (suc n) zero k = refl
  empty_shards (suc n) (suc i) k = empty_shards n i k

  -- A store of one shard and one of any number of shards, both new, answer every sequence of upserts
  -- and deletions alike, and find the same row under every key after it, whatever the hash.
  pub run-equivalent :
      (n : ℕ) (ops : List (Op R)) (k : String)
      → ((run ops new_single).1 ≡ (run ops (new_sharded (suc n))).1)
        × (get hash k (run ops new_single).0 ≡ get hash k (run ops (new_sharded (suc n))).0)
  unfolding new_sharded get lookup
  run-equivalent n ops k =
      let (answers, same) =
        run-Same ops new_single (new_sharded (suc n))
          (record { rows = λ j. sym (empty_shards (suc n) _ j); left = tt; right = omega arith }) in
      (answers, same.rows k)
