-- ===== src/SowStore/Lookup.antt =====
-- What a look-up finds after an operation, however many shards there are
-- (crates/cq-core/src/sow_store.rs).
use cqserver.Prelude.{
  ℕ, zero, suc, ◌%◌, ◌<◌, ◌≡◌, refl, ap, sym, ◌∙◌, String, false, Option, none, some, List, [], ◌∷◌,
  arith, inl, inr, Bool-cases, string_eq, length, get_elem?, nat_eq, nat_eq_iff, if◌then◌else◌,
  ◌==◌, ==_iff, Assoc, lookup, insert, remove, lookup-insert, lookup-remove,
}
use cqserver.SowStore.Shards.{
  SowStore, single, sharded, is_some, modify, shard_for, upsert, get, delete,
}

length-modify : {A : Type 0} (i : ℕ) (f : A → A) (xs : List A) → length (modify i f xs) ≡ length xs
length-modify i f [] = refl
length-modify zero f (x ∷ xs) = refl
length-modify (suc i) f (x ∷ xs) = ap suc (length-modify i f xs)

get_elem-modify_same :
    {A : Type 0} (i : ℕ) (f : A → A) (xs : List A)
    → i < length xs
    → (x : A) × (get_elem? xs i ≡ some x) × (get_elem? (modify i f xs) i ≡ some (f x))
get_elem-modify_same i f [] lt = absurd (omega (arith, lt))
get_elem-modify_same zero f (x ∷ xs) lt = (x, refl, refl)
get_elem-modify_same (suc i) f (x ∷ xs) lt = get_elem-modify_same i f xs (omega (arith, lt))

get_elem-modify_other :
    {A : Type 0} (i j : ℕ) (f : A → A) (xs : List A)
    → nat_eq i j ≡ false
    → get_elem? (modify i f xs) j ≡ get_elem? xs j
get_elem-modify_other i j f [] e = refl
get_elem-modify_other zero zero f (x ∷ xs) e = absurd (ground (arith, e))
get_elem-modify_other zero (suc j) f (x ∷ xs) e = refl
get_elem-modify_other (suc i) zero f (x ∷ xs) e = refl
get_elem-modify_other (suc i) (suc j) f (x ∷ xs) e =
    get_elem-modify_other i j f xs (ground (arith, e))

-- There is a shard.
abbrev pub IsSized : {R : Type 0} → SowStore R → Type 0
IsSized (single m) = Unit
IsSized (sharded shards) = 0 < length shards

module _ {R : Type 0} (hash : String → ℕ) where
  module _ (f : Assoc String R → Assoc String R) (key k : String) (shards : List (Assoc String R))
      (sized : 0 < length shards) where
    -- What is found in a shard that may be missing.
    found_in : Option (Assoc String R) → Option R
    found_in o = elim o [ none ↦ none | some m ↦ lookup k m ]

    -- A change that is right about `k` in a shard is right about it in the store.
    get-modify :
        (found : Option R → Option R)
        → ((m : Assoc String R)
            → lookup k (f m) ≡ (if key == k then found (lookup k m) else lookup k m))
        → get hash k (sharded (modify (shard_for hash shards key) f shards))
          ≡ (if key == k then found (get hash k (sharded shards)) else get hash k (sharded shards))
    unfolding get found_in
    get-modify found right =
        let i = shard_for hash shards key in
        let j = shard_for hash shards k in
        let changed = modify i f shards in
        let moved : get_elem? changed (shard_for hash changed k) ≡ get_elem? changed j =
          ap (λ n. get_elem? changed (hash k % n)) (length-modify i f shards) in
        elim (Bool-cases (nat_eq i j)) [
          | inr off ↦
              let apart : (key == k) ≡ false = elim (Bool-cases (key == k)) [
                | inr e ↦ e
                | inl e ↦
                    let same : i ≡ j = ap (shard_for hash shards) ((==_iff key k).0 e) in
                    absurd (ground (arith, off, same))
              ] in
              let kept = ap found_in (moved ∙ get_elem-modify_other i j f shards off) in
              rw apart kept
          | inl at ↦
              let same : i ≡ j = (nat_eq_iff i j).0 at in
              let (m, old, new) = get_elem-modify_same i f shards (omega (arith, sized)) in
              let now : get_elem? changed (shard_for hash changed k) ≡ some (f m) =
                moved ∙ (ap (get_elem? changed) (sym same) ∙ new) in
              let before : get_elem? shards j ≡ some m = ap (get_elem? shards) (sym same) ∙ old in
              ap found_in now
              ∙ (right m ∙ sym (ap (λ v. if key == k then found v else v) (ap found_in before)))
        ]

  pub get-upsert :
      (key k : String) (row : R) (s : SowStore R)
      → IsSized s
      → get hash k (upsert hash key row s) ≡ (if key == k then some row else get hash k s)
  unfolding get upsert
  get-upsert key k row (single m) sized = lookup-insert key k row m
  get-upsert key k row (sharded shards) sized =
      get-modify (insert key row) key k shards sized (λ v. some row)
        (λ m. lookup-insert key k row m)

  pub get-delete :
      (key k : String) (s : SowStore R)
      → IsSized s
      → get hash k (delete hash key s).0 ≡ (if key == k then none else get hash k s)
  unfolding get delete
  get-delete key k (single m) sized = lookup-remove key k m
  get-delete key k (sharded shards) sized =
      get-modify (remove key) key k shards sized (λ v. none) (λ m. lookup-remove key k m)

  pub delete-get :
      (key : String) (s : SowStore R) → (delete hash key s).1 ≡ is_some (get hash key s)
  unfolding get delete
  delete-get key (single m) = refl
  delete-get key (sharded shards) = refl

  pub upsert-IsSized :
      (key : String) (row : R) (s : SowStore R) → IsSized s → IsSized (upsert hash key row s)
  unfolding upsert
  upsert-IsSized key row (single m) sized = tt
  upsert-IsSized key row (sharded shards) sized =
      omega (arith, sized, length-modify (shard_for hash shards key) (insert key row) shards)

  pub delete-IsSized : (key : String) (s : SowStore R) → IsSized s → IsSized (delete hash key s).0
  unfolding delete
  delete-IsSized key (single m) sized = tt
  delete-IsSized key (sharded shards) sized =
      omega (arith, sized, length-modify (shard_for hash shards key) (remove key) shards)
