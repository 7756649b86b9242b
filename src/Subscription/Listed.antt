-- ===== src/Subscription/Listed.antt =====
-- Which subscriptions the lists of the predicate index name (crates/cq-core/src/predicate_index.rs).
use cqserver.Prelude.{
  ℕ, String, ◌≡◌, refl, ◌∙◌, Bool, false, ◌&&◌, ◌||◌, none, some, List, [], ◌∷◌, ◌++◌, Assoc,
  lookup, lookup-insert, lookup-remove, any, nat_eq, nat_eq_iff, arith, if◌then◌else◌, number_eq,
  string_eq, ◌==◌, ==_iff, Option-cases, List-cases, inl, inr,
}
use cqserver.Subscription.RowSet.{contains}
use cqserver.Subscription.Index.{
  push_sub, push_sub_all, without, drop_sub, drop_sub_all, subs_of, insert_id, sort_ids,
  dedup_ids_after, dedup_ids,
}

abbrev pub listed : String → List String → Bool
listed id ids = any (λ i. i == id) ids

-- Whether a subscription stands in the list of a column.
abbrev pub in_column : String → ℕ → Assoc ℕ (List String) → Bool
in_column id col m = elim (lookup col m) [ none ↦ false | some ids ↦ listed id ids ]

pub listed-append :
    (id : String) (xs ys : List String) → listed id (xs ++ ys) ≡ (listed id xs || listed id ys)
listed-append id [] ys = refl
listed-append id (x ∷ xs) ys = ground (arith, listed-append id xs ys)

pub listed-without :
    (id j : String) (xs : List String)
    → listed j (without id xs) ≡ (if id == j then false else listed j xs)
unfolding without
listed-without id j [] = ground arith
listed-without id j (x ∷ xs) =
    ground (arith, listed-without id j xs, ==_iff x id, ==_iff x j, ==_iff id j)

pub in_column-push_sub :
    (id j : String) (col c : ℕ) (m : Assoc ℕ (List String))
    → in_column j c (push_sub id col m) ≡ (in_column j c m || (id == j && nat_eq col c))
unfolding push_sub
in_column-push_sub id j col c m = elim (Option-cases (lookup col m)) [
  | inl gone ↦ rw gone (ground (arith, lookup-insert col c (id ∷ []) m, gone, nat_eq_iff col c))
  | inr (ids, found) ↦ rw found (
      ground (
        arith,
        lookup-insert col c (ids ++ id ∷ []) m,
        found,
        nat_eq_iff col c,
        listed-append j ids (id ∷ []),
      ))
]

pub in_column-push_sub_all :
    (id j : String) (cols : List ℕ) (c : ℕ) (m : Assoc ℕ (List String))
    → in_column j c (push_sub_all id cols m) ≡ (in_column j c m || (id == j && contains c cols))
unfolding push_sub_all
in_column-push_sub_all id j [] c m = ground arith
in_column-push_sub_all id j (col ∷ cols) c m =
    ground (
      arith,
      in_column-push_sub_all id j cols c (push_sub id col m),
      in_column-push_sub id j col c m,
    )

pub in_column-drop_sub :
    (id j : String) (col c : ℕ) (m : Assoc ℕ (List String))
    → in_column j c (drop_sub id col m)
      ≡ (if id == j && nat_eq col c then false else in_column j c m)
unfolding drop_sub
in_column-drop_sub id j col c m = elim (Option-cases (lookup col m)) [
  | inl gone ↦ rw (gone, drop_sub) (ground (arith, gone, nat_eq_iff col c))
  | inr (ids, found) ↦ elim (List-cases (without id ids)) [
    | inl empty ↦
        rw (found, drop_sub, empty)
          (ground
            (arith, lookup-remove col c m, found, nat_eq_iff col c, listed-without id j ids, empty))
    | inr (x, xs, rest) ↦
        rw (found, drop_sub, rest)
          (ground (
            arith,
            lookup-insert col c (x ∷ xs) m,
            found,
            nat_eq_iff col c,
            listed-without id j ids,
            rest,
          ))
  ]
]

pub in_column-drop_sub_all :
    (id j : String) (cols : List ℕ) (c : ℕ) (m : Assoc ℕ (List String))
    → in_column j c (drop_sub_all id cols m)
      ≡ (if id == j && contains c cols then false else in_column j c m)
unfolding drop_sub_all
in_column-drop_sub_all id j [] c m = ground arith
in_column-drop_sub_all id j (col ∷ cols) c m =
    ground (
      arith,
      in_column-drop_sub_all id j cols c (drop_sub id col m),
      in_column-drop_sub id j col c m,
    )

pub listed-subs_of :
    (id : String) (cols : List ℕ) (m : Assoc ℕ (List String))
    → listed id (subs_of cols m) ≡ any (λ c. in_column id c m) cols
unfolding subs_of
listed-subs_of id [] m = refl
listed-subs_of id (c ∷ cols) m = elim (Option-cases (lookup c m)) [
  | inl gone ↦ rw gone (ground (arith, listed-subs_of id cols m, gone))
  | inr (ids, found) ↦
      rw found (ground (arith, listed-append id ids (subs_of cols m), listed-subs_of id cols m))
]

listed-insert_id :
    (id i : String) (js : List String) → listed id (insert_id i js) ≡ (i == id || listed id js)
unfolding insert_id
listed-insert_id id i [] = refl
listed-insert_id id i (j ∷ js) = ground (arith, listed-insert_id id i js)

listed-sort_ids : (id : String) (is : List String) → listed id (sort_ids is) ≡ listed id is
unfolding sort_ids
listed-sort_ids id [] = refl
listed-sort_ids id (i ∷ is) =
    ground (arith, listed-insert_id id i (sort_ids is), listed-sort_ids id is)

listed-dedup_ids_after :
    (id p : String) (is : List String)
    → (p == id || listed id (dedup_ids_after p is)) ≡ (p == id || listed id is)
unfolding dedup_ids_after
listed-dedup_ids_after id p [] = refl
listed-dedup_ids_after id p (i ∷ is) =
    ground (arith, listed-dedup_ids_after id i is, ==_iff i p, ==_iff p id, ==_iff i id)

listed-dedup_ids : (id : String) (is : List String) → listed id (dedup_ids is) ≡ listed id is
unfolding dedup_ids
listed-dedup_ids id [] = refl
listed-dedup_ids id (i ∷ is) = listed-dedup_ids_after id i is

pub listed-sorted :
    (id : String) (is : List String) → listed id (dedup_ids (sort_ids is)) ≡ listed id is
listed-sorted id is = listed-dedup_ids id (sort_ids is) ∙ listed-sort_ids id is
