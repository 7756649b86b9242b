-- ===== src/Subscription/Index.antt =====
-- The reverse index from columns to the subscriptions whose predicates read them
-- (crates/cq-core/src/predicate_index.rs).
use cqserver.Prelude.{
  ℕ, String, not, Option, none, some, List, [], ◌∷◌, ◌++◌, length, Assoc, lookup, insert, remove,
  filter_by, if◌then◌else◌, number_eq, string_eq, ◌==◌,
}
use text.Mathlib.Text.{is_le}
use Prim.Native.String.{compare}
use cqserver.Predicate.Compiled.{CompiledPredicate, referenced_columns}

pub record PredicateIndex : Type 0 where
  pub col_to_subs : Assoc ℕ (List String)
  pub always_subs : List String
  pub sub_to_cols : Assoc String (List ℕ)

abbrev pub empty_index : PredicateIndex
empty_index = record { col_to_subs = []; always_subs = []; sub_to_cols = [] }

-- `entry(col).or_default().push(sub_id)`.
unfoldable pub push_sub : String → ℕ → Assoc ℕ (List String) → Assoc ℕ (List String)
push_sub sub_id col m =
    insert col (elim (lookup col m) [ none ↦ sub_id ∷ [] | some ids ↦ ids ++ sub_id ∷ [] ]) m

unfoldable pub push_sub_all : String → List ℕ → Assoc ℕ (List String) → Assoc ℕ (List String)
push_sub_all sub_id [] m = m
push_sub_all sub_id (col ∷ cols) m = push_sub_all sub_id cols (push_sub sub_id col m)

-- `retain(|id| id != sub_id)`.
unfoldable pub without : String → List String → List String
without sub_id ids = filter_by (λ id. not (id == sub_id)) ids

-- Takes the subscription out of a column's list, and an empty list out of the map.
unfoldable pub drop_sub : String → ℕ → Assoc ℕ (List String) → Assoc ℕ (List String)
drop_sub sub_id col m = elim (lookup col m) [
  | none ↦ m
  | some ids ↦ elim (without sub_id ids) [ [] ↦ remove col m | i ∷ is ↦ insert col (i ∷ is) m ]
]

unfoldable pub drop_sub_all : String → List ℕ → Assoc ℕ (List String) → Assoc ℕ (List String)
drop_sub_all sub_id [] m = m
drop_sub_all sub_id (col ∷ cols) m = drop_sub_all sub_id cols (drop_sub sub_id col m)

unfoldable pub remove_sub : String → PredicateIndex → PredicateIndex
remove_sub sub_id index = elim (lookup sub_id index.sub_to_cols) [
  | none ↦ index
  | some cols ↦
      let left = remove sub_id index.sub_to_cols in
      elim cols [
        | [] ↦ record index { sub_to_cols = left; always_subs = without sub_id index.always_subs }
        | c ∷ cs ↦ record index {
          sub_to_cols = left;
          col_to_subs = drop_sub_all sub_id (c ∷ cs) index.col_to_subs;
        }
      ]
]

-- Without an older registration of the subscription.
unfoldable pub clean : String → PredicateIndex → PredicateIndex
clean sub_id index = elim (lookup sub_id index.sub_to_cols) [
  | none ↦ index
  | some old ↦ remove_sub sub_id index
]

-- A registration under the columns that are read, or under none.
unfoldable pub enroll : String → List ℕ → PredicateIndex → PredicateIndex
enroll sub_id [] index = record index {
  always_subs = index.always_subs ++ sub_id ∷ [];
  sub_to_cols = insert sub_id [] index.sub_to_cols;
}
enroll sub_id (c ∷ cs) index = record index {
  col_to_subs = push_sub_all sub_id (c ∷ cs) index.col_to_subs;
  sub_to_cols = insert sub_id (c ∷ cs) index.sub_to_cols;
}

unfoldable pub add_sub :
    {F R : Type 0} → String → CompiledPredicate F R → PredicateIndex → PredicateIndex
add_sub sub_id predicate index = enroll sub_id (referenced_columns predicate) (clean sub_id index)

-- The lists of the given columns, one after the other.
unfoldable pub subs_of : List ℕ → Assoc ℕ (List String) → List String
subs_of [] m = []
subs_of (col ∷ cols) m =
    elim (lookup col m) as (λ _. List String) [ none ↦ [] | some ids ↦ ids ] ++ subs_of cols m

unfoldable pub all_subs : Assoc ℕ (List String) → List String
all_subs [] = []
all_subs ((col, ids) ∷ m) = ids ++ all_subs m

-- `sort` and `dedup` on the ids.
unfoldable pub insert_id : String → List String → List String
insert_id i [] = i ∷ []
insert_id i (j ∷ js) =
    let rest = insert_id i js in if is_le (compare i j) then i ∷ j ∷ js else j ∷ rest

unfoldable pub sort_ids : List String → List String
sort_ids [] = []
sort_ids (i ∷ is) = insert_id i (sort_ids is)

unfoldable pub dedup_ids_after : String → List String → List String
dedup_ids_after p [] = []
dedup_ids_after p (i ∷ is) = let rest = dedup_ids_after i is in if i == p then rest else i ∷ rest

unfoldable pub dedup_ids : List String → List String
dedup_ids [] = []
dedup_ids (i ∷ is) = i ∷ dedup_ids_after i is

unfoldable pub affected : Option (List ℕ) → PredicateIndex → List String
affected changed_cols index = dedup_ids (
    sort_ids (
      index.always_subs ++ elim changed_cols as (λ _. List String) [
        | some cols ↦ subs_of cols index.col_to_subs
        | none ↦ all_subs index.col_to_subs
      ]))

unfoldable pub registered : PredicateIndex → ℕ
registered index = length index.sub_to_cols
