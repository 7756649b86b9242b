-- ===== src/Subscription/Routing.antt =====
-- The predicate index names exactly the subscriptions whose predicates read a changed column, and those
-- that read none (crates/cq-core/src/predicate_index.rs).
use cqserver.Prelude.{
  ℕ, String, ◌≡◌, refl, ◌∙◌, sym, Bool, true, false, ◌||◌, Option, none, some, List, [], ◌∷◌,
  lookup, lookup-insert, lookup-remove, any, arith, if◌then◌else◌, number_eq, string_eq, ◌==◌,
  ==_iff, ==_refl, Option-cases, List-cases, inl, inr,
}
use cqserver.Predicate.Compiled.{CompiledPredicate, referenced_columns}
use cqserver.Subscription.RowSet.{contains}
use cqserver.Subscription.Index.{
  PredicateIndex, empty_index, remove_sub, clean, enroll, add_sub, subs_of, affected,
}
use cqserver.Subscription.Listed.{
  listed, in_column, listed-append, listed-without, in_column-push_sub_all, in_column-drop_sub_all,
  listed-subs_of, listed-sorted,
}

abbrev pub reads_nothing : Option (List ℕ) → Bool
reads_nothing none = false
reads_nothing (some []) = true
reads_nothing (some (c ∷ cs)) = false

abbrev pub reads : ℕ → Option (List ℕ) → Bool
reads c none = false
reads c (some cs) = contains c cs

-- The three maps of the index agree.
pub record IsExact (index : PredicateIndex) : Type 0 where
  pub always :
      (id : String) → listed id index.always_subs ≡ reads_nothing (lookup id index.sub_to_cols)
  pub columns :
      (id : String) (c : ℕ)
      → in_column id c index.col_to_subs ≡ reads c (lookup id index.sub_to_cols)

pub empty-IsExact : IsExact empty_index
unfolding lookup
empty-IsExact = record { always = λ id. refl; columns = λ id c. refl }

pub lookup-remove_sub :
    (id j : String) (index : PredicateIndex)
    → lookup j (remove_sub id index).sub_to_cols
      ≡ (if id == j then none else lookup j index.sub_to_cols)
unfolding remove_sub
lookup-remove_sub id j index = elim (Option-cases (lookup id index.sub_to_cols)) [
  | inl gone ↦ rw (gone, remove_sub) (ground (arith, gone, ==_iff id j))
  | inr (cols, found) ↦ elim (List-cases cols) [
    | inl empty ↦ rw (found, remove_sub, empty) (lookup-remove id j index.sub_to_cols)
    | inr (c, cs, more) ↦ rw (found, remove_sub, more) (lookup-remove id j index.sub_to_cols)
  ]
]

module _ (id j : String) (index : PredicateIndex) (e : IsExact index) where
  always-remove_sub :
      listed j (remove_sub id index).always_subs
      ≡ reads_nothing (lookup j (remove_sub id index).sub_to_cols)
  unfolding remove_sub
  always-remove_sub = elim (Option-cases (lookup id index.sub_to_cols)) [
    | inl gone ↦ rw (gone, remove_sub) (e.always j)
    | inr (cols, found) ↦ elim (List-cases cols) [
      | inl empty ↦
          rw (found, remove_sub, empty)
            (ground (
              arith,
              found,
              empty,
              listed-without id j index.always_subs,
              lookup-remove id j index.sub_to_cols,
              e.always j,
              ==_iff id j,
            ))
      | inr (d, ds, more) ↦
          rw (found, remove_sub, more)
            (ground
              (arith, found, more, lookup-remove id j index.sub_to_cols, e.always j, ==_iff id j))
    ]
  ]

  columns-remove_sub :
      (c : ℕ)
      → in_column j c (remove_sub id index).col_to_subs
        ≡ reads c (lookup j (remove_sub id index).sub_to_cols)
  unfolding remove_sub
  columns-remove_sub c = elim (Option-cases (lookup id index.sub_to_cols)) [
    | inl gone ↦ rw (gone, remove_sub) (e.columns j c)
    | inr (cols, found) ↦ elim (List-cases cols) [
      | inl empty ↦
          rw (found, remove_sub, empty)
            (ground (
              arith,
              found,
              empty,
              lookup-remove id j index.sub_to_cols,
              e.columns j c,
              ==_iff id j,
            ))
      | inr (d, ds, more) ↦
          rw (found, remove_sub, more)
            (ground (
              arith,
              found,
              more,
              in_column-drop_sub_all id j (d ∷ ds) c index.col_to_subs,
              lookup-remove id j index.sub_to_cols,
              e.columns j c,
              ==_iff id j,
            ))
    ]
  ]

pub remove_sub-IsExact :
    (id : String) (index : PredicateIndex) → IsExact index → IsExact (remove_sub id index)
remove_sub-IsExact id index e = record {
  always = λ j. always-remove_sub id j index e;
  columns = λ j c. columns-remove_sub id j index e c;
}

remove_sub-none :
    (id : String) (index : PredicateIndex)
    → lookup id index.sub_to_cols ≡ none
    → remove_sub id index ≡ index
unfolding remove_sub
remove_sub-none id index gone = rw (gone, remove_sub) refl

clean_lem : (id : String) (index : PredicateIndex) → clean id index ≡ remove_sub id index
unfolding clean
clean_lem id index = elim (Option-cases (lookup id index.sub_to_cols)) [
  | inl gone ↦ rw (gone, clean) (sym (remove_sub-none id index gone))
  | inr (old, found) ↦ rw (found, clean) refl
]

pub lookup-enroll :
    (id j : String) (cols : List ℕ) (index : PredicateIndex)
    → lookup j (enroll id cols index).sub_to_cols
      ≡ (if id == j then some cols else lookup j index.sub_to_cols)
unfolding enroll
lookup-enroll id j [] index = lookup-insert id j [] index.sub_to_cols
lookup-enroll id j (c ∷ cs) index = lookup-insert id j (c ∷ cs) index.sub_to_cols

module _ (id j : String) (index : PredicateIndex) (e : IsExact index)
    (gone : lookup id index.sub_to_cols ≡ none) where
  always-enroll :
      (cols : List ℕ)
      → listed j (enroll id cols index).always_subs
        ≡ reads_nothing (lookup j (enroll id cols index).sub_to_cols)
  unfolding enroll
  always-enroll [] = ground (
    arith,
    gone,
    listed-append j index.always_subs (id ∷ []),
    lookup-insert id j [] index.sub_to_cols,
    e.always j,
    ==_iff id j,
  )
  always-enroll (d ∷ ds) =
      ground (arith, gone, lookup-insert id j (d ∷ ds) index.sub_to_cols, e.always j, ==_iff id j)

  columns-enroll :
      (cols : List ℕ) (c : ℕ)
      → in_column j c (enroll id cols index).col_to_subs
        ≡ reads c (lookup j (enroll id cols index).sub_to_cols)
  unfolding enroll
  columns-enroll [] c =
      ground (arith, gone, lookup-insert id j [] index.sub_to_cols, e.columns j c, ==_iff id j)
  columns-enroll (d ∷ ds) c = ground (
    arith,
    gone,
    in_column-push_sub_all id j (d ∷ ds) c index.col_to_subs,
    lookup-insert id j (d ∷ ds) index.sub_to_cols,
    e.columns j c,
    ==_iff id j,
  )

lookup-remove_sub_self :
    (id : String) (index : PredicateIndex) → lookup id (remove_sub id index).sub_to_cols ≡ none
lookup-remove_sub_self id index = lookup-remove_sub id id index ∙ rw (==_refl id) refl

module _ {F R : Type 0} (id : String) (p : CompiledPredicate F R) (index : PredicateIndex) where
  pub add_sub-IsExact : IsExact index → IsExact (add_sub id p index)
  unfolding add_sub
  add_sub-IsExact e =
      let fresh = remove_sub-IsExact id index e in
      let gone = lookup-remove_sub_self id index in
      rw (clean_lem id index) (record {
        always = λ j. always-enroll id j (remove_sub id index) fresh gone (referenced_columns p);
        columns =
            λ j c. columns-enroll id j (remove_sub id index) fresh gone (referenced_columns p) c;
      })

  pub lookup-add_sub :
      (j : String)
      → lookup j (add_sub id p index).sub_to_cols
        ≡ (if id == j then some (referenced_columns p) else lookup j index.sub_to_cols)
  unfolding add_sub
  lookup-add_sub j = rw (clean_lem id index) (
      ground (
        arith,
        lookup-enroll id j (referenced_columns p) (remove_sub id index),
        lookup-remove_sub id j index,
      ))

-- Whether a subscription that reads the given columns has to see a change of the others.
abbrev pub touched : List ℕ → Option (List ℕ) → Bool
touched changed none = false
touched changed (some []) = true
touched changed (some (c ∷ cs)) = any (λ d. contains d (c ∷ cs)) changed

any-reads :
    (id : String) (index : PredicateIndex)
    → IsExact index
    → (changed : List ℕ)
    → any (λ c. in_column id c index.col_to_subs) changed
      ≡ any (λ c. reads c (lookup id index.sub_to_cols)) changed
any-reads id index e [] = refl
any-reads id index e (c ∷ cs) = ground (arith, e.columns id c, any-reads id index e cs)

any-none : (changed : List ℕ) → any (λ c. reads c none) changed ≡ false
any-none [] = refl
any-none (c ∷ cs) = any-none cs

touched-cases :
    (changed : List ℕ) (cols : Option (List ℕ))
    → (reads_nothing cols || any (λ c. reads c cols) changed) ≡ touched changed cols
touched-cases changed none = any-none changed
touched-cases changed (some []) = refl
touched-cases changed (some (c ∷ cs)) = refl

-- In an index whose maps agree, the subscriptions that are named for a set of changed columns are exactly
-- the registered ones that read no column or one of the changed ones.
pub affected_lem :
    (id : String) (index : PredicateIndex) (changed : List ℕ)
    → IsExact index
    → listed id (affected (some changed) index) ≡ touched changed (lookup id index.sub_to_cols)
unfolding affected
affected_lem id index changed e =
    let lists = listed-append id index.always_subs (subs_of changed index.col_to_subs) in
    let found = listed-subs_of id changed index.col_to_subs ∙ any-reads id index e changed in
    listed-sorted id _
    ∙ lists
    ∙ rw (e.always id, found) (touched-cases changed (lookup id index.sub_to_cols))
