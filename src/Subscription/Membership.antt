-- ===== src/Subscription/Membership.antt =====
-- Which rows are active in a subscription without a TOP-N window, when it starts and after any mutations
-- (crates/cq-core/src/subscription.rs).
use cqserver.Prelude.{
  filter_by, Option-cases, ◌<◌, ℕ, zero, suc, ◌+◌, ◌≤◌, ◌≡◌, refl, ◌∙◌, sym, ap, subst, Bool, true,
  false, ◌&&◌, ◌||◌, none, some, List, [], ◌∷◌, All, length, nat_eq, nat_eq_iff, ltb, leb, ◌⊎◌,
  arith, if◌then◌else◌, Bool-cases, inl, inr, number_eq,
}
use cqserver.Predicate.Values.{Ops, Row}
use cqserver.Predicate.Compiled.{CompiledPredicate}
use cqserver.Predicate.Evaluation.{matches}
use cqserver.Conflation.Conflator.{Delta}
use cqserver.Subscription.Rows.{StoreOps, ColumnStore, JsonMap, Query, range_from}
use cqserver.Subscription.RowSet.{
  contains, contains-add_row, contains-remove_row, length-add_row-le, length-remove_row-le,
}
use cqserver.Subscription.State.{
  Subscription, MutationKind, upsert, delete, close_too_many, too_many_matches,
}
use cqserver.Subscription.Plain.{enter, stay, leave, matches_now, evaluate_plain}
use cqserver.Subscription.Engine.{seed_row, seed_rows, prime, seed}
use cqserver.Subscription.Mirror.{write}
use cqserver.Subscription.History.{
  Mutation, follow, evaluate_open, evaluate_plain-live, still_open, open_shut, follow-closed,
  follow-shut,
}

contains-range_from : (i n r : ℕ) → contains r (range_from i n) ≡ (leb i r && ltb r (i + n))
unfolding range_from
contains-range_from i zero r = ground arith
contains-range_from i (suc n) r = ground (arith, contains-range_from (suc i) n r)

module _ {F R : Type 0} (ops : Ops F R) (store_ops : StoreOps F) where
  module _ (store : ColumnStore F) where
    seed_row-contains :
        (row r : ℕ) (sub : Subscription F R)
        → contains r (seed_row ops store_ops store row sub).active_set
          ≡ (if nat_eq row r then true else contains r sub.active_set)
    unfolding seed_row
    seed_row-contains row r sub = contains-add_row row r sub.active_set

    -- A seeding that runs to its end has added the matching rows.
    seed_rows-contains :
        (rows : List ℕ) (sub : Subscription F R) (r : ℕ)
        → (seed_rows ops store_ops store rows sub).1 ≡ true
        → contains r (seed_rows ops store_ops store rows sub).0.active_set ≡ (
            contains r sub.active_set
            || (contains r rows && matches ops (store.rows r) sub.query.predicate))
    unfolding seed_rows seed_row
    seed_rows-contains [] sub r done = ground arith
    seed_rows-contains (row ∷ rows) sub r done = ground (
      arith,
      seed_rows-contains rows sub r,
      seed_rows-contains rows (seed_row ops store_ops store row sub) r,
      contains-add_row row r sub.active_set,
      nat_eq_iff row r,
    )

    seed_rows-cap :
        (rows : List ℕ) (sub : Subscription F R) (c : ℕ)
        → sub.max_active ≡ some c
        → length sub.active_set ≤ c
        → length (seed_rows ops store_ops store rows sub).0.active_set ≤ c
    unfolding seed_rows seed_row close_too_many
    seed_rows-cap [] sub c limit h = h
    seed_rows-cap (row ∷ rows) sub c limit h = ground (
      arith,
      seed_rows-cap rows sub c,
      seed_rows-cap rows (seed_row ops store_ops store row sub) c,
      length-add_row-le row sub.active_set,
    )

    seed_rows-closed :
        (rows : List ℕ) (sub : Subscription F R)
        → (seed_rows ops store_ops store rows sub).1 ≡ false
        → ((seed_rows ops store_ops store rows sub).0.closed ≡ true)
          × ((seed_rows ops store_ops store rows sub).0.close_reason ≡ some too_many_matches)
    unfolding seed_rows close_too_many
    seed_rows-closed [] sub h = cc
    seed_rows-closed (row ∷ rows) sub h = ground (
      arith,
      seed_rows-closed rows sub,
      seed_rows-closed rows (seed_row ops store_ops store row sub),
    )

    -- The rows of a list that match.
    abbrev pub matching : CompiledPredicate F R → List ℕ → List ℕ
    matching predicate rows = filter_by (λ r. matches ops (store.rows r) predicate) rows

    seed_rows-uncapped :
        (rows : List ℕ) (sub : Subscription F R)
        → sub.max_active ≡ none
        → (seed_rows ops store_ops store rows sub).1 ≡ true
    unfolding seed_rows seed_row
    seed_rows-uncapped [] sub limit = refl
    seed_rows-uncapped (row ∷ rows) sub limit = ground (
      arith,
      limit,
      seed_rows-uncapped rows sub limit,
      seed_rows-uncapped rows (seed_row ops store_ops store row sub) limit,
    )

    -- A seeding that stops has met one match more than the cap has room for.
    seed_rows-full :
        (rows : List ℕ) (sub : Subscription F R) (c : ℕ)
        → sub.max_active ≡ some c
        → (seed_rows ops store_ops store rows sub).1 ≡ false
        → c < length sub.active_set + length (matching sub.query.predicate rows)
    unfolding seed_rows seed_row
    seed_rows-full [] sub c limit h = cc
    seed_rows-full (row ∷ rows) sub c limit h = ground (
      arith,
      limit,
      h,
      seed_rows-full rows sub c limit,
      seed_rows-full rows (seed_row ops store_ops store row sub) c limit,
      length-add_row-le row sub.active_set,
    )

    prime-fields :
        (sub : Subscription F R)
        → ((prime ops store_ops store sub).active_set ≡ sub.active_set)
          × ((prime ops store_ops store sub).max_active ≡ sub.max_active)
    unfolding prime
    prime-fields sub = ground arith

    -- Seeding a subscription with no active rows from the store: it is closed for too many
    -- matches, and then it has a cap and more rows of the store match than the cap, or its active rows
    -- are exactly those of the store that match; and they are never more than its cap, if it has one.
    pub seed_lem :
        (sub : Subscription F R)
        → sub.active_set ≡ []
        → let seeded = seed ops store_ops store sub in
          (((seeded.closed ≡ true)
              × (seeded.close_reason ≡ some too_many_matches)
              × (c : ℕ) × (sub.max_active ≡ some c)
              × (c < length (matching sub.query.predicate (range_from 0 store.row_count))))
            ⊎ ((r : ℕ)
                → contains r seeded.active_set
                  ≡ (ltb r store.row_count && matches ops (store.rows r) sub.query.predicate)))
          × ((c : ℕ) → sub.max_active ≡ some c → length seeded.active_set ≤ c)
    unfolding seed
    seed_lem sub empty =
        let rows = range_from 0 store.row_count in
        let seeded = seed_rows ops store_ops store rows sub in
        let small : (c : ℕ) → sub.max_active ≡ some c → length seeded.0.active_set ≤ c =
          λ c limit. seed_rows-cap rows sub c limit (rw empty (omega arith)) in
        elim (Bool-cases seeded.1) [
          | inl complete ↦
              let exact : (r : ℕ)
                  → contains r seeded.0.active_set
                    ≡ (ltb r store.row_count && matches ops (store.rows r) sub.query.predicate) =
                λ r. ground (
                  arith,
                  seed_rows-contains rows sub r complete,
                  empty,
                  contains-range_from 0 store.row_count r,
                ) in
              let same = (prime-fields seeded.0).0 in
              rw complete (
                inr (λ r. ap (contains r) same ∙ exact r),
                λ c limit. subst (λ rows. length rows ≤ c) (sym same) (small c limit),
              )
          | inr stopped ↦
              let (shut, why) = seed_rows-closed rows sub stopped in
              elim (Option-cases sub.max_active) [
                | inl uncapped ↦ absurd (cc (stopped, seed_rows-uncapped rows sub uncapped))
                | inr (c, limit) ↦
                    let more : c < length (matching sub.query.predicate rows) =
                      ground (arith, empty, seed_rows-full rows sub c limit stopped) in
                    rw stopped (inl (shut, why, c, limit, more), small)
              ]
        ]

  -- What the last mutation of a row says of it: deleted, or whether it matches; `was` if there is none.
  abbrev pub settled : CompiledPredicate F R → ℕ → List (Mutation F) → Bool → Bool
  settled predicate r [] was = was
  settled predicate r (e ∷ es) was = settled predicate r es (
      if nat_eq e.row r
      then elim e.kind [ delete ↦ false | upsert ↦ matches ops e.cells predicate ]
      else was)

  evaluate_plain-contains :
      (store : ColumnStore F) (row : ℕ) (cells : Row F) (sequence : ℕ) (kind : MutationKind)
      (sub : Subscription F R) (r : ℕ)
      → (evaluate_plain ops store_ops (write row cells store) row sequence kind sub).0.closed
        ≡ false
      → contains r
          (evaluate_plain ops store_ops (write row cells store) row sequence kind sub).0.active_set
        ≡ (if nat_eq row r
            then elim kind [ delete ↦ false | upsert ↦ matches ops cells sub.query.predicate ]
            else contains r sub.active_set)
  unfolding evaluate_plain matches_now enter stay leave close_too_many
  evaluate_plain-contains store row cells sequence kind sub r still = ground (
    arith,
    contains-add_row row r sub.active_set,
    contains-remove_row row r sub.active_set,
    nat_eq_iff row r,
  )

  evaluate_plain-cap :
      (store : ColumnStore F) (row sequence : ℕ) (kind : MutationKind) (sub : Subscription F R)
      (c : ℕ)
      → sub.max_active ≡ some c
      → length sub.active_set ≤ c
      → length (evaluate_plain ops store_ops store row sequence kind sub).0.active_set ≤ c
  unfolding evaluate_plain enter stay leave close_too_many
  evaluate_plain-cap store row sequence kind sub c limit h =
      ground (arith, length-add_row-le row sub.active_set, length-remove_row-le row sub.active_set)

  evaluate_plain-fields :
      (store : ColumnStore F) (row sequence : ℕ) (kind : MutationKind) (sub : Subscription F R)
      → let sub' = (evaluate_plain ops store_ops store row sequence kind sub).0 in
        (sub'.query ≡ sub.query) × (sub'.topn ≡ sub.topn) × (sub'.max_active ≡ sub.max_active)
  unfolding evaluate_plain enter stay leave close_too_many
  evaluate_plain-fields store row sequence kind sub = ground arith

  -- For a subscription without a TOP-N window, over mutations that are not older than its start: if it is
  -- still open at the end, a row is active exactly if its last mutation was an upsert that
  -- matches, or it has none and was active before; and a set of active rows within the cap stays
  -- within it, open or not.
  pub follow_lem :
      (es : List (Mutation F)) (sub : Subscription F R) (store : ColumnStore F)
      → sub.topn ≡ none
      → All (λ e. sub.live_start_sequence ≤ e.sequence) es
      → let last = (follow ops store_ops es sub store).0 in
        (last.closed ≡ false
          → (r : ℕ)
          → contains r last.active_set
            ≡ settled sub.query.predicate r es (contains r sub.active_set))
        × ((c : ℕ)
            → sub.max_active ≡ some c
            → length sub.active_set ≤ c
            → length last.active_set ≤ c)
  unfolding follow
  follow_lem [] sub store plain fresh = (λ still r. refl, λ c limit h. h)
  follow_lem (e ∷ es) sub store plain fresh = elim (Bool-cases sub.closed) [
    | inl shut ↦ (
      λ still r. absurd (open_shut _ still (follow-closed ops store_ops (e ∷ es) sub store shut)),
      λ c limit h.
          subst (λ (s : Subscription F R). length s.active_set ≤ c)
            (sym (follow-shut ops store_ops (e ∷ es) sub store shut)) h,
    )
    | inr not_shut ↦
        let after : ColumnStore F = write e.row e.cells store in
        let p : Subscription F R × List (Delta (JsonMap F)) =
          evaluate_plain ops store_ops after e.row e.sequence e.kind sub in
        let kept = evaluate_plain-fields after e.row e.sequence e.kind sub in
        let fresh' : All (λ (m : Mutation F). p.0.live_start_sequence ≤ m.sequence) es =
          subst (λ n. All (λ (m : Mutation F). n ≤ m.sequence) es)
            (sym (evaluate_plain-live ops store_ops after e.row e.sequence e.kind sub)) fresh.1 in
        let (members, small) = follow_lem es p.0 after (kept.1 ∙ plain) fresh' in
        subst
          (λ (q : Subscription F R × List (Delta (JsonMap F))).
            ((follow ops store_ops es q.0 after).0.closed ≡ false
              → (r : ℕ)
              → contains r (follow ops store_ops es q.0 after).0.active_set
                ≡ settled sub.query.predicate r (e ∷ es) (contains r sub.active_set))
            × ((c : ℕ)
                → sub.max_active ≡ some c
                → length sub.active_set ≤ c
                → length (follow ops store_ops es q.0 after).0.active_set ≤ c))
          (sym
            (evaluate_open ops store_ops after e.row e.sequence e.kind sub not_shut fresh.0 plain))
          (
            λ still r.
                members still r
                ∙ ap
                    (λ (query : Query F R).
                      settled query.predicate r es (contains r p.0.active_set))
                    kept.0
                ∙ ap (settled sub.query.predicate r es) (
                    evaluate_plain-contains store e.row e.cells e.sequence e.kind sub r
                      (still_open ops store_ops es p.0 after still)),
            λ c limit h.
                small c (kept.2 ∙ limit)
                  (evaluate_plain-cap after e.row e.sequence e.kind sub c limit h),
          )
  ]
