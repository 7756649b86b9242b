-- ===== src/Subscription/Tests.antt =====
-- Runs of subscriptions, and the theorems about them at these.
use cqserver.Prelude.{
  ℕ, zero, suc, ◌<◌, ◌≤◌, ◌≡◌, refl, true, false, not, ◌&&◌, ◌||◌, none, some, List, [], ◌∷◌, ℤ,
  pos_part, nat_eq, lookup, insert, remove, All, arith, if◌then◌else◌, string_eq, number_eq, ltb,
  length, ◌⊎◌, any,
}
use Prim.Native.Nat.{compare}
use cqserver.Predicate.Sample.{ops, text_cell}
use cqserver.Predicate.Values.{column_is_null, Str, Row, is_null_value}
use cqserver.Predicate.Compiled.{
  eq_string, always_true, referenced_columns, collect_referenced, sort, insert_sorted, dedup,
  dedup_after,
}
use cqserver.Predicate.Evaluation.{matches, matches_3vl}
use cqserver.Conflation.Conflator.{updated}
use cqserver.Conflation.View.{apply_all}
use cqserver.Subscription.Rows.{StoreOps, ColumnStore, Query, project_row, range_from, to_json}
use cqserver.Subscription.RowSet.{contains, add_row, remove_row}
use cqserver.Subscription.SortKeys.{
  build_sort_key, compare_ranked, compare_keys, compare_elements, compare_values, cmp_str,
}
use cqserver.Subscription.State.{
  Subscription, TopNState, upsert, delete, with_max_active, close_too_many, too_many_matches,
}
use cqserver.Subscription.Sparse.{diff_update}
use cqserver.Subscription.Plain.{emit, full_body, enter, stay, leave, matches_now, evaluate_plain}
use cqserver.Subscription.TopN.{
  window, rerank, unrank, rank, rank_insert, rank_remove, evaluate_topn,
}
use cqserver.Subscription.Index.{
  empty_index, add_sub, clean, enroll, push_sub_all, push_sub, affected, subs_of, sort_ids,
  dedup_ids,
}
use cqserver.Subscription.Listed.{listed}
use cqserver.Subscription.Engine.{
  SubscriptionEngine, add, seed, seed_rows, seed_row, evaluate_subscription,
  evaluate_row_kind_indexed,
}
use cqserver.Subscription.Mirror.{write, Mirrors}
use cqserver.Subscription.History.{Mutation, follow, follow-Mirrors}
use cqserver.Subscription.Registry.{IsIndexed}
use cqserver.Subscription.Reached.{start, adds, Reached-IsIndexed}
use cqserver.Subscription.Skipped.{skipped_lem}
use cqserver.Subscription.Window.{Shows, visible, evaluate_topn-Shows}
use cqserver.Subscription.Membership.{settled, matching, seed_lem, follow_lem}
use cqserver.Subscription.Diff.{changed, DistinctNames, diff_update_lem}

abbrev store_ops : StoreOps ℤ
store_ops = record {
  total_cmp = λ a b. compare (pos_part a) (pos_part b);
  is_finite = λ _. true;
  format_timestamp_micros = λ _. [];
  base64 = λ b. b;
}

-- A row with a letter and a mark.
abbrev cells : ℕ → ℕ → Row ℤ
cells letter mark c =
    if nat_eq c 0 then text_cell (some (letter ∷ [])) else text_cell (some (mark ∷ []))

abbrev store : ColumnStore ℤ
store = record {
  column_count = 2;
  column_name = λ c. if nat_eq c 0 then "letter" else "mark";
  row_count = 3;
  rows = λ r. if nat_eq r 2 then cells 67 120 else cells 65 97;
}

-- The rows with the mark `a`, by their letters.
abbrev marked : Query ℤ Str
marked = record {
  projection = [];
  predicate = eq_string 1 (97 ∷ []);
  order_by = (0, true) ∷ [];
  limit = none;
}

abbrev sub : Subscription ℤ Str
sub = record {
  id = "s";
  query = marked;
  active_set = 1 ∷ 0 ∷ [];
  sparse = false;
  key_cols = [];
  last_snapshot = [];
  topn = none;
  live_start_sequence = 4;
  closed = false;
  max_active = some 3;
  close_reason = none;
}

abbrev mutations : List (Mutation ℤ)
mutations =
    record { row = 2; cells = cells 67 97; sequence = 5; kind = upsert }
    ∷ record { row = 0; cells = cells 0 0; sequence = 6; kind = delete }
    ∷ []

fresh : All (λ (e : Mutation ℤ). 4 ≤ e.sequence) mutations
fresh = omega arith

still_open : (follow ops store_ops mutations sub store).0.closed ≡ false
unfolding follow evaluate_subscription evaluate_plain enter stay leave matches_now matches
    matches_3vl column_is_null add_row remove_row close_too_many
still_open = refl

follow-Mirrors_example :
    Mirrors ops store_ops
      (follow ops store_ops mutations sub store).0
      (follow ops store_ops mutations sub store).1
      (apply_all
        (λ r.
          if contains r (1 ∷ 0 ∷ []) then some (project_row ops store_ops marked store r) else none)
        (follow ops store_ops mutations sub store).2)
follow-Mirrors_example =
    follow-Mirrors ops store_ops mutations sub store _ (refl, refl) fresh (λ r. refl) still_open

follow_lem_example :
    let last = (follow ops store_ops mutations sub store).0 in
    (last.closed ≡ false
      → (r : ℕ)
      → contains r last.active_set
        ≡ settled ops store_ops marked.predicate r mutations (contains r (1 ∷ 0 ∷ [])))
    × ((c : ℕ) → sub.max_active ≡ some c → length sub.active_set ≤ c → length last.active_set ≤ c)
follow_lem_example = follow_lem ops store_ops mutations sub store refl fresh

abbrev empty_sub : Subscription ℤ Str
empty_sub = record sub { active_set = [] }

seed_lem_example :
    let seeded = seed ops store_ops store empty_sub in
    (((seeded.closed ≡ true)
        × (seeded.close_reason ≡ some too_many_matches)
        × (c : ℕ) × (empty_sub.max_active ≡ some c)
        × (c < length (matching ops store_ops store marked.predicate (range_from 0 3))))
      ⊎ ((r : ℕ)
          → contains r seeded.active_set
            ≡ (ltb r 3 && matches ops (store.rows r) marked.predicate)))
    × ((c : ℕ) → empty_sub.max_active ≡ some c → length seeded.active_set ≤ c)
seed_lem_example = seed_lem ops store_ops store empty_sub refl

-- With a cap of one the two matching rows close it.
seed_caps :
    (seed ops store_ops store (with_max_active 1 empty_sub)).close_reason ≡ some too_many_matches
unfolding seed seed_rows seed_row with_max_active close_too_many matches matches_3vl column_is_null
    add_row range_from
seed_caps = refl

abbrev engine : SubscriptionEngine ℤ Str
engine = add sub (record { subscriptions = []; predicate_index = empty_index })

Reached-IsIndexed_example : IsIndexed engine
Reached-IsIndexed_example = Reached-IsIndexed ops store_ops (adds sub start)

registered_runs : lookup "s" engine.subscriptions ≡ some sub
unfolding add insert lookup
registered_runs = refl

skipped_runs : listed "s" (affected (some (0 ∷ [])) engine.predicate_index) ≡ false
unfolding add add_sub clean enroll push_sub_all push_sub referenced_columns collect_referenced sort
    insert_sorted dedup dedup_after insert lookup affected subs_of sort_ids dedup_ids
skipped_runs = refl

active_runs : matches ops (store.rows 0) marked.predicate ≡ contains 0 sub.active_set
unfolding matches matches_3vl column_is_null
active_runs = refl

agree : (c : ℕ) → contains c (0 ∷ []) ≡ false → store.rows 0 c ≡ cells 66 97 c
agree c h = ground arith

-- The letter of an active row changes.
skipped_lem_example :
    let after = write 0 (cells 66 97) store in
    let pass = evaluate_row_kind_indexed ops store_ops after 0 9 upsert (some (0 ∷ [])) in
    (lookup "s" (pass engine).0.subscriptions ≡ some sub)
    × ((pass engine).1
        ≡ (pass (record engine { subscriptions = remove "s" engine.subscriptions })).1)
    × (evaluate_subscription ops store_ops after 0 9 upsert sub ≡ (
      sub,
      emit ops store_ops after 0 9 sub updated (full_body ops store_ops after 0 9 sub) ∷ [],
    ))
skipped_lem_example =
    skipped_lem ops store_ops engine "s" sub (0 ∷ []) store 0 9 (cells 66 97)
      Reached-IsIndexed_example registered_runs skipped_runs agree refl refl (omega arith) refl
      active_runs

abbrev first_two : Query ℤ Str
first_two = record marked { limit = some 2 }

abbrev ranking : TopNState ℤ
ranking = record { ranked = []; row_to_key = []; current_topn = [] }

abbrev top : Subscription ℤ Str
top = record sub { query = first_two; topn = some ranking; active_set = [] }

evaluate_topn-Shows_example :
    let (sub', deltas) = evaluate_topn ops store_ops (write 1 (cells 70 97) store) 1 9 top in
    Shows ops store_ops sub' (write 1 (cells 70 97) store) (apply_all (λ _. none) deltas)
    × (visible sub'
        ≡ window 2 (rerank ops store_ops (write 1 (cells 70 97) store) 1 top ranking).0.ranked)
evaluate_topn-Shows_example =
    evaluate_topn-Shows ops store_ops store 1 (cells 70 97) 9 top ranking 1 (λ _. none) refl refl
      (λ r. refl)

-- A deletion of a row that has been nulled leaves it in the window of a query without a condition.
abbrev unconditional : Subscription ℤ Str
unconditional = record top { query = record first_two { predicate = always_true } }

topn_keeps_deleted :
    (evaluate_subscription ops store_ops
      (write 1 (λ _. text_cell none) store)
      1
      9
      delete
      (evaluate_subscription ops store_ops store 1 8 upsert unconditional).0).0.active_set
    ≡ 1 ∷ []
unfolding evaluate_subscription evaluate_topn rerank unrank rank rank_insert rank_remove matches
    matches_3vl add_row build_sort_key compare_ranked compare_keys compare_elements compare_values
    insert remove lookup cmp_str
topn_keeps_deleted = refl

names : DistinctNames ops store_ops store 0 (0 ∷ [])
names zero zero i j = refl
names zero (suc zero) i j = refl
names (suc zero) zero i j = refl
names (suc zero) (suc zero) i j = refl
names (suc (suc a)) b i j = absurd (omega arith)
names zero (suc (suc b)) i j = absurd (omega arith)
names (suc zero) (suc (suc b)) i j = absurd (omega arith)

diff_update_lem_example :
    let diff = diff_update ops store_ops store 0 (0 ∷ []) none (1 ∷ []) in
    (diff.any_changed ≡ any (changed ops store_ops store 0 (0 ∷ []) none) (1 ∷ []))
    × ((c : ℕ)
        → lookup c diff.new_snapshot ≡ (
            if contains c (1 ∷ []) || contains c (0 ∷ [])
            then some (store.rows 0 c).value
            else none))
    × ((c : ℕ)
        → c < 2
        → lookup (store.column_name c) diff.payload ≡ (
            if ((contains c (1 ∷ []) && changed ops store_ops store 0 (0 ∷ []) none c)
                || (contains c (0 ∷ []) && (contains c (1 ∷ []) || diff.any_changed)))
              && not (is_null_value ops (store.rows 0 c).value)
            then some (to_json ops store_ops (store.rows 0 c).value)
            else none))
diff_update_lem_example =
    diff_update_lem ops store_ops store 0 (0 ∷ []) names none (1 ∷ []) (omega arith) (omega arith)
