-- ===== src/SowStore/Tests.antt =====
-- Runs of the row store, and the theorem about it at these.
use cqserver.Prelude.{
  ℕ, ◌≡◌, refl, String, true, false, List, [], ◌∷◌, string_eq, ◌==◌, if◌then◌else◌, insert, remove,
  lookup,
}
use cqserver.SowStore.Shards.{new_single, new_sharded, upsert, delete, get, live_row_count}
use cqserver.SowStore.Equivalence.{Op, put, drop, run, run-equivalent}

abbrev by_name : String → ℕ
by_name s = if s == "a" then 7 else 4

abbrev stream : List (Op ℕ)
stream = put "a" 1 ∷ put "b" 2 ∷ drop "a" ∷ drop "c" ∷ put "b" 3 ∷ []

run-equivalent_example :
    ((run by_name stream new_single).1 ≡ (run by_name stream (new_sharded 3)).1)
    × (get by_name "b" (run by_name stream new_single).0
        ≡ get by_name "b" (run by_name stream (new_sharded 3)).0)
run-equivalent_example = run-equivalent by_name 2 stream "b"

run_runs : (run by_name stream (new_sharded 3)).1 ≡ true ∷ false ∷ []
unfolding run new_sharded upsert delete get insert remove lookup
run_runs = refl

count_runs : live_row_count (run by_name stream (new_sharded 3)).0 ≡ 1
unfolding run new_sharded upsert delete get insert remove lookup live_row_count
count_runs = refl
