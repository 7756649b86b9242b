-- ===== src/Subscription/State.antt =====
-- A subscription and its state (`Subscription`, `TopNState`, `CloseReason` in
-- crates/cq-core/src/subscription.rs; `MutationKind` in crates/cq-core/src/topic.rs).
use cqserver.Prelude.{
  ℕ, String, Bool, true, false, Option, none, some, List, [], Assoc, ltb, if◌then◌else◌,
}
use cqserver.Predicate.Values.{Value}
use cqserver.Subscription.Rows.{Query}
use cqserver.Subscription.SortKeys.{SortKey}

pub data MutationKind : Type 0 where
  upsert delete : MutationKind

pub data CloseReason : Type 0 where
  too_many_matches : CloseReason

pub record TopNState (F : Type 0) : Type 0 where
  pub ranked : List (SortKey F × ℕ)
  pub row_to_key : Assoc ℕ (SortKey F)
  pub current_topn : List ℕ

pub record Subscription (F R : Type 0) : Type 0 where
  pub id : String
  pub query : Query F R
  pub active_set : List ℕ
  pub sparse : Bool
  pub key_cols : List ℕ
  pub last_snapshot : Assoc ℕ (Assoc ℕ (Value F))
  pub topn : Option (TopNState F)
  pub live_start_sequence : ℕ
  pub closed : Bool
  pub max_active : Option ℕ
  pub close_reason : Option CloseReason

module _ {F R : Type 0} where
  unfoldable pub new : String → Query F R → Subscription F R
  new id query = record {
    id = id;
    query = query;
    active_set = [];
    sparse = false;
    key_cols = [];
    last_snapshot = [];
    topn = elim query.limit [
      | none ↦ none
      | some n ↦
          if ltb 0 n
          then some (record { ranked = []; row_to_key = []; current_topn = [] })
          else none
    ];
    live_start_sequence = 0;
    closed = false;
    max_active = none;
    close_reason = none;
  }

  unfoldable pub with_max_active : ℕ → Subscription F R → Subscription F R
  with_max_active cap_rows sub = record sub { max_active = some cap_rows }

  unfoldable pub into_sparse : List ℕ → Subscription F R → Subscription F R
  into_sparse cols sub = record sub { sparse = true; key_cols = cols }

  unfoldable pub with_live_start : ℕ → Subscription F R → Subscription F R
  with_live_start seq sub = record sub { live_start_sequence = seq }

  unfoldable pub close : Subscription F R → Subscription F R
  close sub = record sub { closed = true }

  -- Closes a subscription with more matches than its cap.
  unfoldable pub close_too_many : Subscription F R → Subscription F R
  close_too_many sub = record sub { closed = true; close_reason = some too_many_matches }
