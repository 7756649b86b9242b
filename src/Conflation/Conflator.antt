-- ===== src/Conflation/Conflator.antt =====
-- Deltas and the conflator (crates/cq-core/src/conflation.rs; `Delta` and `DeltaType` in
-- crates/cq-core/src/subscription.rs), over any type of row payloads.
use cqserver.Prelude.{
  ℕ, ◌+◌, String, Bool, true, false, ◌&&◌, Option, none, some, List, [], ◌∷◌, ◌++◌, map, number_eq,
  if◌then◌else◌, length, Assoc, lookup, insert, remove, nat_eq,
}

pub data DeltaType : Type 0 where
  added updated removed out_of_focus : DeltaType

pub record Delta (D : Type 0) : Type 0 where
  pub subscription_id : String
  pub delta_type : DeltaType
  pub row : ℕ
  pub sequence : ℕ
  pub row_data : D

pub record Conflator (D : Type 0) : Type 0 where
  pub pending : Assoc ℕ (Delta D)
  pub ready : List (Delta D)

abbrev pub is_add : DeltaType → Bool
is_add added = true
is_add _ = false

abbrev pub is_remove : DeltaType → Bool
is_remove removed = true
is_remove _ = false

module _ {D : Type 0} where
  abbrev pub empty_conflator : Conflator D
  empty_conflator = record { pending = []; ready = [] }

  unfoldable pub merge : Delta D → Delta D → Option (Delta D)
  merge prev next = elim prev.delta_type [
    | added ↦ elim next.delta_type [
      | removed ↦ none
      | updated ↦ some (record next { delta_type = added })
      | _ ↦ some next
    ]
    | _ ↦ some next
  ]

  unfoldable pub submit : Delta D → Conflator D → Conflator D
  submit delta c =
      let rest = remove delta.row c.pending in
      elim (lookup delta.row c.pending) [
        | none ↦ record c { pending = insert delta.row delta rest }
        | some prev ↦
            if is_remove prev.delta_type && is_add delta.delta_type
            then record { ready = c.ready ++ prev ∷ []; pending = insert delta.row delta rest }
            else elim (merge prev delta) [
              | some merged ↦ record c { pending = insert merged.row merged rest }
              | none ↦ record c { pending = rest }
            ]
      ]

  -- What is to be sent, and the conflator without it.
  unfoldable pub drain : Conflator D → List (Delta D) × Conflator D
  drain c = (c.ready ++ map (λ e. e.1) c.pending, empty_conflator)

  unfoldable pub len : Conflator D → ℕ
  len c = length c.pending + length c.ready

  unfoldable pub is_empty : Conflator D → Bool
  is_empty c = nat_eq (length c.pending) 0 && nat_eq (length c.ready) 0
