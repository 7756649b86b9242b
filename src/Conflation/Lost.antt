-- ===== src/Conflation/Lost.antt =====
-- An eviction that the conflator loses (crates/cq-core/src/conflation.rs).
use cqserver.Prelude.{◌≡◌, none, [], ◌∷◌, arith, number_eq, ==_refl, lookup, insert, remove}
use cqserver.Conflation.Conflator.{
  Delta, added, removed, out_of_focus, merge, submit, drain, empty_conflator,
}
use cqserver.Conflation.View.{View, apply_all}
use cqserver.Conflation.Submitting.{submit_all}

module _ {D : Type 0} where
  -- A row that goes out of focus, comes back and is removed, all before a drain: nothing is sent, so
  -- that a consumer keeps the row that the three deltas would have evicted.
  pub oof_lost :
      (v : View D) (gone back dropped : Delta D)
      → gone.delta_type ≡ out_of_focus
      → back.delta_type ≡ added
      → dropped.delta_type ≡ removed
      → back.row ≡ gone.row
      → dropped.row ≡ gone.row
      → (apply_all v (drain (submit_all (gone ∷ back ∷ dropped ∷ []) empty_conflator)).0 gone.row
          ≡ v gone.row)
        × (apply_all v (gone ∷ back ∷ dropped ∷ []) gone.row ≡ none)
  unfolding submit_all submit drain apply_all merge lookup insert remove
  oof_lost v gone back dropped o a r e e' = ground (arith, o, a, r, e, e', ==_refl gone.row)
