-- ===== src/Predicate/Folding.antt =====
-- The shortcut of the case-folding comparison (crates/cq-core/src/predicate.rs).
use cqserver.Prelude.{ℕ, ◌≡◌, refl, true, false, [], ◌∷◌, ◌++◌, arith, inl, inr, Bool-cases, length}
use cqserver.Predicate.Values.{Str, str_eq, Ops}
use cqserver.Predicate.Strings.{StringFn, char_fn_eq, zip_all, string_fn_apply, string_fn_eq}

str_eq-longer : (t more : Str) (c : ℕ) → str_eq t (t ++ c ∷ more) ≡ false
str_eq-longer [] more c = refl
str_eq-longer (a ∷ t) more c = ground (arith, str_eq-longer t more c)

module _ {F R : Type 0} (ops : Ops F R) (func : StringFn) where
  zip_all-longer :
      (s t more : Str)
      → length s ≡ length t
      → zip_all ops func s t ≡ true
      → zip_all ops func s (t ++ more) ≡ true
  unfolding zip_all
  zip_all-longer [] t more len z = refl
  zip_all-longer (a ∷ s) [] more len z = absurd (omega (arith, len))
  zip_all-longer (a ∷ s) (b ∷ t) more len z = elim (Bool-cases (char_fn_eq ops func a b)) [
    | inl same ↦
        let z' : zip_all ops func s t ≡ true = ground (arith, same, z) in
        rw same (zip_all-longer s t more (omega (arith, len)) z')
    | inr other ↦ absurd (ground (arith, other, z))
  ]

  -- Where a text and a longer literal take as many bytes, and the literal begins with the text's case
  -- mapping, character by character, the shortcut calls them equal, although the literal goes on.
  pub string_fn_eq-longer :
      (s t more : Str) (c : ℕ)
      → string_fn_apply ops func s ≡ t
      → length s ≡ length t
      → zip_all ops func s t ≡ true
      → ops.byte_len s ≡ ops.byte_len (t ++ c ∷ more)
      → (string_fn_eq ops func s (t ++ c ∷ more) ≡ true)
        × (str_eq (string_fn_apply ops func s) (t ++ c ∷ more) ≡ false)
  unfolding string_fn_eq
  string_fn_eq-longer s t more c mapped len z bytes = (
    ground (arith, bytes, zip_all-longer s t (c ∷ more) len z),
    rw mapped (str_eq-longer t more c),
  )
