-- ===== src/Prelude/Equality.antt =====
-- Equality tests as an interface, with the instances for numbers and texts.
use Prim.Native.Nat.{ℕ}
use Prim.Native.String.{String}
use mathlib.Core.Path.{◌≡◌, refl}
use mathlib.Core.Logic.{◌↔◌}
use mathlib.Core.Bool.{Bool, true, false, ◌&&◌}
use mathlib.Core.List.{List, [], ◌∷◌}
use native.Mathlib.Omega.{arith}
use text.Mathlib.Text.{◌==◌ as text_test}
use text.Mathlib.TextEquality
use cqserver.Prelude.Tests.{nat_eq, nat_eq_iff}

-- A key type of a hash map.
pub record Eq {ℓ} (K : Type ℓ) : Type ℓ where
  pub test : K → K → Bool
  pub decides : (k l : K) → (test k l ≡ true) ↔ (k ≡ l)

instance abbrev pub string_eq : Eq String
string_eq = record { test = text_test; decides = TextEquality.eq_iff }

instance abbrev pub number_eq : Eq ℕ
number_eq = record { decides = nat_eq_iff; test = nat_eq }

module _ {ℓ} {K : Type ℓ} ⦃keys : Eq K⦄ where
  infix 50 ◌==◌
  abbrev pub ◌==◌ : K → K → Bool
  k == l = keys.test k l

  pub ==_refl : (k : K) → (k == k) ≡ true
  ==_refl k = (keys.decides k k).1 refl

  pub ==_iff : (k l : K) → ((k == l) ≡ true) ↔ (k ≡ l)
  ==_iff = keys.decides

module _ {ℓ} {A : Type ℓ} ⦃items : Eq A⦄ where
  abbrev pub lists_equal : List A → List A → Bool
  lists_equal [] [] = true
  lists_equal (a ∷ xs) (b ∷ ys) = (a == b) && lists_equal xs ys
  lists_equal _ _ = false

  pub lists_equal_iff : (xs ys : List A) → (lists_equal xs ys ≡ true) ↔ (xs ≡ ys)
  lists_equal_iff [] [] = ground arith
  lists_equal_iff [] (b ∷ ys) = ground arith
  lists_equal_iff (a ∷ xs) [] = ground arith
  lists_equal_iff (a ∷ xs) (b ∷ ys) = ground (arith, ==_iff a b, lists_equal_iff xs ys)

  -- A text as the list of its code points, or any other list, as a key.
  instance abbrev pub list_eq : Eq (List A)
  list_eq = record { test = lists_equal; decides = lists_equal_iff }
