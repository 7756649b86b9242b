-- ===== src/Limits/Tally.antt =====
-- The counters of the admission limits, per address and per user: a map from keys to numbers, which
-- forgets a key whose number has come down to zero.
use cqserver.Prelude.{
  true, ℕ, ◌-◌, ◌<◌, ◌≡◌, none, some, arith, Bool-cases, Option-cases, inl, inr, Eq, ◌==◌, ==_iff,
  nat_eq, if◌then◌else◌, Assoc, lookup, insert, remove, lookup-insert, lookup-remove, All,
  All-insert, All-remove,
}

module _ {K : Type 0} ⦃e : Eq K⦄ where
  -- The number of a key, zero where the map has none.
  unfoldable pub tally : K → Assoc K ℕ → ℕ
  tally k m = elim (lookup k m) [ none ↦ 0 | some n ↦ n ]

  -- The release of a guard: one less, and the entry goes at zero.
  unfoldable pub lower : K → Assoc K ℕ → Assoc K ℕ
  lower k m = elim (lookup k m) [
    | none ↦ m
    | some n ↦ if nat_eq (n - 1) 0 then remove k m else insert k (n - 1) m
  ]

  abbrev pub IsLive : K × ℕ → Type 0
  IsLive entry = 0 < entry.1

  pub tally-insert :
      (k j : K) (n : ℕ) (m : Assoc K ℕ) → tally j (insert k n m) ≡ (if k == j then n else tally j m)
  unfolding tally
  tally-insert k j n m = ground (arith, lookup-insert k j n m)

  tally-remove :
      (k j : K) (m : Assoc K ℕ) → tally j (remove k m) ≡ (if k == j then 0 else tally j m)
  unfolding tally
  tally-remove k j m = ground (arith, lookup-remove k j m)

  pub tally-same : (k j : K) (m : Assoc K ℕ) → (k == j) ≡ true → tally k m ≡ tally j m
  tally-same k j m same = let e : k ≡ j = (==_iff k j).0 same in cc e

  pub tally-lower :
      (k j : K) (m : Assoc K ℕ) → tally j (lower k m) ≡ tally j m - (if k == j then 1 else 0)
  unfolding lower tally
  tally-lower k j m = elim (Option-cases (lookup k m)) [
    | inl gone ↦ ground (arith, gone, tally-same k j m)
    | inr (n, found) ↦
        ground (arith, found, tally-same k j m, tally-insert k j (n - 1) m, tally-remove k j m)
  ]

  pub lower-IsLive : (k : K) (m : Assoc K ℕ) → All IsLive m → All IsLive (lower k m)
  unfolding lower
  lower-IsLive k m a = elim (Option-cases (lookup k m)) [
    | inl gone ↦ rw (gone, lower) a
    | inr (n, found) ↦ elim (Bool-cases (nat_eq (n - 1) 0)) [
      | inl last ↦ rw (found, lower, last) (All-remove IsLive k m a)
      | inr more ↦ rw (found, lower, more) (All-insert IsLive k (n - 1) m (ground (arith, more)) a)
    ]
  ]
