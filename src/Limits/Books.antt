-- ===== src/Limits/Books.antt =====
-- A counter per key against the guards that are alive, and what taking and releasing a guard does to
-- it: the same for addresses and for users (crates/cq-transport/src/limits.rs).
use cqserver.Prelude.{
  ℕ, ◌+◌, ◌<◌, ◌≤◌, ◌≡◌, refl, Bool, false, some, List, [], ◌∷◌, arith, Eq, ◌==◌, if◌then◌else◌,
  Assoc, lookup, insert, count_by, count_by-remove_at, get_elem?, remove_at, All, All-insert,
}
use cqserver.Limits.Tally.{
  tally, lower, IsLive, tally-insert, tally-lower, tally-same, lower-IsLive,
}

module _ {K G : Type 0} ⦃e : Eq K⦄ (owns : K → G → Bool) (limit : ℕ) where
  -- The number of every key is that of the living guards that count for it; it respects the limit,
  -- unless that is zero, and no entry is left at zero.
  pub record Books (m : Assoc K ℕ) (gs : List G) : Type 0 where
    pub counts : (k : K) → tally k m ≡ count_by (owns k) gs
    pub capped : 0 < limit → (k : K) → tally k m ≤ limit
    pub live : All IsLive m

  pub empty-Books : Books [] []
  unfolding tally lookup
  empty-Books = record { counts = λ k. refl; capped = λ on k. omega arith; live = tt }

  module _ (m : Assoc K ℕ) (gs : List G) (b : Books m gs) where
    -- A guard that counts for nobody, taken.
    pub skip-Books : (g : G) → ((k : K) → owns k g ≡ false) → Books m (g ∷ gs)
    skip-Books g nobody = record {
      counts = λ k. ground (arith, nobody k, b.counts k);
      capped = b.capped;
      live = b.live;
    }

    -- A guard taken for a key that is below the limit.
    pub take-Books :
        (k : K) (g : G)
        → ((j : K) → owns j g ≡ (k == j))
        → tally k m < limit
        → Books (insert k (tally k m + 1) m) (g ∷ gs)
    take-Books k g owner room = record {
      counts = λ j.
          ground (arith, owner j, tally-insert k j (tally k m + 1) m, tally-same k j m, b.counts j);
      capped = λ on j. ground (arith, tally-insert k j (tally k m + 1) m, b.capped on j);
      live = All-insert IsLive k (tally k m + 1) m (omega arith) b.live;
    }

    -- A guard refused for a key that is at the limit.
    pub refuse-Books : (k : K) → 0 < limit → limit ≤ tally k m → Books (insert k (tally k m) m) gs
    refuse-Books k on full = record {
      counts = λ j. ground (arith, tally-insert k j (tally k m) m, tally-same k j m, b.counts j);
      capped =
          λ on j. ground (arith, tally-insert k j (tally k m) m, tally-same k j m, b.capped on j);
      live = All-insert IsLive k (tally k m) m (omega arith) b.live;
    }

    module _ (i : ℕ) (g : G) (at : get_elem? gs i ≡ some g) where
      count-remove_at :
          (k : K)
          → count_by (owns k) gs ≡ (if owns k g then 1 else 0) + count_by (owns k) (remove_at i gs)
      count-remove_at k = ground (arith, at, count_by-remove_at (owns k) i gs)

      pub drop_skipped-Books : ((k : K) → owns k g ≡ false) → Books m (remove_at i gs)
      drop_skipped-Books nobody = record {
        counts = λ k. ground (arith, nobody k, b.counts k, count-remove_at k);
        capped = b.capped;
        live = b.live;
      }

      pub drop-Books :
          (k : K) → ((j : K) → owns j g ≡ (k == j)) → Books (lower k m) (remove_at i gs)
      drop-Books k owner = record {
        counts = λ j. ground (arith, owner j, tally-lower k j m, b.counts j, count-remove_at j);
        capped = λ on j. ground (arith, tally-lower k j m, b.capped on j);
        live = lower-IsLive k m b.live;
      }
