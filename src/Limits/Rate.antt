-- ===== src/Limits/Rate.antt =====
-- How many accepts a second the window lets through (`RateWindow` in
-- crates/cq-transport/src/limits.rs).
use cqserver.Prelude.{
  ℕ, min, zero, suc, ◌+◌, ◌%◌, ap, ◌-◌, ◌*◌, ◌<◌, ◌≤◌, ◌^◌, ◌≡◌, refl, true, false, List, [], ◌∷◌,
  ◌++◌, arith, leb, if◌then◌else◌, All, length, replicate,
}
use cqserver.Limits.State.{RateWindow, try_admit}

-- The accepts that are admitted in a run of attempts at these times.
unfoldable pub admitted : ℕ → List ℕ → RateWindow → RateWindow × ℕ
admitted limit [] w = (w, 0)
admitted limit (now ∷ times) w =
    let (w', admits) = try_admit now limit w in
    let (w'', n) = admitted limit times w' in (w'', (if admits then 1 else 0) + n)

-- A time at which the window does not roll over.
abbrev pub IsWithin : RateWindow → ℕ → Type 0
IsWithin w now = now - w.window_start_ms < 1000

-- Attempts while a window of one second lasts: as many of them are admitted as the limit leaves after
-- those that the window has counted, or all of them where they are fewer; the window counts them all
-- and stays where it was. The counter must have room for the attempts.
pub admitted_lem :
    (limit : ℕ) (times : List ℕ) (w : RateWindow)
    → All (IsWithin w) times
    → w.count + length times < 2 ^ 64
    → ((admitted limit times w).1 ≡ min (length times) (limit - w.count))
      × ((admitted limit times w).0.count ≡ w.count + length times)
      × ((admitted limit times w).0.window_start_ms ≡ w.window_start_ms)
unfolding admitted try_admit
admitted_lem limit [] w within small = (omega arith, omega arith, refl)
admitted_lem limit (now ∷ times) w within small =
    let stays : leb 1000 (now - w.window_start_ms) ≡ false = ground (arith, within.0) in
    let fits : (w.count + 1) % 2 ^ 64 ≡ w.count + 1 = omega (arith, small) in
    let w' : RateWindow = record w { count = (w.count + 1) % 2 ^ 64 } in
    let (n, c, s) = admitted_lem limit times w' within.1 (omega (arith, small, fits)) in
    rw (stays, admitted) (ground (arith, n, fits), omega (arith, c, fits), s)

admitted-append :
    (limit : ℕ) (xs ys : List ℕ) (w : RateWindow)
    → (admitted limit (xs ++ ys) w).1
      ≡ (admitted limit xs w).1 + (admitted limit ys (admitted limit xs w).0).1
unfolding admitted
admitted-append limit [] ys w = omega arith
admitted-append limit (now ∷ xs) ys w =
    omega (arith, admitted-append limit xs ys (try_admit now limit w).0)

-- A second or more after the window was opened, the first attempt opens it anew.
admitted_anew :
    (limit now : ℕ) (times : List ℕ) (w : RateWindow)
    → 1000 ≤ now - w.window_start_ms
    → admitted limit (now ∷ times) w
      ≡ admitted limit (now ∷ times) (record { window_start_ms = now; count = 0 })
unfolding admitted try_admit
admitted_anew limit now times w late =
    let rolls : leb 1000 (now - w.window_start_ms) ≡ true = ground (arith, late) in
    let stays : leb 1000 (now - now) ≡ false = ground arith in rw (rolls, admitted, stays) refl

All-replicate : (P : ℕ → Type 0) (n t : ℕ) → P t → All P (replicate n t)
All-replicate P zero t h = tt
All-replicate P (suc n) t h = (h, All-replicate P n t h)

length-replicate : (n t : ℕ) → length (replicate n t) ≡ n
length-replicate zero t = refl
length-replicate (suc n) t = omega (arith, length-replicate n t)

-- A burst at one time in a window that has counted nothing is admitted up to the limit.
burst :
    (n t : ℕ) (w : RateWindow)
    → IsWithin w t
    → w.count ≡ 0
    → n < 2 ^ 64
    → (admitted n (replicate n t) w).1 ≡ n
burst n t w within empty small =
    let len = length-replicate n t in
    let (count, _, _) =
      admitted_lem n (replicate n t) w (All-replicate (IsWithin w) n t within)
        (omega (arith, len, empty, small)) in
    omega (arith, count, len, empty)

admitted_none : (w : RateWindow) → (admitted 0 [] w).1 ≡ 0
unfolding admitted
admitted_none w = refl

-- Two bursts of `limit` attempts a millisecond apart, the one 999 and the other 1000 milliseconds
-- after a window was opened that has counted nothing, are admitted in full, which is twice the limit
-- within a second, where the limit is below 2 ^ 64.
pub admitted_twice :
    (limit start : ℕ)
    → limit < 2 ^ 64
    → (admitted limit
        (replicate limit (start + 999) ++ replicate limit (start + 1000))
        (record { window_start_ms = start; count = 0 })).1
      ≡ 2 * limit
admitted_twice zero start small = admitted_none _
admitted_twice (suc n) start small =
    let early = replicate (suc n) (start + 999) in
    let late = replicate (suc n) (start + 1000) in
    let w : RateWindow = record { window_start_ms = start; count = 0 } in
    let w' = (admitted (suc n) early w).0 in
    let len = length-replicate (suc n) (start + 999) in
    let (_, _, kept) =
      admitted_lem (suc n) early w (All-replicate (IsWithin w) (suc n) (start + 999) (omega arith))
        (omega (arith, len, small)) in
    let anew =
      admitted_anew (suc n) (start + 1000) (replicate n (start + 1000)) w' (omega (arith, kept)) in
    let second =
      burst (suc n) (start + 1000) (record { window_start_ms = start + 1000; count = 0 })
        (omega arith) refl small in
    omega (
      arith,
      admitted-append (suc n) early late w,
      burst (suc n) (start + 999) w (omega arith) refl small,
      ap (λ r. r.1) anew,
      second,
    )
