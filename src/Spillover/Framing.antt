-- ===== src/Spillover/Framing.antt =====
-- A frame read back from the bytes that were written for it (crates/cq-transport/src/spillover.rs).
use cqserver.Prelude.{
  ℕ, zero, suc, ◌+◌, ◌-◌, ◌/◌, ◌%◌, ◌^◌, ◌≡◌, ◌≤◌, ◌<◌, refl, ap, sym, ◌∙◌, Bool, true, false, some,
  List, [], ◌∷◌, ◌++◌, arith, ltb, length, drop, length-append, take-length-append, ok,
}
use cqserver.Spillover.State.{
  OutboundFrame, text, binary, Spillover, to_be_bytes, from_be_bytes, encode, frame_size, read_at,
}

-- A frame that a file can hold: its length fits the prefix, and a text is UTF-8.
abbrev pub IsFrame : (List ℕ → Bool) → OutboundFrame → Type 0
IsFrame is_utf8 (text b) = (length b < 2 ^ 32) × (is_utf8 b ≡ true)
IsFrame is_utf8 (binary b) = length b < 2 ^ 32

be_bytes_round_trip :
    (n : ℕ)
    → n < 2 ^ 32
    → from_be_bytes (n / 2 ^ 24 % 256) (n / 2 ^ 16 % 256) (n / 2 ^ 8 % 256) (n % 256) ≡ n
unfolding from_be_bytes
be_bytes_round_trip n small = omega (arith, small)

pub length-encode : (f : OutboundFrame) → length (encode f) ≡ frame_size f
unfolding encode to_be_bytes
length-encode f = omega arith

pub read_at-encode :
    (is_utf8 : List ℕ → Bool) (f : OutboundFrame) (rest : List ℕ) (s : Spillover)
    → IsFrame is_utf8 f
    → read_at is_utf8 (encode f ++ rest) s ≡ (
      record s {
        read_offset = s.read_offset + frame_size f;
        pending = (s.pending + (2 ^ 64 - 1)) % 2 ^ 64;
      },
      ok (some f),
    )
unfolding read_at encode to_be_bytes
read_at-encode is_utf8 (text b) rest s (small, valid) =
    let len = be_bytes_round_trip (length b) small in
    let fits : ltb (length (b ++ rest)) (length b) ≡ false = ground (arith, length-append b rest) in
    rw (len, fits, take-length-append b rest, valid) refl
read_at-encode is_utf8 (binary b) rest s small =
    let len = be_bytes_round_trip (length b) small in
    let fits : ltb (length (b ++ rest)) (length b) ≡ false = ground (arith, length-append b rest) in
    rw (len, fits, take-length-append b rest) refl

pub drop-append : (n : ℕ) (xs ys : List ℕ) → n ≤ length xs → drop n (xs ++ ys) ≡ drop n xs ++ ys
drop-append zero xs ys le = refl
drop-append (suc n) [] ys le = absurd (omega (arith, le))
drop-append (suc n) (x ∷ xs) ys le = drop-append n xs ys (omega (arith, le))

drop-empty : (n : ℕ) → drop {A = ℕ} n [] ≡ []
drop-empty zero = refl
drop-empty (suc n) = refl

pub drop-more : (n k : ℕ) (xs : List ℕ) → drop (n + k) xs ≡ drop k (drop n xs)
drop-more zero k xs = let e : 0 + k ≡ k = omega arith in ap (λ i. drop i xs) e
drop-more (suc n) k [] = drop-empty (suc n + k) ∙ sym (drop-empty k)
drop-more (suc n) k (x ∷ xs) =
    let e : suc n + k ≡ suc (n + k) = omega arith in ap (λ i. drop i (x ∷ xs)) e ∙ drop-more n k xs
