-- ===== src/Spillover/Reopened.antt =====
-- A file that exists already when it is opened (crates/cq-transport/src/spillover.rs).
use cqserver.Prelude.{
  ℕ, ◌-◌, ◌^◌, ◌≡◌, refl, Bool, true, false, some, List, ◌++◌, arith, leb, length, length-append,
  ok,
}
use cqserver.Spillover.State.{OutboundFrame, encode, open_file, read_next_frame, is_empty}
use cqserver.Spillover.Framing.{IsFrame, length-encode, read_at-encode}

-- A file that holds a frame when it is opened counts as empty, although the frame can be read; the
-- read then takes the count of pending frames below zero, to the greatest number of its width.
pub open_file-backlog :
    (is_utf8 : List ℕ → Bool) (f : OutboundFrame) (rest : List ℕ) (max_bytes : ℕ)
    → IsFrame is_utf8 f
    → (is_empty (open_file (encode f ++ rest) max_bytes) ≡ true)
      × ((read_next_frame is_utf8 (open_file (encode f ++ rest) max_bytes)).1 ≡ ok (some f))
      × ((read_next_frame is_utf8 (open_file (encode f ++ rest) max_bytes)).0.pending ≡ 2 ^ 64 - 1)
unfolding is_empty open_file read_next_frame
open_file-backlog is_utf8 f rest max_bytes valid =
    let s = open_file (encode f ++ rest) max_bytes in
    let some_bytes : leb (length (encode f ++ rest)) 0 ≡ false =
      ground (arith, length-append (encode f) rest, length-encode f) in
    let reads = read_at-encode is_utf8 f rest s valid in
    (refl, rw (some_bytes, reads) refl, rw (some_bytes, reads) refl)
