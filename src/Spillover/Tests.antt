-- ===== src/Spillover/Tests.antt =====
-- Runs of the overflow file, and the theorems about it at these.
use cqserver.Prelude.{
  ℕ, ◌+◌, ◌-◌, ◌^◌, ◌≡◌, ◌<◌, ◌⊎◌, refl, arith, Bool, true, some, List, [], ◌∷◌, ◌++◌, ok, err,
}
use cqserver.Spillover.State.{
  text, binary, Spillover, encode, to_be_bytes, over_cap, open_file, write_frame, read_next_frame,
  is_empty,
}
use cqserver.Spillover.Fifo.{
  Holds, encode_all, total_size, write_frame-Holds, read_next_frame-Holds,
}
use cqserver.Spillover.Reopened.{open_file-backlog}

abbrev anything : List ℕ → Bool
anything b = true

abbrev two_frames : Spillover
two_frames = record {
  file = 0 ∷ 0 ∷ 0 ∷ 0 ∷ 1 ∷ 65 ∷ 1 ∷ 0 ∷ 0 ∷ 0 ∷ 2 ∷ 7 ∷ 8 ∷ [];
  read_offset = 0;
  write_offset = 13;
  pending = 2;
  max_bytes = 20;
}

two_frames-Holds : Holds anything two_frames (text (65 ∷ []) ∷ binary (7 ∷ 8 ∷ []) ∷ [])
unfolding encode_all encode to_be_bytes total_size
two_frames-Holds = record {
  bytes = refl;
  tail = omega arith;
  full = omega arith;
  counted = refl;
  capped = omega arith;
  frames = ((omega arith, refl), (omega arith, tt));
}

write_frame-Holds_example :
    ((20 < total_size (text (65 ∷ []) ∷ binary (7 ∷ 8 ∷ []) ∷ []) + 6)
      × (write_frame (text (66 ∷ [])) two_frames ≡ err (over_cap 20)))
    ⊎ ((s' : Spillover) × (write_frame (text (66 ∷ [])) two_frames ≡ ok s')
        × Holds anything s' (text (65 ∷ []) ∷ binary (7 ∷ 8 ∷ []) ∷ text (66 ∷ []) ∷ []))
write_frame-Holds_example =
    write_frame-Holds anything two_frames (text (65 ∷ []) ∷ binary (7 ∷ 8 ∷ []) ∷ [])
      (text (66 ∷ [])) two_frames-Holds (omega arith, refl) (omega arith)

read_next_frame-Holds_example :
    (s' : Spillover) × (read_next_frame anything two_frames ≡ (s', ok (some (text (65 ∷ [])))))
    × Holds anything s' (binary (7 ∷ 8 ∷ []) ∷ [])
read_next_frame-Holds_example =
    read_next_frame-Holds anything two_frames (text (65 ∷ [])) (binary (7 ∷ 8 ∷ []) ∷ [])
      two_frames-Holds (omega arith)

open_file-backlog_example :
    (is_empty (open_file (encode (text (65 ∷ [])) ++ 1 ∷ []) 20) ≡ true)
    × ((read_next_frame anything (open_file (encode (text (65 ∷ [])) ++ 1 ∷ []) 20)).1
        ≡ ok (some (text (65 ∷ []))))
    × ((read_next_frame anything (open_file (encode (text (65 ∷ [])) ++ 1 ∷ []) 20)).0.pending
        ≡ 2 ^ 64 - 1)
open_file-backlog_example =
    open_file-backlog anything (text (65 ∷ [])) (1 ∷ []) 20 (omega arith, refl)
