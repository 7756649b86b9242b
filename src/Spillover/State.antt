-- ===== src/Spillover/State.antt =====
-- The file, its cursors and the operations on it (`Spillover` in
-- crates/cq-transport/src/spillover.rs). Bytes are numbers; a text frame is the bytes of its text, and
-- `is_utf8` says which bytes are a text. The disk does not fail, and `io` is the end of the file met
-- too early.
use cqserver.Prelude.{
  ℕ, ◌+◌, ◌-◌, ◌*◌, ◌/◌, ◌%◌, ◌^◌, Bool, Option, none, some, List, [], ◌∷◌, ◌++◌, ltb, leb, nat_eq,
  if◌then◌else◌, length, take, drop, Result, ok, err,
}

pub data OutboundFrame : Type 0 where
  text binary : List ℕ → OutboundFrame

abbrev pub as_bytes : OutboundFrame → List ℕ
as_bytes (text b) = b
as_bytes (binary b) = b

pub data SpilloverError : Type 0 where
  io : SpilloverError
  over_cap : ℕ → SpilloverError
  malformed : SpilloverError

pub record Spillover : Type 0 where
  pub file : List ℕ
  pub read_offset : ℕ
  pub write_offset : ℕ
  pub pending : ℕ
  pub max_bytes : ℕ

abbrev pub tag_text : ℕ
tag_text = 0

abbrev pub tag_binary : ℕ
tag_binary = 1

abbrev pub tag_of : OutboundFrame → ℕ
tag_of (text b) = tag_text
tag_of (binary b) = tag_binary

-- `(n as u32).to_be_bytes()` and `u32::from_be_bytes`.
unfoldable pub to_be_bytes : ℕ → List ℕ
to_be_bytes n = n / 2 ^ 24 % 256 ∷ n / 2 ^ 16 % 256 ∷ n / 2 ^ 8 % 256 ∷ n % 256 ∷ []

unfoldable pub from_be_bytes : ℕ → ℕ → ℕ → ℕ → ℕ
from_be_bytes a b c d = ((a * 256 + b) * 256 + c) * 256 + d

-- The bytes that one frame takes in the file.
unfoldable pub encode : OutboundFrame → List ℕ
encode f = tag_of f ∷ to_be_bytes (length (as_bytes f)) ++ as_bytes f

abbrev pub frame_size : OutboundFrame → ℕ
frame_size f = 1 + 4 + length (as_bytes f)

-- A file that exists already keeps its bytes; nothing counts as pending.
unfoldable pub open_file : List ℕ → ℕ → Spillover
open_file file max_bytes = record {
  file = file;
  read_offset = 0;
  write_offset = length file;
  pending = 0;
  max_bytes = max_bytes;
}

unfoldable pub write_frame : OutboundFrame → Spillover → Result Spillover SpilloverError
write_frame f s =
    let new_size = s.write_offset - s.read_offset + frame_size f in
    if ltb s.max_bytes new_size
    then err (over_cap s.max_bytes)
    else ok (record s {
      file = s.file ++ encode f;
      write_offset = s.write_offset + frame_size f;
      pending = (s.pending + 1) % 2 ^ 64;
    })

abbrev pub Outcome : Type 0
Outcome = Spillover × Result (Option OutboundFrame) SpilloverError

-- A frame whose bytes have been read.
abbrev pub decode : (List ℕ → Bool) → ℕ → List ℕ → Result (Option OutboundFrame) SpilloverError
decode is_utf8 tag payload =
    if nat_eq tag tag_text
    then (if is_utf8 payload then ok (some (text payload)) else err malformed)
    else (if nat_eq tag tag_binary then ok (some (binary payload)) else err malformed)

-- The reads of `read_next_frame` from the bytes behind the cursor.
unfoldable pub read_at : (List ℕ → Bool) → List ℕ → Spillover → Outcome
read_at is_utf8 [] s = (s, ok none)
read_at is_utf8 (tag ∷ a ∷ b ∷ c ∷ d ∷ rest) s =
    let len = from_be_bytes a b c d in
    if ltb (length rest) len then (s, err io) else (
      record s {
        read_offset = s.read_offset + (1 + 4 + len);
        pending = (s.pending + (2 ^ 64 - 1)) % 2 ^ 64;
      },
      decode is_utf8 tag (take len rest),
    )
read_at is_utf8 (tag ∷ rest) s = (s, err io)

unfoldable pub read_next_frame : (List ℕ → Bool) → Spillover → Outcome
read_next_frame is_utf8 s =
    if leb s.write_offset s.read_offset
    then (s, ok none)
    else read_at is_utf8 (drop s.read_offset s.file) s

unfoldable pub is_empty : Spillover → Bool
is_empty s = nat_eq s.pending 0

unfoldable pub pending_bytes : Spillover → ℕ
pending_bytes s = s.write_offset - s.read_offset
