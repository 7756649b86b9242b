-- ===== src/Spillover/Fifo.antt =====
-- The overflow file is a queue of frames: what is written comes out once, in the same order, within
-- the cap (crates/cq-transport/src/spillover.rs).
use mathlib.Core.List.{append-nil, append_assoc}
use cqserver.Prelude.{
  ℕ, ◌+◌, ◌-◌, ◌%◌, ◌^◌, ◌≡◌, ◌≤◌, ◌<◌, ◌⊎◌, refl, ap, sym, ◌∙◌, Bool, true, false, none, some,
  List, [], ◌∷◌, ◌++◌, arith, inl, inr, Bool-cases, ltb, leb, length, drop, drop-length-append,
  length-append, All, append-All, ok, err,
}
use cqserver.Spillover.State.{
  OutboundFrame, Spillover, encode, frame_size, over_cap, open_file, write_frame, read_next_frame,
}
use cqserver.Spillover.Framing.{IsFrame, length-encode, read_at-encode, drop-append, drop-more}

-- The file's bytes for a list of frames, and how many they are.
unfoldable pub encode_all : List OutboundFrame → List ℕ
encode_all [] = []
encode_all (f ∷ fs) = encode f ++ encode_all fs

unfoldable pub total_size : List OutboundFrame → ℕ
total_size [] = 0
total_size (f ∷ fs) = frame_size f + total_size fs

module _ (is_utf8 : List ℕ → Bool) where
  -- The frames that wait in the file behind the cursor.
  pub record Holds (s : Spillover) (fs : List OutboundFrame) : Type 0 where
    pub bytes : drop s.read_offset s.file ≡ encode_all fs
    pub tail : s.read_offset + total_size fs ≡ s.write_offset
    pub full : s.write_offset ≡ length s.file
    pub counted : s.pending ≡ length fs
    pub capped : total_size fs ≤ s.max_bytes
    pub frames : All (IsFrame is_utf8) fs

  pub open_file-Holds : (max_bytes : ℕ) → Holds (open_file [] max_bytes) []
  unfolding open_file encode_all total_size
  open_file-Holds max_bytes = record {
    bytes = refl;
    tail = omega arith;
    full = omega arith;
    counted = refl;
    capped = omega arith;
    frames = tt;
  }

  encode_all-append :
      (fs : List OutboundFrame) (f : OutboundFrame)
      → encode_all (fs ++ f ∷ []) ≡ encode_all fs ++ encode f
  unfolding encode_all
  encode_all-append [] f = append-nil (encode f)
  encode_all-append (g ∷ fs) f =
      ap (λ x. encode g ++ x) (encode_all-append fs f)
      ∙ sym (append_assoc (encode g) (encode_all fs) (encode f))

  total_size-append :
      (fs : List OutboundFrame) (f : OutboundFrame)
      → total_size (fs ++ f ∷ []) ≡ total_size fs + frame_size f
  unfolding total_size
  total_size-append [] f = omega arith
  total_size-append (g ∷ fs) f = omega (arith, total_size-append fs f)

  -- On a file that holds a list of frames, fewer than its counter can count, a write either finds
  -- that these and the new frame pass the cap, and says so, or leaves a file that holds the new
  -- frame behind them.
  pub write_frame-Holds :
      (s : Spillover) (fs : List OutboundFrame) (f : OutboundFrame)
      → Holds s fs
      → IsFrame is_utf8 f
      → length fs + 1 < 2 ^ 64
      → ((s.max_bytes < total_size fs + frame_size f)
          × (write_frame f s ≡ err (over_cap s.max_bytes)))
        ⊎ ((s' : Spillover) × (write_frame f s ≡ ok s') × Holds s' (fs ++ f ∷ []))
  unfolding write_frame
  write_frame-Holds s fs f h valid room =
      elim (Bool-cases (ltb s.max_bytes (s.write_offset - s.read_offset + frame_size f))) [
        | inl over ↦ inl (ground (arith, over, h.tail), rw over refl)
        | inr fits ↦
            let s' : Spillover = record s {
              file = s.file ++ encode f;
              write_offset = s.write_offset + frame_size f;
              pending = (s.pending + 1) % 2 ^ 64;
            } in
            inr (
              s',
              rw fits refl,
              record {
                bytes =
                    drop-append s.read_offset s.file (encode f) (omega (arith, h.full, h.tail))
                    ∙ (ap (λ x. x ++ encode f) h.bytes ∙ sym (encode_all-append fs f));
                tail = omega (arith, h.tail, total_size-append fs f);
                full = omega (arith, h.full, length-append s.file (encode f), length-encode f);
                counted = omega (arith, h.counted, room, length-append fs (f ∷ []));
                capped = ground (arith, fits, h.tail, total_size-append fs f);
                frames = append-All (IsFrame is_utf8) fs (f ∷ []) h.frames (valid, tt);
              },
            )
      ]

  -- On a file that holds frames, the first and fewer than 2 ^ 63 others, a read returns the first
  -- and leaves a file that holds the others.
  pub read_next_frame-Holds :
      (s : Spillover) (f : OutboundFrame) (fs : List OutboundFrame)
      → Holds s (f ∷ fs)
      → length fs < 2 ^ 63
      → (s' : Spillover) × (read_next_frame is_utf8 s ≡ (s', ok (some f))) × Holds s' fs
  unfolding read_next_frame encode_all total_size
  read_next_frame-Holds s f fs h small =
      let more : leb s.write_offset s.read_offset ≡ false = ground (arith, h.tail) in
      let s' : Spillover = record s {
        read_offset = s.read_offset + frame_size f;
        pending = (s.pending + (2 ^ 64 - 1)) % 2 ^ 64;
      } in
      (
        s',
        rw (more, h.bytes) (read_at-encode is_utf8 f (encode_all fs) s h.frames.0),
        record {
          bytes =
              drop-more s.read_offset (frame_size f) s.file
              ∙ (ap (drop (frame_size f)) h.bytes
                  ∙ (ap (λ n. drop n (encode f ++ encode_all fs)) (sym (length-encode f))
                      ∙ drop-length-append (encode f) (encode_all fs)));
          tail = omega (arith, h.tail);
          full = h.full;
          counted = omega (arith, h.counted, small);
          capped = omega (arith, h.capped);
          frames = h.frames.1;
        },
      )

  pub read_nothing : (s : Spillover) → Holds s [] → read_next_frame is_utf8 s ≡ (s, ok none)
  unfolding read_next_frame total_size
  read_nothing s h =
      let none_left : leb s.write_offset s.read_offset ≡ true = ground (arith, h.tail) in
      rw none_left refl
