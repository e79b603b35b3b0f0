-- ===== src/Proto/Codec/Writes.antt =====
-- What a write leaves on the connection (internal/proto/codec.go), and how it is read.
use secure_access_relay.Common.{
  ℕ, ◌≤◌, ◌<◌, Bytes, List, [], ◌∷◌, ◌++◌, ◌≡◌, refl, sym, ◌∙◌, arith, length, append-nil,
  append_assoc, u32_mod, some, none, All,
}
use secure_access_relay.Common.Except.{ok}
use secure_access_relay.Proto.Frame.{FrameType, Frame, encode_header, ProtoError, frame_too_large}
use secure_access_relay.Proto.Codec.{
  Writer, Outcome, whole, write, write_frame, frame_bytes, new_writer,
}
use secure_access_relay.Proto.Codec.Reads.{
  read_frames, read_frames-stream_bytes, stream_bytes, Fits, reader_of,
}

-- The calls of `Write` that a frame takes, all successful: an empty payload is not written.
abbrev pub call_outcomes : Bytes → List Outcome → List Outcome
call_outcomes [] os = whole ∷ os
call_outcomes (x ∷ p) os = whole ∷ whole ∷ os

wrote :
    (w : Writer) (t : FrameType) (id : ℕ) (p : Bytes) (os : List Outcome)
    → w.outcomes ≡ call_outcomes p os
    → length p < u32_mod
    → length p ≤ w.max
    → write_frame w t id p
      ≡ (record w { out = w.out ++ (encode_header t id (length p) ++ p); outcomes = os }, none)
unfolding write_frame write
wrote w t id [] os h lt le = ground (arith, append-nil (encode_header t id 0))
wrote w t id (x ∷ p) os h lt le =
    ground (arith, append_assoc w.out (encode_header t id (length (x ∷ p))) (x ∷ p))

pub write_frame-Fits :
    (w : Writer) (f : Frame) (os : List Outcome)
    → w.outcomes ≡ call_outcomes f.payload os
    → Fits w.max f
    → write_frame w f.type f.stream_id f.payload
      ≡ (record w { out = w.out ++ frame_bytes f; outcomes = os }, none)
write_frame-Fits w f os h (hi, lt, le) = wrote w f.type f.stream_id f.payload os h lt le

-- A payload above the limit is refused, and nothing is written.
pub write_frame-too_large :
    (w : Writer) (t : FrameType) (id : ℕ) (p : Bytes)
    → length p < u32_mod
    → w.max < length p
    → write_frame w t id p ≡ (w, some frame_too_large)
unfolding write_frame
write_frame-too_large w t id p lt h = ground arith

-- `WriteFrame` on each frame in turn.
abbrev pub write_frames : Writer → List Frame → Writer
write_frames w [] = w
write_frames w (f ∷ fs) = write_frames (write_frame w f.type f.stream_id f.payload).0 fs

-- What the connection does on these writes: every call succeeds.
abbrev pub outcomes_for : List Frame → List Outcome
outcomes_for [] = []
outcomes_for (f ∷ fs) = call_outcomes f.payload (outcomes_for fs)

-- Frames that fit are written whole, one after another.
out-write_frames :
    (fs : List Frame) (w : Writer)
    → All (Fits w.max) fs
    → w.outcomes ≡ outcomes_for fs
    → (write_frames w fs).out ≡ w.out ++ stream_bytes fs
out-write_frames [] w h e = sym (append-nil w.out)
out-write_frames (f ∷ fs) w (hf, h) e =
    rw (write_frame-Fits w f (outcomes_for fs) e hf, write_frames)
      (out-write_frames fs (record w { out = w.out ++ frame_bytes f; outcomes = outcomes_for fs }) h
          refl
        ∙ append_assoc w.out (frame_bytes f) (stream_bytes fs))

-- The frames that one end writes, each within the limit, are the frames that the other end reads,
-- in the same order, and after the last of them it meets the connection's own end.
pub read_frames-write_frames :
    (fs : List Frame) (e : ProtoError) (max : ℕ)
    → All (Fits max) fs
    → read_frames
        (length fs)
        (reader_of (write_frames (new_writer (outcomes_for fs) max) fs).out e max)
      ≡ (fs, ok (reader_of [] e max))
unfolding new_writer
read_frames-write_frames fs e max h =
    rw (out-write_frames fs (new_writer (outcomes_for fs) max) h refl)
      (read_frames-stream_bytes fs e max h)
