-- ===== src/Tests/Frames.antt =====
-- Frames on a connection (internal/proto/codec.go and reason.go).
use secure_access_relay.Common.{◌<◌, Bytes, IsBytes, [], ◌∷◌, ◌++◌, ◌≡◌, refl, arith}
use secure_access_relay.Common.Except.{ok}
use secure_access_relay.Proto.Reason.{
  Reason, reason_bytes, reason_of_bytes, reason_of_bytes-reason_bytes,
}
use secure_access_relay.Proto.Frame.{FrameType, Frame, eof, encode_header}
use secure_access_relay.Proto.Codec.{Reader, read_frame, frame_bytes, new_writer}
use secure_access_relay.Proto.Codec.Reads.{reader_of, read_frames}
use secure_access_relay.Proto.Codec.Writes.{write_frames, outcomes_for, read_frames-write_frames}

abbrev data_frame : Frame
data_frame = record { type = FrameType.stream_data; stream_id = 3; payload = 1 ∷ 2 ∷ [] }

abbrev ping_frame : Frame
ping_frame = record { type = FrameType.ping; stream_id = 0; payload = [] }

abbrev arriving : Reader
arriving = reader_of (frame_bytes data_frame ++ 9 ∷ []) eof 16

read_run : read_frame arriving ≡ ok (data_frame, reader_of (9 ∷ []) eof 16)
unfolding read_frame encode_header
read_run = refl

arriving-IsBytes : IsBytes arriving.input.arriving
unfolding encode_header
arriving-IsBytes = ground arith

read_frames-write_frames_example :
    read_frames 2 (
      reader_of
        (write_frames
          (new_writer (outcomes_for (data_frame ∷ ping_frame ∷ [])) 16)
          (data_frame ∷ ping_frame ∷ [])).out
        eof
        16)
    ≡ (data_frame ∷ ping_frame ∷ [], ok (reader_of [] eof 16))
read_frames-write_frames_example =
    read_frames-write_frames (data_frame ∷ ping_frame ∷ []) eof 16
      ((omega arith, omega arith, omega arith), ((omega arith, omega arith, omega arith), tt))

abbrev cut : Bytes
cut = encode_header FrameType.stream_data 3 2 ++ 1 ∷ []

one_small : (new_writer [] 1).max < 2
unfolding new_writer
one_small = omega arith

reason_of_bytes-reason_bytes_example :
    reason_of_bytes (reason_bytes Reason.grant_expired) ≡ Reason.grant_expired
reason_of_bytes-reason_bytes_example = reason_of_bytes-reason_bytes Reason.grant_expired tt
