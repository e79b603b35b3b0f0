-- ===== src/Proto/Codec.antt =====
-- internal/proto/codec.go: reading frames from a connection and writing them to one.
pub mod Reads
pub mod Writes
pub mod Truncation
use secure_access_relay.Common.{
  ℕ, ◌+◌, Bytes, ltb, leb, ◌==◌, if◌then◌else◌, u32, take, drop, length, Option, none, some, List,
  [], ◌∷◌, ◌++◌,
}
use secure_access_relay.Proto.Reason.{Reason, reason_bytes}
use secure_access_relay.Common.Except.{ok, err, ◌>>=◌}
use secure_access_relay.Proto.Frame.{
  FrameType, close_stream, error, Frame, Header, ProtoError, frame_too_large, malformed_frame, eof,
  unexpected_eof, io_error, Result, header_size, encode_header, decode_header,
}

-- The bytes that will arrive, and the error that a read meets after the last of them.
pub record Input : Type 0 where
  pub arriving : Bytes
  pub ending : ProtoError

-- How `io.ReadFull` reports an end after some bytes.
abbrev pub cut_short : ProtoError → ProtoError
cut_short eof = unexpected_eof
cut_short e = e

abbrev pub ending_of : Bytes → ProtoError → ProtoError
ending_of [] e = e
ending_of (b ∷ bs) e = cut_short e

-- `io.ReadFull` of n bytes, n > 0.
unfoldable pub read_full : ℕ → Input → Result (Bytes × Input)
read_full n inp =
    if leb n (length inp.arriving)
    then ok (take n inp.arriving, record inp { arriving = drop n inp.arriving })
    else err (ending_of inp.arriving inp.ending)

pub record Reader : Type 0 where
  pub input : Input
  pub max : ℕ

unfoldable pub new_reader : Input → ℕ → Reader
new_reader inp max = record { input = inp; max = max }

-- An end within the payload is a malformed frame.
abbrev pub truncated : ProtoError → ProtoError
truncated eof = malformed_frame
truncated unexpected_eof = malformed_frame
truncated e = e

unfoldable pub read_payload : ℕ → Input → Result (Bytes × Input)
unfolding read_full
read_payload len inp = elim (read_full len inp) [ ok r ↦ ok r | err e ↦ err (truncated e) ]

abbrev pub frame_of : Header → Bytes → Frame
frame_of h payload = record { type = h.type; stream_id = h.stream_id; payload = payload }

-- A frame with no payload reads nothing more.
unfoldable pub read_body : Reader → Header → Input → Result (Frame × Reader)
unfolding read_payload
read_body r h inp =
    if h.len == 0
    then ok (frame_of h [], record r { input = inp })
    else (read_payload h.len inp >>= λ (payload, rest).
        ok (frame_of h payload, record r { input = rest }))

-- After an error the connection is closed, so no reader is returned.
unfoldable pub read_frame : Reader → Result (Frame × Reader)
unfolding read_full decode_header read_body
read_frame r = do
  (header, inp) ← read_full header_size r.input
  h ← decode_header header r.max
  read_body r h inp

-- What the next `Write` calls of the connection do: succeed, or fail after some bytes.
pub data Outcome : Type 0 where
  whole : Outcome
  failing_after : ℕ → Outcome

pub record Writer : Type 0 where
  pub out : Bytes
  pub outcomes : List Outcome
  pub max : ℕ

unfoldable pub new_writer : List Outcome → ℕ → Writer
new_writer outcomes max = record { out = []; outcomes = outcomes; max = max }

-- `io.Writer`'s `Write`; past the outcomes given the connection is gone.
write_outcome : List Outcome → Writer → Bytes → Writer × Option ProtoError
write_outcome [] w b = (w, some io_error)
write_outcome (whole ∷ os) w b = (record w { out = w.out ++ b; outcomes = os }, none)
write_outcome (failing_after k ∷ os) w b =
    (record w { out = w.out ++ take k b; outcomes = os }, some io_error)

unfoldable pub write : Writer → Bytes → Writer × Option ProtoError
unfolding write_outcome
write w b = write_outcome w.outcomes w b

abbrev pub then_write : Writer × Option ProtoError → Bytes → Writer × Option ProtoError
then_write (w, some e) b = (w, some e)
then_write (w, none) b = if ltb 0 (length b) then write w b else (w, none)

unfoldable pub write_frame : Writer → FrameType → ℕ → Bytes → Writer × Option ProtoError
unfolding write encode_header
write_frame w t stream_id payload =
    if ltb w.max (u32 (length payload))
    then (w, some frame_too_large)
    else then_write (write w (encode_header t stream_id (u32 (length payload)))) payload

unfoldable pub write_close : Writer → ℕ → Reason → Writer × Option ProtoError
unfolding write_frame
write_close w stream_id r = write_frame w close_stream stream_id (reason_bytes r)

unfoldable pub write_error : Writer → Reason → Writer × Option ProtoError
unfolding write_frame
write_error w r = write_frame w error 0 (reason_bytes r)

-- The bytes of one frame.
abbrev pub frame_bytes : Frame → Bytes
frame_bytes f = encode_header f.type f.stream_id (length f.payload) ++ f.payload
