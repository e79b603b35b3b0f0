-- ===== src/Mux/Session/Dispatch.antt =====
-- internal/mux/session.go: what the read loop does with a frame.
use secure_access_relay.Common.{
  ℕ, ◌%◌, Bytes, ltb, leb, ◌==◌, Bool, true, false, if◌then◌else◌, u32, length, [], ◌∷◌, ◌++◌,
  Option, none, some,
}
use secure_access_relay.Common.Except.{Except, ok, err}
use secure_access_relay.Common.Table.{lookup}
use secure_access_relay.Proto.Reason.{Reason, reason_of_bytes}
use secure_access_relay.Proto.Frame.{
  FrameType, Frame, ProtoError, malformed_frame, frame_too_large, eof, reason_for,
}
use secure_access_relay.Proto.Handshake.{decode_window}
use secure_access_relay.Mux.Stream.{Stream, deliver, grant_credit, remote_close, FlowViolation}
use secure_access_relay.Mux.Session.{
  Session, MuxError, session_closed, codec, fatal, write_out, write_close, make_stream, stream_at,
  put_stream, retire, retire_if_done, set_err, complete_open, shutdown,
}

-- An identifier from the dialer's half of the space.
abbrev pub is_odd : ℕ → Bool
is_odd id = id % 2 == 1

abbrev pub same : Bool → Bool → Bool
same true b = b
same false true = false
same false false = true

-- The stream is queued for `AcceptStream`, or refused if the queue is full.
unfoldable pub enqueue : ℕ → ℕ → Session → Session × Option MuxError
unfolding retire write_close
enqueue id h s =
    if ltb (length s.accept_queue) s.max_streams
    then (record s { accept_queue = s.accept_queue ++ h ∷ [] }, none)
    else write_close id Reason.limit_streams_exceeded (retire id s)

abbrev pub acknowledged : ℕ → ℕ → Session × Option MuxError → Session × Option MuxError
acknowledged id h (s, some e) = (s, some e)
acknowledged id h (s, none) = enqueue id h s

-- `handleOpen`
unfoldable pub handle_open : ℕ → Bytes → Session → Session × Option MuxError
unfolding lookup make_stream write_out write_close enqueue
handle_open id payload s = elim (lookup id s.streams) [
  | some h ↦ (s, some (codec malformed_frame))
  | none ↦
      if same (is_odd id) s.is_client
      then (s, some (codec malformed_frame))
      else if leb s.max_streams (u32 (length s.streams))
      then write_close id Reason.limit_streams_exceeded s
      else acknowledged id s.made (write_out FrameType.stream_ok id [] (make_stream id payload s))
]

abbrev pub on_delivery : ℕ → Except FlowViolation Stream → Session → Session × Option MuxError
on_delivery id (ok st) s = (put_stream id st s, none)
on_delivery id (err e) s = (s, some (fatal Reason.flow_control_violation))

unfoldable pub handle_data : ℕ → Bytes → Session → Session × Option MuxError
unfolding stream_at deliver put_stream
handle_data id payload s = elim (stream_at id s) [
  | none ↦ (s, none)
  | some st ↦ on_delivery id (deliver payload st) s
]

abbrev pub with_credit : ℕ → ℕ → Option Stream → Session → Session
with_credit id credit none s = s
with_credit id credit (some st) s = put_stream id (grant_credit credit st) s

unfoldable pub handle_window : ℕ → Bytes → Session → Session × Option MuxError
unfolding stream_at put_stream grant_credit decode_window
handle_window id payload s = elim (decode_window payload) [
  | err e ↦ (s, some (codec e))
  | ok credit ↦ (with_credit id credit (stream_at id s) s, none)
]

-- `if reason == "" { reason = ReasonOK }`
abbrev pub or_ok : Reason → Reason
or_ok (Reason.other []) = Reason.ok
or_ok r = r

abbrev pub closed_by_peer : ℕ → Reason → Option Stream → Session → Session
closed_by_peer id r none s = s
closed_by_peer id r (some st) s =
    retire_if_done (remote_close r st) (put_stream id (remote_close r st) s)

unfoldable pub handle_close : ℕ → Reason → Session → Session
unfolding complete_open stream_at put_stream retire_if_done remote_close
handle_close id r s = let t = complete_open id r s in closed_by_peer id r (stream_at id t) t

-- `dispatch`; an error ends the session.
unfoldable pub dispatch : FrameType → ℕ → Bytes → Session → Session × Option MuxError
unfolding handle_open complete_open handle_data handle_window handle_close write_out set_err
    shutdown
dispatch FrameType.open_stream id p s = handle_open id p s
dispatch FrameType.stream_ok id p s = (complete_open id Reason.ok s, none)
dispatch FrameType.stream_data id p s = handle_data id p s
dispatch FrameType.stream_window id p s = handle_window id p s
dispatch FrameType.close_stream id p s = (handle_close id (or_ok (reason_of_bytes p)) s, none)
dispatch FrameType.ping id p s = write_out FrameType.pong 0 p s
dispatch FrameType.pong id p s = (s, none)
dispatch FrameType.error id p s =
    (shutdown (reason_of_bytes p) (set_err (session_closed (some (reason_of_bytes p))) s), none)
dispatch FrameType.hello id p s = (s, some (codec malformed_frame))
dispatch FrameType.hello_ack id p s = (s, some (codec malformed_frame))
dispatch FrameType.auth id p s = (s, some (codec malformed_frame))
dispatch FrameType.auth_ok id p s = (s, some (codec malformed_frame))

-- The reason for an error of `dispatch`.
abbrev pub reason_of_error : MuxError → Reason
reason_of_error (fatal r) = r
reason_of_error _ = Reason.protocol_malformed_frame

abbrev pub dispatched : Session × Option MuxError → Session
dispatched (s, none) = s
dispatched (s, some e) = shutdown (reason_of_error e) (set_err e s)

abbrev pub read_error : ProtoError → MuxError
read_error eof = session_closed none
read_error e = codec e

-- One round of `readLoop`: a frame, or the error of the read. It stops once the session is done.
unfoldable pub receive : Except ProtoError Frame → Session → Session
unfolding dispatch set_err shutdown reason_for
receive (err e) s = shutdown (reason_for (some e)) (set_err (read_error e) s)
receive (ok f) s =
    if ltb s.max_frame (u32 (length f.payload))
    then shutdown Reason.limit_frame_too_large (set_err (codec frame_too_large) s)
    else dispatched (dispatch f.type f.stream_id f.payload s)
