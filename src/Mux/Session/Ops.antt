-- ===== src/Mux/Session/Ops.antt =====
-- internal/mux/session.go: what the callers of a session do.
use secure_access_relay.Common.{
  ℕ, ◌+◌, Bytes, ltb, leb, ◌&&◌, if◌then◌else◌, u32, length, [], ◌∷◌, Option, none, some,
}
use secure_access_relay.Common.Except.{Except, ok, err}
use secure_access_relay.Common.Table.{lookup, insert}
use secure_access_relay.Proto.Reason.{Reason, is_ok_reason}
use secure_access_relay.Proto.Frame.{FrameType}
use secure_access_relay.Proto.Handshake.{encode_window}
use secure_access_relay.Mux.Session.{
  Session, MuxError, session_closed, too_many_streams, context_done, stream_refused, write_out,
  write_close, make_stream, retire, err_of, set_err, close, shutdown,
}

abbrev pub or_closed : Option MuxError → MuxError
or_closed none = session_closed none
or_closed (some e) = e

-- The part of `Open` under the lock: the stream, its number in `objects`, and its identifier.
unfoldable pub register_open : Session → Session
unfolding make_stream insert
register_open s =
    let t = make_stream s.next_id [] s in
    record t { next_id = u32 (s.next_id + 2); pending = insert s.next_id s.made s.pending }

abbrev pub sent_open : ℕ → ℕ → Session × Option MuxError → Session × Except MuxError (ℕ × ℕ)
sent_open id h (s, none) = (s, ok (id, h))
sent_open id h (s, some e) = (retire id s, err e)

-- `Open` until it waits for the answer: the identifier and the stream object.
unfoldable pub open_stream : Bytes → Session → Session × Except MuxError (ℕ × ℕ)
unfolding register_open write_out retire err_of
open_stream payload s =
    if s.done
    then (s, err (or_closed (err_of s)))
    else if leb s.max_streams (u32 (length s.streams))
    then (s, err too_many_streams)
    else sent_open s.next_id s.made
        (write_out FrameType.open_stream s.next_id payload (register_open s))

-- What may end the wait of `Open`: its channel, its context, or the session.
pub data Wakeup : Type 0 where
  answered cancelled ended : Wakeup

abbrev pub on_answer : ℕ → ℕ → Option Reason → Session → Session × Option (Except MuxError ℕ)
on_answer id h none s = (s, none)
on_answer id h (some r) s =
    if is_ok_reason r then (s, some (ok h)) else (retire id s, some (err (stream_refused r)))

-- The `select` of `Open`; `none` is still to wait.
unfoldable pub finish_open : ℕ → ℕ → Wakeup → Session → Session × Option (Except MuxError ℕ)
unfolding retire err_of lookup
finish_open id h answered s = on_answer id h (lookup h s.answers) s
finish_open id h cancelled s = (retire id s, some (err context_done))
finish_open id h ended s = if s.done then (s, some (err (or_closed (err_of s)))) else (s, none)

-- `AcceptStream` when a stream is queued; it waits while none is.
unfoldable pub accept_stream : Session → Session × Option ℕ
accept_stream s = elim s.accept_queue [
  | [] ↦ (s, none)
  | h ∷ hs ↦ (record s { accept_queue = hs }, some h)
]

unfoldable pub send_data : ℕ → Bytes → Session → Session × Option MuxError
unfolding write_out err_of
send_data id b s = if s.done then (s, err_of s) else write_out FrameType.stream_data id b s

unfoldable pub send_close : ℕ → Reason → Session → Session × Option MuxError
unfolding write_close
send_close id r s = if s.done then (s, none) else write_close id r s

unfoldable pub send_window_update : ℕ → ℕ → Session → Session × Option MuxError
unfolding write_out err_of encode_window
send_window_update id credit s =
    if s.done then (s, err_of s) else write_out FrameType.stream_window id (encode_window credit) s

abbrev pub after_ping : Session × Option MuxError → Session
after_ping (s, none) = s
after_ping (s, some e) = shutdown Reason.shutdown (set_err e s)

-- One tick of `keepAliveLoop`, `since` after the last frame; an idle limit of 0 is none.
unfoldable pub keep_alive : ℕ → ℕ → Session → Session
unfolding write_out set_err shutdown close
keep_alive idle since s =
    if s.done
    then s
    else if ltb 0 idle && ltb idle since
    then close Reason.idle_timeout (set_err (session_closed none) s)
    else after_ping (write_out FrameType.ping 0 [] s)
