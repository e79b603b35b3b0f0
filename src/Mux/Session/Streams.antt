-- ===== src/Mux/Session/Streams.antt =====
-- internal/mux/stream.go and session.go together: the calls on a stream object, with the frames
-- that they make the session send.
use secure_access_relay.Common.{ℕ, Bytes, ltb, Bool, true, false, if◌then◌else◌, Option, none, some}
use secure_access_relay.Common.Table.{lookup, insert}
use secure_access_relay.Proto.Reason.{Reason}
use secure_access_relay.Mux.Stream.{
  Stream, ReadResult, read_eof, read_bytes, read, WriteResult, write_frame, write_round, close_with,
  reset,
}
use secure_access_relay.Mux.Session.{Session, MuxError, retire, retire_if_done}
use secure_access_relay.Mux.Session.Ops.{send_data, send_close, send_window_update}

abbrev pub store : ℕ → Stream → Session → Session
store h st s = record s { objects = insert h st s.objects }

-- A credit above zero is sent; an error of this write is left for the next call to report.
abbrev pub return_credit : ℕ → ReadResult → Session → Session
return_credit id (read_bytes got credit) s =
    if ltb 0 credit then (send_window_update id credit s).0 else s
return_credit id _ s = s

abbrev pub did_read : ℕ → Stream × ReadResult → Session → Session × ReadResult
did_read h (st, r) s = (return_credit st.id r (store h st s), r)

-- `Stream.Read` of the stream object `h`.
unfoldable pub read_stream : ℕ → ℕ → Session → Session × ReadResult
unfolding lookup insert read send_window_update
read_stream h len s = elim (lookup h s.objects) [
  | none ↦ (s, read_eof)
  | some st ↦ did_read h (read s.credit_threshold len st) s
]

abbrev pub did_write :
    ℕ → Stream × WriteResult → Session → Session × Option WriteResult × Option MuxError
did_write h (st, write_frame b) s =
    let (t, e) = send_data st.id b (store h st s) in (t, some (write_frame b), e)
did_write h (st, r) s = (store h st s, some r, none)

-- One round of `Stream.Write`, with the frame that it sends.
unfoldable pub write_stream : ℕ → Bytes → Session → Session × Option WriteResult × Option MuxError
unfolding lookup insert write_round send_data
write_stream h p s = elim (lookup h s.objects) [
  | none ↦ (s, none, none)
  | some st ↦ did_write h (write_round s.max_frame p st) s
]

abbrev pub did_close : ℕ → Reason → Stream × Bool → Session → Session × Option MuxError
did_close h r (st, false) s = (s, none)
did_close h r (st, true) s =
    let (t, e) = send_close st.id r (store h st s) in (retire_if_done st t, e)

-- `closeWith`, which `Close`, `CloseWrite` and `CloseWithReason` call.
unfoldable pub close_stream : ℕ → Reason → Session → Session × Option MuxError
unfolding lookup insert close_with send_close retire_if_done
close_stream h r s = elim (lookup h s.objects) [
  | none ↦ (s, none)
  | some st ↦ did_close h r (close_with st) s
]

abbrev pub did_reset : ℕ → Reason → Stream × Bool → Session → Session × Option MuxError
did_reset h r (st, false) s = (s, none)
did_reset h r (st, true) s = let (t, e) = send_close st.id r (store h st s) in (retire st.id t, e)

-- `Stream.Reset`
unfoldable pub reset_stream : ℕ → Reason → Session → Session × Option MuxError
unfolding lookup insert reset send_close retire
reset_stream h r s = elim (lookup h s.objects) [
  | none ↦ (s, none)
  | some st ↦ did_reset h r (reset r st) s
]
