-- ===== src/Mux/Session/Steps.antt =====
-- Every event keeps the limits of a session (internal/mux/session.go).
use secure_access_relay.Common.{
  ℕ, ◌%◌, ◌<◌, ◌≤◌, Bytes, ltb, Bool, true, false, u32, u32_mod, length, List, [], ◌∷◌, Option,
  none, some, ◌≡◌, arith, inl, inr, Option-cases, if_intro, ◌&&◌,
}
use secure_access_relay.Common.Except.{Except, Except-cases, ok, err}
use secure_access_relay.Common.Table.{lookup}
use secure_access_relay.Proto.Reason.{Reason, reason_of_bytes, is_ok_reason}
use secure_access_relay.Proto.Frame.{FrameType, Frame, ProtoError, reason_for, frame_too_large}
use secure_access_relay.Proto.Handshake.{HelloAck, decode_window}
use secure_access_relay.Mux.Stream.{
  Stream, FlowViolation, ReadResult, read_bytes, read, WriteResult, write_frame, write_round,
  close_with, reset, deliver, grant_credit,
}
use secure_access_relay.Mux.Session.{
  Session, MuxError, codec, session_closed, new_session, stream_at,
}
use secure_access_relay.Mux.Session.Ops.{
  on_answer, Wakeup, answered, cancelled, ended, finish_open, accept_stream, after_ping, keep_alive,
}
use secure_access_relay.Mux.Session.Dispatch.{
  receive, dispatch, dispatched, reason_of_error, read_error, handle_data, on_delivery,
  handle_window, with_credit, handle_close, closed_by_peer, or_ok,
}
use secure_access_relay.Mux.Session.Streams.{
  store, return_credit, did_read, read_stream, did_write, write_stream, did_close, close_stream,
  did_reset, reset_stream,
}
use secure_access_relay.Mux.Session.Run.{
  Event, opens, finishes, accepts, reads, writes, closes_stream, resets_stream, receives, ticks,
  closes, shuts_down, breaks, step, run,
}
use secure_access_relay.Mux.Session.Limits.{
  Inv, Fixed, half, write_out-Inv, send_data-Inv, send_close-Inv, send_window_update-Inv,
  retire-Inv, retire_if_done-Inv, put_stream-Inv, set_err-Inv, complete_open-Inv, shutdown-Inv,
  close-Inv, open_stream-Inv, handle_open-Inv,
}

module _ {k : Fixed} where
  store-Inv : (h : ℕ) (st : Stream) (s : Session) → Inv k s → Inv k (store h st s)
  store-Inv h st s v = ground arith

  on_delivery-Inv :
      (id : ℕ) (r : Except FlowViolation Stream) (s : Session)
      → Inv k s
      → Inv k (on_delivery id r s).0
  on_delivery-Inv id (ok st) s v = put_stream-Inv id st s v
  on_delivery-Inv id (err e) s v = v

  handle_data-Inv : (id : ℕ) (p : Bytes) (s : Session) → Inv k s → Inv k (handle_data id p s).0
  unfolding handle_data
  handle_data-Inv id p s v = elim (Option-cases (stream_at id s)) [
    | inl e ↦ rw (e, handle_data) v
    | inr (st, e) ↦ rw (e, handle_data) (on_delivery-Inv id (deliver p st) s v)
  ]

  with_credit-Inv :
      (id c : ℕ) (o : Option Stream) (s : Session) → Inv k s → Inv k (with_credit id c o s)
  with_credit-Inv id c none s v = v
  with_credit-Inv id c (some st) s v = put_stream-Inv id (grant_credit c st) s v

  handle_window-Inv : (id : ℕ) (p : Bytes) (s : Session) → Inv k s → Inv k (handle_window id p s).0
  unfolding handle_window
  handle_window-Inv id p s v = elim (Except-cases (decode_window p)) [
    | inl (c, e) ↦ rw (e, handle_window) (with_credit-Inv id c (stream_at id s) s v)
    | inr (x, e) ↦ rw (e, handle_window) v
  ]

  closed_by_peer-Inv :
      (id : ℕ) (r : Reason) (o : Option Stream) (s : Session)
      → Inv k s
      → Inv k (closed_by_peer id r o s)
  closed_by_peer-Inv id r none s v = v
  closed_by_peer-Inv id r (some st) s v = retire_if_done-Inv _ _ (put_stream-Inv id _ s v)

  handle_close-Inv : (id : ℕ) (r : Reason) (s : Session) → Inv k s → Inv k (handle_close id r s)
  unfolding handle_close
  handle_close-Inv id r s v = closed_by_peer-Inv id r _ _ (complete_open-Inv id r s v)

  dispatch-Inv :
      (t : FrameType) (id : ℕ) (p : Bytes) (s : Session) → Inv k s → Inv k (dispatch t id p s).0
  unfolding dispatch
  dispatch-Inv FrameType.open_stream id p s v = handle_open-Inv id p s v
  dispatch-Inv FrameType.stream_ok id p s v = complete_open-Inv id Reason.ok s v
  dispatch-Inv FrameType.stream_data id p s v = handle_data-Inv id p s v
  dispatch-Inv FrameType.stream_window id p s v = handle_window-Inv id p s v
  dispatch-Inv FrameType.close_stream id p s v = handle_close-Inv id (or_ok (reason_of_bytes p)) s v
  dispatch-Inv FrameType.ping id p s v = write_out-Inv FrameType.pong 0 p s v
  dispatch-Inv FrameType.error id p s v =
      shutdown-Inv (reason_of_bytes p) _
        (set_err-Inv (session_closed (some (reason_of_bytes p))) s v)
  dispatch-Inv _ id p s v = v

  dispatched-Inv : (r : Session × Option MuxError) → Inv k r.0 → Inv k (dispatched r)
  dispatched-Inv (s, none) v = v
  dispatched-Inv (s, some e) v = shutdown-Inv (reason_of_error e) _ (set_err-Inv e s v)

  receive-Inv : (f : Except ProtoError Frame) (s : Session) → Inv k s → Inv k (receive f s)
  unfolding receive
  receive-Inv (err e) s v = shutdown-Inv (reason_for (some e)) _ (set_err-Inv (read_error e) s v)
  receive-Inv (ok f) s v =
      if_intro (Inv k) (ltb s.max_frame (u32 (length f.payload)))
        (λ _. shutdown-Inv Reason.limit_frame_too_large _ (set_err-Inv (codec frame_too_large) s v))
        (λ _. dispatched-Inv _ (dispatch-Inv f.type f.stream_id f.payload s v))

  finish_open-Inv : (id h : ℕ) (w : Wakeup) (s : Session) → Inv k s → Inv k (finish_open id h w s).0
  unfolding finish_open
  finish_open-Inv id h answered s v = answered-Inv (lookup h s.answers)
    where
      answered-Inv : (o : Option Reason) → Inv k (on_answer id h o s).0
      answered-Inv none = v
      answered-Inv (some r) =
          if_intro (λ (q : Session × Option (Except MuxError ℕ)). Inv k q.0) (is_ok_reason r)
            (λ _. v) (λ _. retire-Inv id s v)
  finish_open-Inv id h cancelled s v = retire-Inv id s v
  finish_open-Inv id h ended s v = ground arith

  accept_stream-Inv : (s : Session) → Inv k s → Inv k (accept_stream s).0
  unfolding accept_stream
  accept_stream-Inv s v = ground arith

  after_ping-Inv : (r : Session × Option MuxError) → Inv k r.0 → Inv k (after_ping r)
  after_ping-Inv (s, none) v = v
  after_ping-Inv (s, some e) v = shutdown-Inv Reason.shutdown _ (set_err-Inv e s v)

  keep_alive-Inv : (idle since : ℕ) (s : Session) → Inv k s → Inv k (keep_alive idle since s)
  unfolding keep_alive
  keep_alive-Inv idle since s v =
      if_intro (Inv k) s.done (λ _. v)
        (λ _.
          if_intro (Inv k) (ltb 0 idle && ltb idle since)
            (λ _. close-Inv Reason.idle_timeout _ (set_err-Inv (session_closed none) s v))
            (λ _. after_ping-Inv _ (write_out-Inv FrameType.ping 0 [] s v)))

  return_credit-Inv :
      (id : ℕ) (r : ReadResult) (s : Session) → Inv k s → Inv k (return_credit id r s)
  return_credit-Inv id (read_bytes got c) s v =
      if_intro (Inv k) (ltb 0 c) (λ _. send_window_update-Inv id c s v) (λ _. v)
  return_credit-Inv id _ s v = v

  did_read-Inv :
      (h : ℕ) (r : Stream × ReadResult) (s : Session) → Inv k s → Inv k (did_read h r s).0
  did_read-Inv h (st, r) s v = return_credit-Inv st.id r _ (store-Inv h st s v)

  read_stream-Inv : (h len : ℕ) (s : Session) → Inv k s → Inv k (read_stream h len s).0
  unfolding read_stream
  read_stream-Inv h len s v = elim (Option-cases (lookup h s.objects)) [
    | inl e ↦ rw (e, read_stream) v
    | inr (st, e) ↦ rw (e, read_stream) (did_read-Inv h (read s.credit_threshold len st) s v)
  ]

  did_write-Inv :
      (h : ℕ) (r : Stream × WriteResult) (s : Session) → Inv k s → Inv k (did_write h r s).0
  did_write-Inv h (st, write_frame b) s v = send_data-Inv st.id b _ (store-Inv h st s v)
  did_write-Inv h (st, _) s v = store-Inv h st s v

  write_stream-Inv : (h : ℕ) (p : Bytes) (s : Session) → Inv k s → Inv k (write_stream h p s).0
  unfolding write_stream
  write_stream-Inv h p s v = elim (Option-cases (lookup h s.objects)) [
    | inl e ↦ rw (e, write_stream) v
    | inr (st, e) ↦ rw (e, write_stream) (did_write-Inv h (write_round s.max_frame p st) s v)
  ]

  did_close-Inv :
      (h : ℕ) (r : Reason) (c : Stream × Bool) (s : Session) → Inv k s → Inv k (did_close h r c s).0
  did_close-Inv h r (st, false) s v = v
  did_close-Inv h r (st, true) s v =
      retire_if_done-Inv st _ (send_close-Inv st.id r _ (store-Inv h st s v))

  close_stream-Inv : (h : ℕ) (r : Reason) (s : Session) → Inv k s → Inv k (close_stream h r s).0
  unfolding close_stream
  close_stream-Inv h r s v = elim (Option-cases (lookup h s.objects)) [
    | inl e ↦ rw (e, close_stream) v
    | inr (st, e) ↦ rw (e, close_stream) (did_close-Inv h r (close_with st) s v)
  ]

  did_reset-Inv :
      (h : ℕ) (r : Reason) (c : Stream × Bool) (s : Session) → Inv k s → Inv k (did_reset h r c s).0
  did_reset-Inv h r (st, false) s v = v
  did_reset-Inv h r (st, true) s v =
      retire-Inv st.id _ (send_close-Inv st.id r _ (store-Inv h st s v))

  reset_stream-Inv : (h : ℕ) (r : Reason) (s : Session) → Inv k s → Inv k (reset_stream h r s).0
  unfolding reset_stream
  reset_stream-Inv h r s v = elim (Option-cases (lookup h s.objects)) [
    | inl e ↦ rw (e, reset_stream) v
    | inr (st, e) ↦ rw (e, reset_stream) (did_reset-Inv h r (reset r st) s v)
  ]

  step-Inv : (e : Event) (s : Session) → Inv k s → Inv k (step e s)
  unfolding step
  step-Inv (opens p) s v = open_stream-Inv p s v
  step-Inv (finishes id h w) s v = finish_open-Inv id h w s v
  step-Inv accepts s v = accept_stream-Inv s v
  step-Inv (reads h len) s v = read_stream-Inv h len s v
  step-Inv (writes h p) s v = write_stream-Inv h p s v
  step-Inv (closes_stream h r) s v = close_stream-Inv h r s v
  step-Inv (resets_stream h r) s v = reset_stream-Inv h r s v
  step-Inv (receives f) s v = receive-Inv f s v
  step-Inv (ticks idle since) s v = keep_alive-Inv idle since s v
  step-Inv (closes r) s v = close-Inv r s v
  step-Inv (shuts_down r) s v = shutdown-Inv r s v
  step-Inv breaks s v = ground arith

  run-Inv : (es : List Event) (s : Session) → Inv k s → Inv k (run es s)
  unfolding run
  run-Inv [] s v = v
  run-Inv (e ∷ es) s v = run-Inv es (step e s) (step-Inv e s v)

new_session-Inv :
    (c : Bool) (ack : HelloAck)
    → ack.max_streams < u32_mod
    → Inv (record { limit = ack.max_streams; is_client = c }) (new_session c ack)
unfolding new_session
new_session-Inv c ack h = ground arith

-- After any events in any order, a session has at most as many streams and at most as many of them
-- queued as the limit of the handshake, and opens its own with identifiers of its own parity.
pub session_limits :
    (is_client : Bool) (ack : HelloAck) (es : List Event)
    → ack.max_streams < u32_mod
    → let s = run es (new_session is_client ack) in
      (length s.streams ≤ ack.max_streams)
      × (length s.accept_queue ≤ ack.max_streams)
      × (s.next_id % 2 ≡ half is_client)
session_limits is_client ack es h =
    let v = run-Inv es _ (new_session-Inv is_client ack h) in (v.streams_le, v.queue_le, v.own_half)
