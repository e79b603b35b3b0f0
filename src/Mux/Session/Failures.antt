-- ===== src/Mux/Session/Failures.antt =====
-- The reasons for which a session is ended (internal/mux/session.go, `readLoop`).
use secure_access_relay.Common.{ℕ, ◌≤◌, ◌<◌, u32_mod, length, Bytes, false, some, ◌≡◌, refl, arith}
use secure_access_relay.Common.Except.{ok, err}
use secure_access_relay.Proto.Reason.{Reason}
use secure_access_relay.Proto.Frame.{FrameType, Frame, malformed_frame}
use secure_access_relay.Mux.Session.{Session, MuxError, codec, set_err, shutdown, stream_at}
use secure_access_relay.Mux.Stream.{Stream, deliver, window_exceeded}
use secure_access_relay.Mux.Session.Dispatch.{receive, dispatch, handle_data}

-- The frames of the handshake.
abbrev pub IsHandshake : FrameType → Type 0
IsHandshake FrameType.hello = Unit
IsHandshake FrameType.hello_ack = Unit
IsHandshake FrameType.auth = Unit
IsHandshake FrameType.auth_ok = Unit
IsHandshake _ = ⊥

-- A second handshake ends the session as a malformed frame, whatever it proposes.
pub receive-handshake :
    (f : Frame) (s : Session)
    → IsHandshake f.type
    → length f.payload ≤ s.max_frame
    → s.max_frame < u32_mod
    → receive (ok f) s
      ≡ shutdown Reason.protocol_malformed_frame (set_err (codec malformed_frame) s)
unfolding receive dispatch
receive-handshake f s h le lt = ground arith

deliver-over :
    (p : Bytes) (st : Stream)
    → st.is_reset ≡ false
    → st.remote_closed ≡ false
    → st.recv_window < length p
    → length p < u32_mod
    → deliver p st ≡ err window_exceeded
unfolding deliver
deliver-over p st live opened over lt = ground arith

handle_data-over :
    (id : ℕ) (p : Bytes) (s : Session) (st : Stream)
    → stream_at id s ≡ some st
    → st.is_reset ≡ false
    → st.remote_closed ≡ false
    → st.recv_window < length p
    → length p < u32_mod
    → handle_data id p s ≡ (s, some (MuxError.fatal Reason.flow_control_violation))
unfolding handle_data
handle_data-over id p s st at live opened over lt =
    rw (at, handle_data) (rw (deliver-over p st live opened over lt) refl)

-- A peer that sends more than its window ends the session with that reason, and nothing of the
-- frame is kept.
pub receive-over_window :
    (id : ℕ) (p : Bytes) (s : Session) (st : Stream)
    → stream_at id s ≡ some st
    → st.is_reset ≡ false
    → st.remote_closed ≡ false
    → st.recv_window < length p
    → length p ≤ s.max_frame
    → s.max_frame < u32_mod
    → receive (ok (record { type = FrameType.stream_data; stream_id = id; payload = p })) s
      ≡ shutdown Reason.flow_control_violation
          (set_err (MuxError.fatal Reason.flow_control_violation) s)
unfolding receive dispatch
receive-over_window id p s st at live opened over le lt =
    ground (arith, handle_data-over id p s st at live opened over (omega arith))
