-- ===== src/Mux/Session/Run.antt =====
-- A session's life as the events that reach it, in any order (internal/mux/session.go).
use secure_access_relay.Common.{ℕ, Bytes, List, [], ◌∷◌, false}
use secure_access_relay.Common.Except.{Except}
use secure_access_relay.Proto.Reason.{Reason}
use secure_access_relay.Proto.Frame.{Frame, ProtoError}
use secure_access_relay.Mux.Session.{Session, close, shutdown}
use secure_access_relay.Mux.Session.Ops.{
  open_stream, Wakeup, finish_open, accept_stream, keep_alive,
}
use secure_access_relay.Mux.Session.Dispatch.{receive}
use secure_access_relay.Mux.Session.Streams.{read_stream, write_stream, close_stream, reset_stream}

pub data Event : Type 0 where
  opens : Bytes → Event
  finishes : ℕ → ℕ → Wakeup → Event
  accepts : Event
  reads : ℕ → ℕ → Event
  writes : ℕ → Bytes → Event
  closes_stream resets_stream : ℕ → Reason → Event
  receives : Except ProtoError Frame → Event
  ticks : ℕ → ℕ → Event
  closes shuts_down : Reason → Event
  -- The connection stops taking frames.
  breaks : Event

unfoldable pub step : Event → Session → Session
step (opens p) s = (open_stream p s).0
step (finishes id h w) s = (finish_open id h w s).0
step accepts s = (accept_stream s).0
step (reads h len) s = (read_stream h len s).0
step (writes h p) s = (write_stream h p s).0
step (closes_stream h r) s = (close_stream h r s).0
step (resets_stream h r) s = (reset_stream h r s).0
step (receives f) s = receive f s
step (ticks idle since) s = keep_alive idle since s
step (closes r) s = close r s
step (shuts_down r) s = shutdown r s
step breaks s = record s { conn_up = false }

unfoldable pub run : List Event → Session → Session
run [] s = s
run (e ∷ es) s = run es (step e s)
