-- ===== src/Tests/Sessions.antt =====
-- Sessions of a relay and an agent (internal/mux/session.go).
use secure_access_relay.Common.{ℕ, ◌≤◌, ◌%◌, length, List, [], ◌∷◌, ◌≡◌, refl, arith, false}
use secure_access_relay.Common.Except.{ok}
use secure_access_relay.Proto.Reason.{Reason}
use secure_access_relay.Proto.Frame.{FrameType, Frame}
use secure_access_relay.Proto.Handshake.{HelloAck}
use secure_access_relay.Mux.Session.{Session, new_session, close, shutdown}
use secure_access_relay.Mux.Session.Dispatch.{receive}
use secure_access_relay.Mux.Session.Run.{Event, receives, step, run}
use secure_access_relay.Mux.Session.Limits.{half}
use secure_access_relay.Mux.Session.Steps.{session_limits}
use secure_access_relay.Mux.Session.Teardown.{IsOver, close-IsOver}

abbrev ack : HelloAck
ack = record { version = 1; max_frame_payload = 16; initial_window = 4; max_streams = 1 }

abbrev open_frame : ℕ → Frame
open_frame id = record { type = FrameType.open_stream; stream_id = id; payload = 9 ∷ [] }

-- The agent's side, which accepts, and the peer opens two streams where one is the limit.
abbrev two_opens : List Event
two_opens = receives (ok (open_frame 1)) ∷ receives (ok (open_frame 3)) ∷ []

session_limits_example :
    (length (run two_opens (new_session false ack)).streams ≤ 1)
    × (length (run two_opens (new_session false ack)).accept_queue ≤ 1)
    × ((run two_opens (new_session false ack)).next_id % 2 ≡ half false)
session_limits_example = session_limits false ack two_opens (omega arith)

-- A session with one stream, which the peer opened.
unfoldable one_stream : Session
one_stream = run (receives (ok (open_frame 1)) ∷ []) (new_session false ack)

one_stream-live : one_stream.done ≡ false
unfolding one_stream run step receive new_session
one_stream-live = refl

close-IsOver_example :
    IsOver one_stream (close Reason.shutdown one_stream)
    × IsOver one_stream (shutdown Reason.shutdown one_stream)
close-IsOver_example = close-IsOver Reason.shutdown one_stream one_stream-live
