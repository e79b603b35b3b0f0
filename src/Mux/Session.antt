-- ===== src/Mux/Session.antt =====
-- internal/mux/session.go: many streams over one connection. Streams are objects that the session's
-- table and the callers share: `objects` holds them, newest first, and a stream is known by the
-- number of those made before it. A call that runs under the lock is one function.
pub mod Ops
pub mod Dispatch
pub mod Streams
pub mod Run
pub mod Teardown
pub mod Opening
pub mod Failures
pub mod Limits
pub mod Steps
use secure_access_relay.Common.{
  ℕ, zero, suc, ◌+◌, ◌/◌, ◌%◌, Bytes, ltb, leb, ◌==◌, not, Bool, true, false, if◌then◌else◌, u32,
  length, List, [], ◌∷◌, ◌++◌, Option, none, some,
}
use secure_access_relay.Common.Table.{Table, lookup, delete, insert}
use secure_access_relay.Proto.Reason.{Reason, reason_bytes}
use secure_access_relay.Proto.Frame.{
  FrameType, Frame, ProtoError, frame_too_large, io_error, max_frame_payload,
}
use secure_access_relay.Proto.Handshake.{HelloAck}
use secure_access_relay.Mux.Stream.{Stream, new_stream, kill, finished}

-- The errors of internal/mux, with those of the codec.
pub data MuxError : Type 0 where
  session_closed : Option Reason → MuxError
  too_many_streams context_done : MuxError
  stream_refused : Reason → MuxError
  codec : ProtoError → MuxError
  fatal : Reason → MuxError

pub record Session : Type 0 where
  pub is_client : Bool
  pub max_frame : ℕ
  pub window : ℕ
  pub max_streams : ℕ
  pub credit_threshold : ℕ
  pub objects : Table Stream
  pub made : ℕ
  pub streams : Table ℕ
  pub next_id : ℕ
  -- Opens that wait for their answer, by stream identifier, and the answers by stream object.
  pub pending : Table ℕ
  pub answers : Table Reason
  pub accept_queue : List ℕ
  pub done : Bool
  pub error : Option MuxError
  -- The frames written, oldest first, and whether the connection still takes any.
  pub out : List Frame
  pub conn_up : Bool

unfoldable pub new_session : Bool → HelloAck → Session
new_session is_client ack = record {
  is_client = is_client;
  max_frame = ack.max_frame_payload;
  window = ack.initial_window;
  max_streams = ack.max_streams;
  credit_threshold = if ack.initial_window / 2 == 0 then 1 else ack.initial_window / 2;
  objects = [];
  made = 0;
  streams = [];
  next_id = if is_client then 1 else 2;
  pending = [];
  answers = [];
  accept_queue = [];
  done = false;
  error = none;
  out = [];
  conn_up = true;
}

-- `conn.W.WriteFrame`, whose writer has the limit of `transport.NewConn`.
unfoldable pub write_out : FrameType → ℕ → Bytes → Session → Session × Option MuxError
write_out t id p s =
    if ltb max_frame_payload (u32 (length p))
    then (s, some (codec frame_too_large))
    else if s.conn_up
    then (record s { out = s.out ++ record { type = t; stream_id = id; payload = p } ∷ [] }, none)
    else (s, some (codec io_error))

unfoldable pub write_close : ℕ → Reason → Session → Session × Option MuxError
unfolding write_out
write_close id r s = write_out FrameType.close_stream id (reason_bytes r) s

unfoldable pub write_error : Reason → Session → Session
unfolding write_out
write_error r s = (write_out FrameType.error 0 (reason_bytes r) s).0

-- A new stream object, under its identifier.
unfoldable pub make_stream : ℕ → Bytes → Session → Session
unfolding new_stream insert
make_stream id payload s = record s {
  objects = insert s.made (record (new_stream id s.window) { open_payload = payload }) s.objects;
  made = s.made + 1;
  streams = insert id s.made s.streams;
}

abbrev pub object_of : Option ℕ → Table Stream → Option Stream
object_of none t = none
object_of (some h) t = lookup h t

-- `lookup`: the stream under an identifier.
unfoldable pub stream_at : ℕ → Session → Option Stream
unfolding lookup
stream_at id s = object_of (lookup id s.streams) s.objects

abbrev pub update_object : Option ℕ → Stream → Table Stream → Table Stream
update_object none st t = t
update_object (some h) st t = insert h st t

-- The stream object under an identifier, changed in place.
unfoldable pub put_stream : ℕ → Stream → Session → Session
unfolding lookup insert
put_stream id st s = record s { objects = update_object (lookup id s.streams) st s.objects }

unfoldable pub retire : ℕ → Session → Session
unfolding delete
retire id s = record s { streams = delete id s.streams; pending = delete id s.pending }

unfoldable pub retire_if_done : Stream → Session → Session
unfolding retire finished
retire_if_done st s = if finished st then retire st.id s else s

unfoldable pub set_err : MuxError → Session → Session
set_err e s = elim s.error [ none ↦ record s { error = some e } | some _ ↦ s ]

-- `Err`
unfoldable pub err_of : Session → Option MuxError
err_of s = elim s.error [
  | some e ↦ some e
  | none ↦ if s.done then some (session_closed none) else none
]

-- A send on a channel that holds one value: a second one is dropped.
unfoldable pub answer : ℕ → Reason → Table Reason → Table Reason
unfolding lookup insert
answer h r t = elim (lookup h t) [ none ↦ insert h r t | some _ ↦ t ]

unfoldable pub complete_open : ℕ → Reason → Session → Session
unfolding lookup delete answer
complete_open id r s = elim (lookup id s.pending) [
  | none ↦ s
  | some h ↦ record s { pending = delete id s.pending; answers = answer h r s.answers }
]

abbrev pub killed : Reason → Option Stream → ℕ → Table Stream → Table Stream
killed r none h t = t
killed r (some st) h t = insert h (kill r st) t

unfoldable pub kill_all : Reason → Table ℕ → Table Stream → Table Stream
unfolding kill lookup insert
kill_all r [] objects = objects
kill_all r ((id, h) ∷ rest) objects = kill_all r rest (killed r (lookup h objects) h objects)

unfoldable pub answer_all : Reason → Table ℕ → Table Reason → Table Reason
unfolding answer
answer_all r [] t = t
answer_all r ((id, h) ∷ rest) t = answer_all r rest (answer h r t)

-- The common part of `Close` and `shutdown`: every stream ends, every open is answered.
unfoldable pub end_session : Reason → Session → Session
unfolding kill_all answer_all
end_session r s = record s {
  objects = kill_all r s.streams s.objects;
  answers = answer_all r s.pending s.answers;
  streams = [];
  pending = [];
  done = true;
  conn_up = false;
}

-- `closeOnce` lets the first of `Close` and `shutdown` through, and no later one.
unfoldable pub close : Reason → Session → Session
unfolding set_err write_error end_session
close r s =
    if s.done then s else end_session r (write_error r (set_err (session_closed (some r)) s))

unfoldable pub shutdown : Reason → Session → Session
unfolding end_session
shutdown r s = if s.done then s else end_session r s
