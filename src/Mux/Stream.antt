-- ===== src/Mux/Stream.antt =====
-- internal/mux/stream.go: one stream. A method returns the new stream and what it asks of the
-- session; where the source waits on a condition variable the method answers `blocked`, and is
-- called again after a wake-up.
pub mod Invariant
pub mod Writing
use secure_access_relay.Common.{
  ℕ, zero, suc, ◌+◌, ◌-◌, ◌%◌, Bytes, ltb, leb, ◌==◌, not, ◌||◌, ◌&&◌, Bool, true, false,
  if◌then◌else◌, u32, u32_mod, take, drop, length, List, [], ◌∷◌, ◌++◌, Option, none, some,
}
use secure_access_relay.Common.Except.{Except, ok, err}
use secure_access_relay.Proto.Reason
use secure_access_relay.Proto.Reason.{Reason}

pub record Stream : Type 0 where
  pub id : ℕ
  pub buf : Bytes
  pub recv_window : ℕ
  pub send_window : ℕ
  pub pending_credit : ℕ
  pub open_payload : Bytes
  pub local_closed : Bool
  pub remote_closed : Bool
  pub reset_reason : Reason
  pub is_reset : Bool

unfoldable pub new_stream : ℕ → ℕ → Stream
new_stream id window = record {
  id = id;
  buf = [];
  recv_window = window;
  send_window = window;
  pending_credit = 0;
  open_payload = [];
  local_closed = false;
  remote_closed = false;
  reset_reason = Reason.other [];
  is_reset = false;
}

-- What a `Read` answers: the bytes, with the credit to return to the peer, 0 for none.
pub data ReadResult : Type 0 where
  read_blocked read_eof : ReadResult
  read_closed : Reason → ReadResult
  read_bytes : Bytes → ℕ → ReadResult

-- The part of `Read` after the wait: the buffer is not empty.
consume : ℕ → ℕ → Stream → Stream × ReadResult
consume threshold len s =
    let got = take len s.buf in
    let n = length got in
    let credit = u32 (s.pending_credit + u32 n) in
    let t = record s {
      buf = drop len s.buf;
      recv_window = u32 (s.recv_window + u32 n);
      pending_credit = credit;
    } in
    if leb threshold credit
    then (record t { pending_credit = 0 }, read_bytes got credit)
    else (t, read_bytes got 0)

-- `Read` into a slice of `len` bytes.
unfoldable pub read : ℕ → ℕ → Stream → Stream × ReadResult
unfolding consume
read threshold len s =
    if len == 0
    then (s, read_bytes [] 0)
    else if length s.buf == 0
    then (if s.is_reset
        then (s, read_closed s.reset_reason)
        else if s.remote_closed
        then (s, read_eof)
        else (s, read_blocked))
    else consume threshold len s

-- What one round of `Write` answers: the payload of a frame, or why there is none.
pub data WriteResult : Type 0 where
  write_blocked write_closed : WriteResult
  write_reset : Reason → WriteResult
  write_frame : Bytes → WriteResult

-- How many bytes go into the next frame, by the comparisons of the source, which truncate.
unfoldable pub chunk_size : ℕ → ℕ → ℕ → ℕ
chunk_size max_frame window left =
    let n = if ltb window (u32 left) then window else left in
    if ltb max_frame (u32 n) then max_frame else n

-- One round of the loop of `Write`, for the bytes not yet written.
unfoldable pub write_round : ℕ → Bytes → Stream → Stream × WriteResult
unfolding chunk_size
write_round max_frame left s =
    if s.is_reset
    then (s, write_reset s.reset_reason)
    else if s.local_closed
    then (s, write_closed)
    else if s.send_window == 0
    then (s, write_blocked)
    else let n = chunk_size max_frame s.send_window (length left) in
      (record s { send_window = u32 (s.send_window + u32_mod - u32 n) }, write_frame (take n left))

-- `Write` until it has written all, is refused or must wait: the frames in order, and what is left.
pub record Written : Type 0 where
  pub stream : Stream
  pub frames : List Bytes
  pub left : Bytes
  pub refused : Option WriteResult

-- After a round: the next one, for what the frame did not take, or the end.
abbrev pub after_round : (Bytes → Stream → Written) → Bytes → Stream × WriteResult → Written
after_round again left (t, write_frame b) =
    let rest = again (drop (length b) left) t in record rest { frames = b ∷ rest.frames }
after_round again left (t, refusal) = record {
  stream = t;
  frames = [];
  left = left;
  refused = some refusal;
}

unfoldable pub write_loop : ℕ → ℕ → Bytes → Stream → Written
write_loop zero max_frame left s = record { stream = s; frames = []; left = left; refused = none }
write_loop (suc fuel) max_frame [] s = record { stream = s; frames = []; left = []; refused = none }
write_loop (suc fuel) max_frame (x ∷ xs) s =
    after_round (write_loop fuel max_frame) (x ∷ xs) (write_round max_frame (x ∷ xs) s)

-- `Write`: a frame holds at least a byte, so that a round for each byte is enough.
unfoldable pub write : ℕ → Bytes → Stream → Written
write max_frame p s = write_loop (length p) max_frame p s

-- `closeWith` up to the frame: whether a CLOSE_STREAM is to be sent.
unfoldable pub close_with : Stream → Stream × Bool
close_with s =
    if s.local_closed || s.is_reset then (s, false) else (record s { local_closed = true }, true)

abbrev pub aborted : Reason → Stream → Stream
aborted r s = record s {
  is_reset = true;
  reset_reason = r;
  local_closed = true;
  remote_closed = true;
}

-- `Reset` up to the frame.
unfoldable pub reset : Reason → Stream → Stream × Bool
reset r s = if s.is_reset then (s, false) else (record (aborted r s) { buf = [] }, true)

-- The error of `deliver`: the peer sent more than its window.
pub data FlowViolation : Type 0 where
  window_exceeded : FlowViolation

unfoldable pub deliver : Bytes → Stream → Except FlowViolation Stream
deliver b s =
    if s.is_reset || s.remote_closed
    then ok s
    else if ltb s.recv_window (u32 (length b))
    then err window_exceeded
    else ok (record s {
      recv_window = u32 (s.recv_window + u32_mod - u32 (length b));
      buf = s.buf ++ b;
    })

-- `grantCredit` saturates at the largest `uint32`.
unfoldable pub grant_credit : ℕ → Stream → Stream
grant_credit n s =
    if ltb (4294967295 - n) s.send_window
    then record s { send_window = 4294967295 }
    else record s { send_window = s.send_window + n }

-- `r != ReasonOK && r != ""`.
abbrev pub is_failure : Reason → Bool
is_failure Reason.ok = false
is_failure (Reason.other []) = false
is_failure _ = true

unfoldable pub remote_close : Reason → Stream → Stream
remote_close r s =
    if s.remote_closed || s.is_reset
    then s
    else if is_failure r
    then record s { remote_closed = true; is_reset = true; reset_reason = r; buf = [] }
    else record s { remote_closed = true }

unfoldable pub kill : Reason → Stream → Stream
kill r s = if s.is_reset then s else aborted r s

unfoldable pub finished : Stream → Bool
finished s = s.is_reset || (s.local_closed && s.remote_closed)
