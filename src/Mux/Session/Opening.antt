-- ===== src/Mux/Session/Opening.antt =====
-- Which streams a session opens and accepts (internal/mux/session.go, `Open` and `handleOpen`).
use secure_access_relay.Common.{
  ℕ, ◌%◌, ◌≤◌, ◌<◌, ◌==◌, leb, u32, u32_mod, length, Bool, true, false, List, [], ◌∷◌, ◌++◌, Option,
  none, some, ◌≡◌, ◌≢◌, refl, sym, ◌∙◌, ap, arith, inl, inr, Bool-cases, if_intro, Bytes, ==_iff,
}
use secure_access_relay.Common.Except.{Except}
use secure_access_relay.Common.Table.{lookup, lookup-insert, lookup-delete}
use secure_access_relay.Proto.Reason.{Reason, reason_bytes}
use secure_access_relay.Proto.Frame.{FrameType}
use secure_access_relay.Proto.Handshake.{HelloAck}
use secure_access_relay.Mux.Stream.{new_stream}
use secure_access_relay.Mux.Session.{
  Session, MuxError, make_stream, write_out, retire, new_session, stream_at,
}
use secure_access_relay.Mux.Session.Ops.{open_stream, register_open, sent_open}
use secure_access_relay.Mux.Session.Dispatch.{handle_open, same, is_odd}
use secure_access_relay.Mux.Session.Limits.{half}
use secure_access_relay.Mux.Session.Run.{Event, run}
use secure_access_relay.Mux.Session.Steps.{session_limits}

-- An identifier of the peer's half.
abbrev pub IsPeerId : Bool → ℕ → Type 0
IsPeerId is_client id = id % 2 ≢ half is_client

write_out-streams :
    (t : FrameType) (id : ℕ) (p : Bytes) (s : Session) → (write_out t id p s).0.streams ≡ s.streams
unfolding write_out
write_out-streams t id p s = ground arith

sent_open-streams :
    (id h j : ℕ) (r : Session × Option MuxError)
    → id == j ≡ false
    → lookup j (sent_open id h r).0.streams ≡ lookup j r.0.streams
unfolding retire
sent_open-streams id h j (s, none) n = refl
sent_open-streams id h j (s, some e) n = lookup-delete id j s.streams ∙ rw n refl

register_open-streams :
    (s : Session) (j : ℕ)
    → s.next_id == j ≡ false
    → lookup j (register_open s).streams ≡ lookup j s.streams
unfolding register_open make_stream
register_open-streams s j n = lookup-insert s.next_id j s.made s.streams ∙ rw n refl

open_stream-other :
    (p : Bytes) (s : Session) (j : ℕ)
    → s.next_id == j ≡ false
    → lookup j (open_stream p s).0.streams ≡ lookup j s.streams
unfolding open_stream
open_stream-other p s j n =
    if_intro P s.done (λ _. refl)
      (λ _.
        if_intro P (leb s.max_streams (u32 (length s.streams))) (λ _. refl)
          (λ _.
            sent_open-streams s.next_id s.made j
              (write_out FrameType.open_stream s.next_id p (register_open s)) n
            ∙ ap (lookup j) (write_out-streams FrameType.open_stream s.next_id p (register_open s))
            ∙ register_open-streams s j n))
  where
    P : Session × Except MuxError (ℕ × ℕ) → Type 0
    P r = lookup j r.0.streams ≡ lookup j s.streams

other_half : (a b : ℕ) (c : ℕ) → a % 2 ≡ c → b % 2 ≢ c → a == b ≡ false
other_half a b c e n = elim (Bool-cases (a == b)) [
  | inl h ↦ absurd (n (ap (λ t. t % 2) (sym (==_iff a b h)) ∙ e))
  | inr h ↦ h
]

-- At any moment of any session, `Open` leaves every stream with an identifier of the peer's half
-- as it is: the two ends never give one identifier to two streams.
pub open_keeps_peer_streams :
    (is_client : Bool) (ack : HelloAck) (es : List Event) (p : Bytes) (id : ℕ)
    → ack.max_streams < u32_mod
    → IsPeerId is_client id
    → let s = run es (new_session is_client ack) in
      lookup id (open_stream p s).0.streams ≡ lookup id s.streams
open_keeps_peer_streams is_client ack es p id h n =
    open_stream-other p (run es (new_session is_client ack)) id
      (other_half _ id (half is_client) (session_limits is_client ack es h).2 n)

same_half : (is_client : Bool) (id : ℕ) → IsPeerId is_client id → same (is_odd id) is_client ≡ false
same_half true id n = ground arith
same_half false id n = ground arith

-- A stream that the peer opens under a free identifier of its own half, while there is room, is
-- registered with the payload of its frame, acknowledged, and queued behind the others.
pub handle_open-accepts :
    (id : ℕ) (p : Bytes) (s : Session)
    → lookup id s.streams ≡ none
    → IsPeerId s.is_client id
    → length s.streams < s.max_streams
    → length s.streams < u32_mod
    → length s.accept_queue < s.max_streams
    → s.conn_up ≡ true
    → let (t, e) = handle_open id p s in
      (e ≡ none)
      × (stream_at id t ≡ some (record (new_stream id s.window) { open_payload = p }))
      × (t.accept_queue ≡ s.accept_queue ++ s.made ∷ [])
      × (t.out ≡ s.out ++ record { type = FrameType.stream_ok; stream_id = id; payload = [] } ∷ [])
unfolding handle_open stream_at write_out
handle_open-accepts id p s free peer room small queue up = ground (
  arith,
  same_half s.is_client id peer,
  lookup-insert id id s.made s.streams,
  lookup-insert s.made s.made (record (new_stream id s.window) { open_payload = p }) s.objects,
)

-- One stream too many is refused with its own reason, and the session goes on as it was.
pub handle_open-refuses :
    (id : ℕ) (p : Bytes) (s : Session)
    → lookup id s.streams ≡ none
    → IsPeerId s.is_client id
    → s.max_streams ≤ length s.streams
    → length s.streams < u32_mod
    → s.conn_up ≡ true
    → handle_open id p s ≡ (
      record s {
        out =
            s.out
            ++ record {
              type = FrameType.close_stream;
              stream_id = id;
              payload = reason_bytes Reason.limit_streams_exceeded;
            }
              ∷ [];
      },
      none,
    )
unfolding handle_open write_out reason_bytes
handle_open-refuses id p s free peer full small up = ground (arith, same_half s.is_client id peer)
