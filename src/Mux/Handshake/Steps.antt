-- ===== src/Mux/Handshake/Steps.antt =====
-- The steps of a handshake that succeed (internal/mux/session.go).
use secure_access_relay.Common.{
  ◌≤◌, ==_refl, Bytes, length, List, [], ◌++◌, append-nil, length-append, ◌≡◌, ◌≢◌, refl, ◌∙◌, ap,
  arith,
}
use secure_access_relay.Common.Except.{Except, ok, err}
use secure_access_relay.Proto.Frame.{max_frame_payload, FrameType, type_code, Frame, ProtoError}
use secure_access_relay.Proto.Codec.{Outcome, frame_bytes}
use secure_access_relay.Proto.Codec.Reads.{reader_of, read_frame-frame_bytes}
use secure_access_relay.Proto.Codec.Writes.{call_outcomes, write_frame-Fits}
use secure_access_relay.Proto.Handshake.{
  Hello, encode_hello, HelloAck, encode_hello_ack, Auth, encode_auth, encode_auth_ok,
  decode_auth_ok, max_identity_len, append_string,
}
use secure_access_relay.Proto.Handshake.Auths.{IsAuth, prefixed, take_string-prefixed}
use secure_access_relay.Mux.Handshake.{
  Conn, HandshakeError, Action, send, next_frame, expect, ◌>>=◌, lift, claims,
}

abbrev pub message : FrameType → Bytes → Frame
message t p = record { type = t; stream_id = 0; payload = p }

-- A connection with what will arrive, what was written, and what its writes do.
abbrev pub conn_of : Bytes → ProtoError → Bytes → List Outcome → Conn
conn_of arriving e out os = record {
  reader = reader_of arriving e max_frame_payload;
  writer = record { out = out; outcomes = os; max = max_frame_payload };
}

-- A frame that goes out whole.
pub send_whole :
    (t : FrameType) (p arriving : Bytes) (e : ProtoError) (out : Bytes) (os : List Outcome)
    → length p ≤ max_frame_payload
    → send t p (conn_of arriving e out (call_outcomes p os))
      ≡ (conn_of arriving e (out ++ frame_bytes (message t p)) os, ok tt)
unfolding send
send_whole t p arriving e out os le =
    rw
      (write_frame-Fits (conn_of arriving e out (call_outcomes p os)).writer (message t p) os refl
        (omega arith, omega arith, le))
      refl

-- A frame that arrived.
pub next_whole :
    (t : FrameType) (p rest : Bytes) (e : ProtoError) (out : Bytes) (os : List Outcome)
    → length p ≤ max_frame_payload
    → next_frame (conn_of (frame_bytes (message t p) ++ rest) e out os)
      ≡ (conn_of rest e out os, ok (message t p))
unfolding next_frame
next_whole t p rest e out os le =
    rw
      (
        read_frame-frame_bytes (message t p) rest e max_frame_payload
            (omega arith, omega arith, le),
        next_frame,
      )
      refl

-- The steps of a handshake one after another, when each succeeds.
pub bind_ok :
    {A B : Type 0} (m : Action A) (next : A → Action B) {c c' : Conn} {a : A}
    {r : Conn × Except HandshakeError B}
    → m c ≡ (c', ok a)
    → next a c' ≡ r
    → (m >>= next) c ≡ r
unfolding ◌>>=◌
bind_ok m next e f = ap (λ z. elim z.1 [ err x ↦ (z.0, err x) | ok b ↦ next b z.0 ]) e ∙ f

pub expected :
    (t : FrameType) (p : Bytes) (c : Conn)
    → type_code t ≢ type_code FrameType.error
    → expect t (message t p) c ≡ (c, ok p)
unfolding expect
expected t p c n = ground arith

pub lifted :
    {A : Type 0} (o : Except ProtoError A) (a : A) (c : Conn) → o ≡ ok a → lift o c ≡ (c, ok a)
lifted o a c e = rw e refl

pub claimed :
    {A : Type 0} (t : FrameType) (decode : Bytes → Except ProtoError A) (p : Bytes) (a : A)
    (c : Conn)
    → decode p ≡ ok a
    → claims t decode (message t p) c ≡ (c, ok a)
unfolding claims
claimed t decode p a c e = rw (==_refl (type_code t), e) refl

pub length-hello : (h : Hello) → length (encode_hello h) ≡ 4
unfolding encode_hello
length-hello h = refl

pub length-hello_ack : (a : HelloAck) → length (encode_hello_ack a) ≡ 13
unfolding encode_hello_ack
length-hello_ack a = refl

pub length-auth : (a : Auth) → IsAuth a → length (encode_auth a) ≤ 390
unfolding encode_auth append_string
length-auth a v = omega (
  arith,
  v,
  length-append (a.device_id ++ prefixed a.user_id) (prefixed a.resource),
  length-append a.device_id (prefixed a.user_id),
)

pub length-auth_ok : (s : Bytes) → length s ≤ max_identity_len → length (encode_auth_ok s) ≤ 130
unfolding encode_auth_ok append_string
length-auth_ok s v = omega arith

pub decode-encode_auth_ok :
    (s : Bytes) → length s ≤ max_identity_len → decode_auth_ok (encode_auth_ok s) ≡ ok s
unfolding decode_auth_ok encode_auth_ok append_string
decode-encode_auth_ok s v =
    let t = rw (append-nil s) at (take_string-prefixed s [] v) in rw (t, decode_auth_ok) refl

pub bind_err :
    {A B : Type 0} (m : Action A) (next : A → Action B) {c c' : Conn} {x : HandshakeError}
    → m c ≡ (c', err x)
    → (m >>= next) c ≡ (c', err x)
unfolding ◌>>=◌
bind_err m next e = ap (λ z. elim z.1 [ err x ↦ (z.0, err x) | ok b ↦ next b z.0 ]) e
