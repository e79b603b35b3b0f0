-- ===== src/Mux/Handshake.antt =====
-- internal/mux/session.go, `Dial`, `Accept`, `Admit`, `Refuse`: the handshake of a connection.
pub mod Steps
pub mod Agreement
use secure_access_relay.Common.{
  ℕ, ltb, ◌==◌, ◌||◌, Bool, true, false, if◌then◌else◌, Bytes, List, [], ◌∷◌, Option, none, some,
}
use secure_access_relay.Common.Except.{Except, ok, err}
use secure_access_relay.Proto.Reason
use secure_access_relay.Proto.Reason.{Reason, reason_of_bytes}
use secure_access_relay.Proto.Frame.{
  version, max_frame_payload, max_streams_per_connection, initial_window, FrameType, type_code,
  Frame, ProtoError, malformed_frame, unsupported_version,
}
use secure_access_relay.Proto.Codec.{Reader, read_frame, Writer, write_frame, write_error}
use secure_access_relay.Proto.Handshake.{
  Hello, encode_hello, decode_hello, HelloAck, encode_hello_ack, decode_hello_ack, Auth,
  encode_auth, decode_auth, encode_auth_ok, decode_auth_ok,
}
use secure_access_relay.Mux.Session.{Session, new_session}

-- `Config`, its role and limits; 0 is a limit left to the default.
pub record Config : Type 0 where
  pub role : ℕ
  pub max_frame_payload : ℕ
  pub initial_window : ℕ
  pub max_streams : ℕ

abbrev or_default : ℕ → ℕ → ℕ
or_default n d = if n == 0 then d else n

unfoldable pub with_defaults : Config → Config
with_defaults c = record c {
  max_frame_payload = or_default c.max_frame_payload max_frame_payload;
  initial_window = or_default c.initial_window initial_window;
  max_streams = or_default c.max_streams max_streams_per_connection;
}

pub record Conn : Type 0 where
  pub reader : Reader
  pub writer : Writer

pub data HandshakeError : Type 0 where
  codec : ProtoError → HandshakeError
  refused : Reason → HandshakeError

-- A call that reads and writes the connection. What was written stays written after an error.
abbrev pub Action : Type 0 → Type 0
Action A = Conn → Conn × Except HandshakeError A

infixl 5 ◌>>=◌ ◌>>◌
unfoldable pub ◌>>=◌ : {A B : Type 0} → Action A → (A → Action B) → Action B
◌>>=◌ m next c = let (c', r) = m c in elim r [ err e ↦ (c', err e) | ok a ↦ next a c' ]

abbrev pub ◌>>◌ : {A B : Type 0} → Action A → Action B → Action B
m >> k = m >>= λ _. k

abbrev pub returns : {A : Type 0} → A → Action A
returns a c = (c, ok a)

-- A result of the codec, whose error ends the handshake without a word to the peer.
abbrev pub lift : {A : Type 0} → Except ProtoError A → Action A
lift (ok a) c = (c, ok a)
lift (err e) c = (c, err (codec e))

abbrev pub sent : Option ProtoError → Except HandshakeError (Unit {0})
sent none = ok tt
sent (some e) = err (codec e)

unfoldable pub send : FrameType → Bytes → Action (Unit {0})
send t payload c =
    let (w, e) = write_frame c.writer t 0 payload in (record c { writer = w }, sent e)

unfoldable pub next_frame : Action Frame
next_frame c = elim (read_frame c.reader) [
  | ok (f, r) ↦ (record c { reader = r }, ok f)
  | err e ↦ (c, err (codec e))
]

-- The error after the reason has been written to the peer.
unfoldable pub fail : {A : Type 0} → ProtoError → Reason → Action A
fail e reason c = (record c { writer = (write_error c.writer reason).0 }, err (codec e))

abbrev pub is_type : FrameType → Frame → Bool
is_type t f = type_code f.type == type_code t

-- What the initiator makes of a frame: an ERROR is a refusal, any other type but one malformed.
unfoldable pub expect : FrameType → Frame → Action Bytes
unfolding type_code
expect t f c =
    if is_type FrameType.error f
    then (c, err (refused (reason_of_bytes f.payload)))
    else if is_type t f
    then (c, ok f.payload)
    else (c, err (codec malformed_frame))

-- A session with its name and what the peer claimed, or what this side claimed to it.
pub record Established : Type 0 where
  pub session : Session
  pub id : Bytes
  pub peer : Auth

abbrev pub spoken : HelloAck → Action (Unit {0})
spoken ack = if ack.version == version then returns tt else lift (err unsupported_version)

-- `Dial`.
unfoldable pub dial : Config → Auth → Action Established
unfolding send next_frame expect
dial cfg auth = do
  send FrameType.hello
      (encode_hello (record { min_version = version; max_version = version; role = cfg.role }))
  f ← next_frame
  payload ← expect FrameType.hello_ack f
  ack ← lift (decode_hello_ack payload)
  spoken ack
  send FrameType.auth (encode_auth auth)
  g ← next_frame
  admitted ← expect FrameType.auth_ok g
  id ← lift (decode_auth_ok admitted)
  returns (record { session = new_session true ack; id = id; peer = auth })

-- `Handshake`, before the peer is admitted or refused.
pub record Handshake : Type 0 where
  pub hello : Hello
  pub auth : Auth
  pub ack : HelloAck

-- What the responder makes of a frame; the peer is told of its error.
abbrev pub or_fail : {A : Type 0} → Except ProtoError A → Action A
or_fail (ok a) c = (c, ok a)
or_fail (err e) c = fail e Reason.protocol_malformed_frame c

unfoldable pub claims : {A : Type 0} → FrameType → (Bytes → Except ProtoError A) → Frame → Action A
unfolding type_code fail
claims t decode f =
    if is_type t f
    then or_fail (decode f.payload)
    else fail malformed_frame Reason.protocol_malformed_frame

abbrev pub in_range : Hello → Action (Unit {0})
in_range h =
    if ltb version h.min_version || ltb h.max_version version
    then fail unsupported_version Reason.protocol_version_unsupported
    else returns tt

abbrev pub announced : Config → HelloAck
announced cfg = record {
  version = version;
  max_frame_payload = cfg.max_frame_payload;
  initial_window = cfg.initial_window;
  max_streams = cfg.max_streams;
}

-- `Accept`.
unfoldable pub accept : Config → Action Handshake
unfolding send next_frame claims fail with_defaults
accept cfg = do
  f ← next_frame
  hello ← claims FrameType.hello decode_hello f
  in_range hello
  send FrameType.hello_ack (encode_hello_ack (announced (with_defaults cfg)))
  g ← next_frame
  auth ← claims FrameType.auth decode_auth g
  returns (record { hello = hello; auth = auth; ack = announced (with_defaults cfg) })

unfoldable pub admit : Handshake → Bytes → Action Established
unfolding send
admit h session_id = do
  send FrameType.auth_ok (encode_auth_ok session_id)
  returns (record { session = new_session false h.ack; id = session_id; peer = h.auth })

unfoldable pub refuse : Reason → Conn → Conn × Option ProtoError
refuse reason c = let (w, e) = write_error c.writer reason in (record c { writer = w }, e)
