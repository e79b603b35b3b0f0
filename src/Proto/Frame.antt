-- ===== src/Proto/Frame.antt =====
-- internal/proto/frame.go: frame types, the ten-byte header, and the codec's errors.
pub mod Headers
use secure_access_relay.Common.{
  ℕ, ◌*◌, ◌+◌, Bytes, codes, ltb, ◌==◌, if◌then◌else◌, be32, of_be32, Option, none, some, List, [],
  ◌∷◌, ◌++◌, ◌≡◌, refl, ◌⊎◌, inl, inr,
}
use secure_access_relay.Common.Except.{Except, ok, err}
use secure_access_relay.Proto.Reason
use secure_access_relay.Proto.Reason.{Reason}

abbrev pub version : ℕ
version = 1

abbrev pub header_size : ℕ
header_size = 10

-- internal/proto/limits.go
abbrev pub max_frame_payload : ℕ
max_frame_payload = 64 * 1024

abbrev pub max_streams_per_connection : ℕ
max_streams_per_connection = 16

abbrev pub initial_window : ℕ
initial_window = 256 * 1024

pub data FrameType : Type 0 where
  hello hello_ack auth auth_ok : FrameType
  open_stream stream_ok stream_data stream_window close_stream : FrameType
  ping pong error : FrameType

-- The byte on the wire.
unfoldable pub type_code : FrameType → ℕ
type_code hello = 0x01
type_code hello_ack = 0x02
type_code auth = 0x03
type_code auth_ok = 0x04
type_code open_stream = 0x10
type_code stream_ok = 0x11
type_code stream_data = 0x12
type_code stream_window = 0x13
type_code close_stream = 0x14
type_code ping = 0x20
type_code pong = 0x21
type_code error = 0x7f

-- `known`, which also says which type the byte is.
unfoldable pub known : ℕ → Option FrameType
known c =
    if c == 0x01
    then some hello
    else if c == 0x02
    then some hello_ack
    else if c == 0x03
    then some auth
    else if c == 0x04
    then some auth_ok
    else if c == 0x10
    then some open_stream
    else if c == 0x11
    then some stream_ok
    else if c == 0x12
    then some stream_data
    else if c == 0x13
    then some stream_window
    else if c == 0x14
    then some close_stream
    else if c == 0x20
    then some ping
    else if c == 0x21
    then some pong
    else if c == 0x7f
    then some error
    else none

pub record Frame : Type 0 where
  pub type : FrameType
  pub stream_id : ℕ
  pub payload : Bytes

-- The codec's sentinels; the rest are the connection's own errors.
pub data ProtoError : Type 0 where
  frame_too_large malformed_frame unsupported_version : ProtoError
  eof unexpected_eof io_error : ProtoError
  -- An index out of range, which Go answers with a panic.
  panicked : ProtoError

abbrev pub Result {ℓ} : Type ℓ → Type ℓ
Result A = Except ProtoError A

-- `ReasonFor`; `none` is a nil error.
unfoldable pub reason_for : Option ProtoError → Reason
reason_for none = Reason.ok
reason_for (some frame_too_large) = Reason.limit_frame_too_large
reason_for (some unsupported_version) = Reason.protocol_version_unsupported
reason_for (some malformed_frame) = Reason.protocol_malformed_frame
reason_for (some _) = Reason.shutdown

-- The ten bytes that `encodeHeader` writes.
unfoldable pub encode_header : FrameType → ℕ → ℕ → Bytes
unfolding type_code
encode_header t stream_id len = version ∷ type_code t ∷ (be32 stream_id ++ be32 len)

pub record Header : Type 0 where
  pub type : FrameType
  pub stream_id : ℕ
  pub len : ℕ

-- The tests of `decodeHeader` in their order.
check_header : ℕ → ℕ → ℕ → ℕ → ℕ → Result Header
unfolding known
check_header max v code stream_id len =
    if v == version
    then elim (known code) [
      | none ↦ err malformed_frame
      | some t ↦
          if ltb max len
          then err frame_too_large
          else ok (record { type = t; stream_id = stream_id; len = len })
    ]
    else err unsupported_version

unfoldable pub decode_header : Bytes → ℕ → Result Header
unfolding check_header
decode_header (v ∷ t ∷ a ∷ b ∷ c ∷ d ∷ e ∷ f ∷ g ∷ h ∷ _) max =
    check_header max v t (of_be32 a b c d) (of_be32 e f g h)
decode_header _ max = err panicked
