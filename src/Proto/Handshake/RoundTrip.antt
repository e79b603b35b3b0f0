-- ===== src/Proto/Handshake/RoundTrip.antt =====
-- The payload codecs of internal/proto/handshake.go are inverse to one another.
use secure_access_relay.Common.{
  ℕ, ◌≤◌, ◌<◌, ◌/◌, ◌%◌, Bytes, IsBytes, true, be16, length, [], ◌∷◌, ◌++◌, ◌≡◌, arith, u32_mod,
  take-length, drop-length, length-append, take-append-drop, length-take, of_be16,
}
use secure_access_relay.Common.Except.{ok}
use secure_access_relay.Proto.Frame.{max_frame_payload}
use secure_access_relay.Proto.Handshake.{
  Hello, encode_hello, decode_hello, known_role, HelloAck, encode_hello_ack, decode_hello_ack,
  take_string, encode_window, decode_window, max_identity_len,
}

pub record IsHello (h : Hello) : Type 0 where
  pub range : h.min_version ≤ h.max_version
  pub role : known_role h.role ≡ true

-- A HELLO whose versions are a range and whose role is known is read back as it was written.
pub decode-encode_hello : (h : Hello) → IsHello h → decode_hello (encode_hello h) ≡ ok h
unfolding decode_hello encode_hello
decode-encode_hello h v = ground arith

-- A HELLO that is read has versions that are a range and a known role, whatever its bytes.
pub decode_hello-IsHello : (b : Bytes) (h : Hello) → decode_hello b ≡ ok h → IsHello h
unfolding decode_hello encode_hello
decode_hello-IsHello (x ∷ y ∷ z ∷ u ∷ []) h e = ground arith
decode_hello-IsHello _ h e = cc

pub record IsHelloAck (a : HelloAck) : Type 0 where
  pub payload_pos : 0 < a.max_frame_payload
  pub payload_le : a.max_frame_payload ≤ max_frame_payload
  pub window_pos : 0 < a.initial_window
  pub window_lt : a.initial_window < u32_mod
  pub streams_pos : 0 < a.max_streams
  pub streams_lt : a.max_streams < u32_mod

-- A HELLO_ACK whose limits are above zero and fit is read back as it was written.
pub decode-encode_hello_ack :
    (a : HelloAck) → IsHelloAck a → decode_hello_ack (encode_hello_ack a) ≡ ok a
unfolding decode_hello_ack encode_hello_ack
decode-encode_hello_ack a v = ground arith

-- A HELLO_ACK that is read from bytes has every limit above zero and no larger than it may be, and
-- the bytes are the only ones that it is written as.
pub decode_hello_ack-IsHelloAck :
    (b : Bytes) (a : HelloAck)
    → IsBytes b
    → decode_hello_ack b ≡ ok a
    → IsHelloAck a × (encode_hello_ack a ≡ b)
unfolding decode_hello_ack encode_hello_ack
decode_hello_ack-IsHelloAck (v ∷ a ∷ b ∷ c ∷ d ∷ e ∷ f ∷ g ∷ h ∷ i ∷ j ∷ k ∷ l ∷ []) r w p =
    (ground arith, ground arith)
decode_hello_ack-IsHelloAck _ h w e = cc

pub take_string-append :
    (s rest : Bytes)
    → length s ≤ max_identity_len
    → take_string (be16 (length s) ++ (s ++ rest)) ≡ ok (s, rest)
unfolding take_string
take_string-append s rest h =
    let n : of_be16 (length s / 256 % 256) (length s % 256) ≡ length s = omega arith in
    rw n (ground (arith, length-append s rest, take-length s rest, drop-length s rest))

pub take_string-of_ok :
    (b s rest : Bytes)
    → IsBytes b
    → take_string b ≡ ok (s, rest)
    → (b ≡ be16 (length s) ++ (s ++ rest)) × (length s ≤ max_identity_len)
unfolding take_string
take_string-of_ok [] s rest w e = cc
take_string-of_ok (x ∷ []) s rest w e = cc
take_string-of_ok (x ∷ y ∷ b) s rest w e =
    ground (arith, length-take (of_be16 x y) b, take-append-drop (of_be16 x y) b)

-- A credit above zero that fits 32 bits is read back as it was written.
pub decode-encode_window : (c : ℕ) → 0 < c → c < u32_mod → decode_window (encode_window c) ≡ ok c
unfolding decode_window encode_window
decode-encode_window c p h = ground arith
