-- ===== src/Tests/Handshakes.antt =====
-- Payloads of the handshake (internal/proto/handshake.go).
use secure_access_relay.Common.{IsBytes, codes, [], ◌∷◌, ◌≡◌, refl, arith}
use secure_access_relay.Common.Except.{ok}
use secure_access_relay.Proto.Handshake.{
  known_role, Hello, decode_hello, HelloAck, encode_hello_ack, Auth, encode_auth, decode_auth,
  role_agent,
}
use secure_access_relay.Proto.Handshake.RoundTrip.{IsHello, IsHelloAck}

abbrev agent_hello : Hello
agent_hello = record { min_version = 1; max_version = 1; role = role_agent }

agent_hello-IsHello : IsHello agent_hello
unfolding known_role
agent_hello-IsHello = record { range = omega arith; role = refl }

decode_hello_run : decode_hello (1 ∷ 1 ∷ 1 ∷ 9 ∷ []) ≡ ok agent_hello
unfolding decode_hello
decode_hello_run = refl

abbrev agreed : HelloAck
agreed = record {
  version = 1;
  max_frame_payload = 65536;
  initial_window = 262144;
  max_streams = 256;
}

agreed-IsHelloAck : IsHelloAck agreed
agreed-IsHelloAck = omega arith

ack-IsBytes : IsBytes (encode_hello_ack agreed)
unfolding encode_hello_ack
ack-IsBytes = ground arith

abbrev operator : Auth
operator = record { device_id = codes "dev"; user_id = codes "alice"; resource = [] }

operator-IsBytes : IsBytes (encode_auth operator)
unfolding encode_auth
operator-IsBytes = ground arith

decode_auth_run : decode_auth (encode_auth operator) ≡ ok operator
unfolding decode_auth encode_auth
decode_auth_run = refl
