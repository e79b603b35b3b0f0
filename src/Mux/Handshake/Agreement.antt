-- ===== src/Mux/Handshake/Agreement.antt =====
-- The two sides of a handshake agree (internal/mux/session.go, `Dial`, `Accept` and `Admit`).
use secure_access_relay.Common.{
  ◌<◌, ◌≤◌, true, false, Bytes, length, List, [], ◌∷◌, ◌++◌, append-nil, ◌≡◌, refl, ◌⊎◌, inl, inr,
  arith,
}
use secure_access_relay.Common.Except.{ok, err}
use secure_access_relay.Proto.Reason.{Reason, reason_bytes}
use secure_access_relay.Proto.Frame.{
  version, FrameType, encode_header, Frame, ProtoError, unsupported_version,
}
use secure_access_relay.Proto.Codec.{Outcome, whole, write, write_error, write_frame, frame_bytes}
use secure_access_relay.Proto.Codec.Writes.{outcomes_for}
use secure_access_relay.Proto.Handshake.{
  Hello, known_role, encode_hello, decode_hello, HelloAck, encode_hello_ack, Auth, encode_auth,
  decode_auth, encode_auth_ok, max_identity_len,
}
use secure_access_relay.Proto.Handshake.RoundTrip.{
  IsHello, IsHelloAck, decode-encode_hello, decode-encode_hello_ack,
}
use secure_access_relay.Proto.Handshake.Auths.{IsAuth, decode-encode_auth}
use secure_access_relay.Mux.Session.{new_session}
use secure_access_relay.Mux.Handshake.{
  codec, Config, with_defaults, ◌>>=◌, fail, spoken, in_range, dial, announced, accept, admit,
}
use secure_access_relay.Mux.Handshake.Steps.{
  message, conn_of, send_whole, next_whole, bind_ok, expected, lifted, claimed, length-hello,
  length-hello_ack, length-auth, length-auth_ok, decode-encode_auth_ok, bind_err,
}

module _ (client server : Config) (auth : Auth) (session_id : Bytes) where
  abbrev pub hello_of : Hello
  hello_of = record { min_version = version; max_version = version; role = client.role }

  abbrev pub agreed : HelloAck
  agreed = announced (with_defaults server)

  abbrev pub from_client : List Frame
  from_client =
      message FrameType.hello (encode_hello hello_of)
      ∷ message FrameType.auth (encode_auth auth)
      ∷ []

  abbrev pub from_server : List Frame
  from_server =
      message FrameType.hello_ack (encode_hello_ack agreed)
      ∷ message FrameType.auth_ok (encode_auth_ok session_id)
      ∷ []

  dial_whole :
      (rest : Bytes) (e : ProtoError)
      → IsHelloAck agreed
      → IsAuth auth
      → length session_id ≤ max_identity_len
      → dial client auth (
          conn_of
            (frame_bytes (message FrameType.hello_ack (encode_hello_ack agreed))
              ++ (frame_bytes (message FrameType.auth_ok (encode_auth_ok session_id)) ++ rest))
            e
            []
            (outcomes_for from_client))
        ≡ (
          conn_of rest e
              (frame_bytes (message FrameType.hello (encode_hello hello_of))
                ++ frame_bytes (message FrameType.auth (encode_auth auth)))
              [],
          ok (record { session = new_session true agreed; id = session_id; peer = auth }),
        )
  unfolding dial
  dial_whole rest e ha hu hs =
      bind_ok _ _
        (send_whole FrameType.hello (encode_hello hello_of) _ e [] _
          (omega (arith, length-hello hello_of)))
        (bind_ok _ _
          (next_whole FrameType.hello_ack (encode_hello_ack agreed) _ e _ _
            (omega (arith, length-hello_ack agreed)))
          (bind_ok _ _ (expected FrameType.hello_ack (encode_hello_ack agreed) _ (omega arith)) (
            bind_ok _ _ (lifted _ agreed _ (decode-encode_hello_ack agreed ha)) (
              bind_ok (spoken agreed) _ refl (
                bind_ok _ _
                  (send_whole FrameType.auth (encode_auth auth) _ e _ _
                    (omega (arith, length-auth auth hu)))
                  (bind_ok _ _
                    (next_whole FrameType.auth_ok (encode_auth_ok session_id) rest e _ _
                      (omega (arith, length-auth_ok session_id hs)))
                    (bind_ok _ _
                      (expected FrameType.auth_ok (encode_auth_ok session_id) _ (omega arith))
                      (bind_ok _ _ (lifted _ session_id _ (decode-encode_auth_ok session_id hs))
                        refl))))))))

  accept_whole :
      (rest : Bytes) (e : ProtoError)
      → known_role client.role ≡ true
      → IsHelloAck agreed
      → IsAuth auth
      → length session_id ≤ max_identity_len
      → (accept server >>= λ h. admit h session_id) (
          conn_of
            (frame_bytes (message FrameType.hello (encode_hello hello_of))
              ++ (frame_bytes (message FrameType.auth (encode_auth auth)) ++ rest))
            e
            []
            (outcomes_for from_server))
        ≡ (
          conn_of rest e
              (frame_bytes (message FrameType.hello_ack (encode_hello_ack agreed))
                ++ frame_bytes (message FrameType.auth_ok (encode_auth_ok session_id)))
              [],
          ok (record { session = new_session false agreed; id = session_id; peer = auth }),
        )
  unfolding accept admit
  accept_whole rest e hr ha hu hs =
      bind_ok (accept server) _
        (bind_ok _ _
          (next_whole FrameType.hello (encode_hello hello_of) _ e [] _
            (omega (arith, length-hello hello_of)))
          (bind_ok _ _
            (claimed FrameType.hello decode_hello _ hello_of _
              (decode-encode_hello hello_of (record { range = omega arith; role = hr })))
            (bind_ok (in_range hello_of) _ refl (
              bind_ok _ _
                (send_whole FrameType.hello_ack (encode_hello_ack agreed) _ e [] _
                  (omega (arith, length-hello_ack agreed)))
                (bind_ok _ _
                  (next_whole FrameType.auth (encode_auth auth) rest e _ _
                    (omega (arith, length-auth auth hu)))
                  (bind_ok _ _
                    (claimed FrameType.auth decode_auth _ auth _ (decode-encode_auth auth hu))
                    refl))))))
        (bind_ok _ _
          (send_whole FrameType.auth_ok (encode_auth_ok session_id) _ e _ _
            (omega (arith, length-auth_ok session_id hs)))
          refl)

  -- What the initiator writes in the handshake, and what the responder does.
  abbrev pub client_bytes : Bytes
  client_bytes =
      frame_bytes (message FrameType.hello (encode_hello hello_of))
      ++ frame_bytes (message FrameType.auth (encode_auth auth))

  abbrev pub server_bytes : Bytes
  server_bytes =
      frame_bytes (message FrameType.hello_ack (encode_hello_ack agreed))
      ++ frame_bytes (message FrameType.auth_ok (encode_auth_ok session_id))

  -- Over a connection that takes every write, for a known role, limits that HELLO_ACK can carry and
  -- claims and a name within the bounds of their fields, the initiator and the responder complete the
  -- handshake on exactly what the other writes. Both then hold a session with the limits that the
  -- responder announced, under one name, with the claims of the initiator, and one of them is the
  -- client.
  pub handshake_agrees :
      (e : ProtoError)
      → known_role client.role ≡ true
      → IsHelloAck agreed
      → IsAuth auth
      → length session_id ≤ max_identity_len
      → (dial client auth (conn_of server_bytes e [] (outcomes_for from_client)) ≡ (
        conn_of [] e client_bytes [],
        ok (record { session = new_session true agreed; id = session_id; peer = auth }),
      ))
        × ((accept server >>= λ h. admit h session_id)
              (conn_of client_bytes e [] (outcomes_for from_server))
            ≡ (
              conn_of [] e server_bytes [],
              ok (record { session = new_session false agreed; id = session_id; peer = auth }),
            ))
  handshake_agrees e hr ha hu hs = (
    rw (append-nil (frame_bytes (message FrameType.auth_ok (encode_auth_ok session_id)))) at
        (dial_whole [] e ha hu hs),
    rw (append-nil (frame_bytes (message FrameType.auth (encode_auth auth)))) at
        (accept_whole [] e hr ha hu hs),
  )

out_of_range :
    (h : Hello) (rest : Bytes) (e : ProtoError) (os : List Outcome)
    → (version < h.min_version) ⊎ (h.max_version < version)
    → in_range h (conn_of rest e [] (whole ∷ whole ∷ os)) ≡ (
      conn_of rest e
          (frame_bytes (message FrameType.error (reason_bytes Reason.protocol_version_unsupported)))
          os,
      err (codec unsupported_version),
    )
unfolding fail write_error write_frame write reason_bytes encode_header
out_of_range h rest e os (inl low) = ground arith
out_of_range h rest e os (inr high) = ground arith

-- A peer that speaks no version of this side is told so, and no session comes of it.
pub accept-version :
    (server : Config) (h : Hello) (rest : Bytes) (e : ProtoError) (os : List Outcome)
    → IsHello h
    → (version < h.min_version) ⊎ (h.max_version < version)
    → accept server (
        conn_of
          (frame_bytes (message FrameType.hello (encode_hello h)) ++ rest)
          e
          []
          (whole ∷ whole ∷ os))
      ≡ (
        conn_of rest e
            (frame_bytes
              (message FrameType.error (reason_bytes Reason.protocol_version_unsupported)))
            os,
        err (codec unsupported_version),
      )
unfolding accept
accept-version server h rest e os v out =
    bind_ok _ _
      (next_whole FrameType.hello (encode_hello h) rest e [] _ (omega (arith, length-hello h)))
      (bind_ok _ _ (claimed FrameType.hello decode_hello _ h _ (decode-encode_hello h v))
        (bind_err (in_range h) _ (out_of_range h rest e os out)))
