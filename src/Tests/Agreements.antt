-- ===== src/Tests/Agreements.antt =====
-- Handshakes of an agent with its relay (internal/mux/session.go).
use secure_access_relay.Common.{codes, [], ◌≡◌, refl, arith, true, false}
use secure_access_relay.Common.Except.{ok}
use secure_access_relay.Proto.Frame.{eof}
use secure_access_relay.Proto.Codec.Writes.{outcomes_for}
use secure_access_relay.Proto.Handshake.{known_role, role_agent, Hello, Auth}
use secure_access_relay.Proto.Handshake.RoundTrip.{IsHello, IsHelloAck}
use secure_access_relay.Mux.Session.{new_session}
use secure_access_relay.Mux.Handshake.{Config, with_defaults, ◌>>=◌, dial, accept, admit}
use secure_access_relay.Mux.Handshake.Steps.{conn_of}
use secure_access_relay.Mux.Handshake.Agreement.{
  agreed, from_client, from_server, client_bytes, server_bytes, handshake_agrees,
}

abbrev plain : Config
plain = record { role = role_agent; max_frame_payload = 0; initial_window = 0; max_streams = 0 }

abbrev claim : Auth
claim = record { device_id = codes "dev"; user_id = []; resource = [] }

plain-known : known_role role_agent ≡ true
unfolding known_role
plain-known = refl

plain-IsHelloAck : IsHelloAck (agreed plain plain claim [])
unfolding with_defaults
plain-IsHelloAck = omega arith

handshake_agrees_example :
    (dial plain claim (
        conn_of
          (server_bytes plain plain claim (codes "agt_1"))
          eof
          []
          (outcomes_for (from_client plain plain claim (codes "agt_1"))))
      ≡ (
        conn_of [] eof (client_bytes plain plain claim (codes "agt_1")) [],
        ok (record {
          session = new_session true (agreed plain plain claim (codes "agt_1"));
          id = codes "agt_1";
          peer = claim;
        }),
      ))
    × ((accept plain >>= λ h. admit h (codes "agt_1")) (
          conn_of
            (client_bytes plain plain claim (codes "agt_1"))
            eof
            []
            (outcomes_for (from_server plain plain claim (codes "agt_1"))))
        ≡ (
          conn_of [] eof (server_bytes plain plain claim (codes "agt_1")) [],
          ok (record {
            session = new_session false (agreed plain plain claim (codes "agt_1"));
            id = codes "agt_1";
            peer = claim;
          }),
        ))
handshake_agrees_example =
    handshake_agrees plain plain claim (codes "agt_1") eof plain-known plain-IsHelloAck
      (omega arith) (omega arith)

-- A peer of a later protocol.
abbrev later : Hello
later = record { min_version = 2; max_version = 3; role = role_agent }

later-IsHello : IsHello later
unfolding known_role
later-IsHello = record { range = omega arith; role = refl }
