-- ===== src/Tests/Visits.antt =====
-- An agent and an operator connect to a relay (internal/relay/relay.go).
use secure_access_relay.Common.{
  ℕ, true, false, codes, Bytes, bytes_eq, [], ◌∷◌, none, some, ◌≡◌, refl,
}
use secure_access_relay.Common.Named.{find, put, erase}
use secure_access_relay.Proto.Handshake.{HelloAck, Auth, role_agent, role_operator}
use secure_access_relay.Mux.Handshake.{Handshake}
use secure_access_relay.Storage.Identities.{Identities}
use secure_access_relay.Control.Enrollment.{
  Certificate, verify_enrolled, identity_scheme, role_device,
}
use secure_access_relay.Control.Enrollment as Enrollment
use secure_access_relay.Relay.Registry.{new_registry}
use secure_access_relay.Relay.Serving.{Visit, operator, serve}
use secure_access_relay.Relay.Serving.Certified.{
  visits, run, new_relay, IsServed, operator-IsServed,
}

-- Everybody is enrolled with one certificate.
abbrev enrolled : Identities
enrolled role id = some (record {
  role = role;
  id = id;
  enrolled_at = 0;
  serial_hex = codes "a1";
  revoked_at = none;
  pending_serial_hex = [];
  pending_issued_at = none;
})

abbrev ack : HelloAck
ack = record { version = 1; max_frame_payload = 65536; initial_window = 262144; max_streams = 256 }

abbrev shown : Bytes → Bytes → Certificate
shown role path = record {
  uris = record { scheme = codes "sar"; host = role; path = path } ∷ [];
  serial = codes "a1";
}

abbrev said : ℕ → Auth → Handshake
said role auth = record {
  hello = record { min_version = 1; max_version = 1; role = role };
  auth = auth;
  ack = ack;
}

abbrev agent_visit : Visit
agent_visit = record {
  certificate = shown (codes "device") (codes "/dev");
  database = record { reads = true; writes = true };
  handshake =
      some (said role_agent (record { device_id = codes "dev"; user_id = []; resource = [] }));
  admitted = true;
  session = 1;
  done = λ s. false;
}

abbrev operator_visit : Visit
operator_visit = record agent_visit {
  certificate = shown (codes "operator") (codes "/alice");
  handshake = some (
      said role_operator
        (record { device_id = codes "dev"; user_id = []; resource = codes "ssh" }));
  session = 2;
}

served_run :
    (serve operator_visit
      (run (visits agent_visit ∷ []) (new_relay enrolled)).identities
      (run (visits agent_visit ∷ []) (new_relay enrolled)).registry).1.1
    ≡ operator (codes "dev") (codes "alice") 1
unfolding run serve verify_enrolled new_registry find put erase bytes_eq identity_scheme role_device
    Enrollment.role_operator
served_run = refl

operator-IsServed_example :
    IsServed operator_visit
      (run (visits agent_visit ∷ []) (new_relay enrolled))
      (codes "dev")
      (codes "alice")
      1
operator-IsServed_example =
    operator-IsServed (visits agent_visit ∷ []) enrolled operator_visit (codes "dev")
      (codes "alice") 1 served_run
