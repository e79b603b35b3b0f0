-- ===== src/Relay/Serving.antt =====
-- internal/relay/relay.go, `serve`, `serveAgent`, `serveOperator`: who is let in, and as whom.
pub mod Certified
use secure_access_relay.Common.{
  ℕ, ◌==◌, not, ◌&&◌, Bool, true, false, if◌then◌else◌, Bytes, bytes_eq, List, [], ◌∷◌, Option,
  none, some,
}
use secure_access_relay.Common.Except.{Except, ok, err}
use secure_access_relay.Proto.Reason
use secure_access_relay.Proto.Reason.{Reason}
use secure_access_relay.Proto.Grant.{is_empty}
use secure_access_relay.Proto.Handshake as Roles
use secure_access_relay.Mux.Handshake.{Handshake}
use secure_access_relay.Storage.{Database}
use secure_access_relay.Storage.Identities.{Identities}
use secure_access_relay.Control.Enrollment.{
  Identity, Certificate, EnrollError, role_device, role_operator, verify_enrolled,
}
use secure_access_relay.Relay.Registry.{Registry, add, remove, get}

-- What becomes of a connection. The agent's session that a joining one replaced is closed; an operator
-- is served for a device, as a user, over an agent's session.
pub data Outcome : Type 0 where
  closed admit_failed : Outcome
  refused : Reason → Outcome
  agent : Bytes → Option ℕ → Outcome
  operator : Bytes → Bytes → ℕ → Outcome

unfoldable pub role_matches : Bytes → ℕ → Bool
role_matches cert_role hello_role =
    if bytes_eq cert_role role_device
    then hello_role == Roles.role_agent
    else if bytes_eq cert_role role_operator
    then hello_role == Roles.role_operator
    else false

abbrev pub registered : Bytes → Registry × Option ℕ → Registry × Outcome
registered device_id (r, replaced) = (r, agent device_id replaced)

-- `serveAgent`, up to the wait for the end of the session.
unfoldable pub serve_agent : Bool → ℕ → Handshake → Identity → Registry → Registry × Outcome
unfolding add
serve_agent admitted s h id r =
    if not (is_empty h.auth.device_id) && not (bytes_eq h.auth.device_id id.id)
    then (r, refused Reason.auth_failed)
    else if not admitted
    then (r, admit_failed)
    else registered id.id (add id.id s r)

abbrev pub with_agent : Bool → Bytes → Identity → Registry × Option ℕ → Registry × Outcome
with_agent admitted device_id id (r, none) = (r, refused Reason.no_agent)
with_agent admitted device_id id (r, some a) =
    if not admitted then (r, admit_failed) else (r, operator device_id id.id a)

-- `serveOperator`, up to its streams.
unfoldable pub serve_operator :
    (ℕ → Bool) → Bool → Handshake → Identity → Registry → Registry × Outcome
unfolding get
serve_operator done admitted h id r =
    if is_empty h.auth.device_id
    then (r, refused Reason.auth_failed)
    else with_agent admitted h.auth.device_id id (get done h.auth.device_id r)

abbrev pub by_role : (ℕ → Bool) → Bool → ℕ → Identity → Handshake → Registry → Registry × Outcome
by_role done admitted s id h r =
    if not (role_matches id.role h.hello.role)
    then (r, refused Reason.auth_failed)
    else if bytes_eq id.role role_device
    then serve_agent admitted s h id r
    else if bytes_eq id.role role_operator
    then serve_operator done admitted h id r
    else (r, refused Reason.auth_failed)

-- What is met on the way: the peer's certificate, the answer of the database, the handshake if it
-- completed, whether the session could be admitted and its number, and which sessions have ended.
pub record Visit : Type 0 where
  pub certificate : Certificate
  pub database : Database
  pub handshake : Option Handshake
  pub admitted : Bool
  pub session : ℕ
  pub done : ℕ → Bool

abbrev pub after_accept : Visit → Identity → Option Handshake → Registry → Registry × Outcome
after_accept v id none r = (r, closed)
after_accept v id (some h) r = by_role v.done v.admitted v.session id h r

abbrev pub after_verified :
    Visit → Registry → Identities × Except EnrollError Identity → Identities × (Registry × Outcome)
after_verified v r (rows, err e) = (rows, (r, closed))
after_verified v r (rows, ok id) = (rows, after_accept v id v.handshake r)

-- `serve`, of a connection whose TLS handshake gave a certificate.
unfoldable pub serve : Visit → Identities → Registry → Identities × (Registry × Outcome)
unfolding verify_enrolled role_matches serve_agent serve_operator
serve v rows r = after_verified v r (verify_enrolled v.database v.certificate rows)
