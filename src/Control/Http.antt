-- ===== src/Control/Http.antt =====
-- internal/control/httpapi: who calls the control plane, and what it answers.
pub mod Callers
pub mod Granting
pub mod Logins
pub mod Enrolling
use secure_access_relay.Common.{
  ℕ, leb, not, ◌||◌, Bool, true, false, if◌then◌else◌, Bytes, bytes_eq, codes, take, drop, length,
  List, [], ◌∷◌, Option, none, some,
}
use secure_access_relay.Common.Except.{Except, ok, err}
use secure_access_relay.Common.Text.{trim_space, equal_fold}
use secure_access_relay.Proto.Grant.{is_empty}
use secure_access_relay.Control.Policy.{Rule}
use secure_access_relay.Storage.{Database, StoreError, session_expired, session_revoked}
use secure_access_relay.Storage.Identities.{Identities}
use secure_access_relay.Storage.Ledger.{SessionRecord, AuditEvent, Ledger}
use secure_access_relay.Control.Audit.{Occasion, record_event, refusal_event}
use secure_access_relay.Control.Enrollment.{
  Identity, Certificate, EnrollError, Control, role_operator, verify_enrolled,
}
use secure_access_relay.Control.Grants.{Issuer}
use secure_access_relay.Control.Login.{resolve}

-- `Server`: an issuer, the lifetime of sessions, a recorder and the relay's `TerminateFunc`, as far as
-- they are configured, and the rules at the time of the request.
pub record Server : Type 0 where
  pub issuer : Option Issuer
  pub session_lifetime : Option ℕ
  pub auditing : Bool
  pub terminates : Bool
  pub rules : List Rule

-- The stores, and the calls of `terminate` so far.
pub record Plane : Type 0 where
  pub control : Control
  pub ledger : Ledger
  pub terminated : List (List Bytes)

-- A request: the first of the certificates of its connection, the header `Authorization`, the address
-- it came from as `remoteHost` has it, and what the decoder made of its body.
pub record Request {ℓ} (B : Type ℓ) : Type ℓ where
  pub certificate : Option Certificate
  pub authorization : Bytes
  pub remote : Bytes
  pub body : Option B

-- `writeError`.
pub record Refusal : Type 0 where
  pub status : ℕ
  pub message : Bytes

abbrev pub refused {ℓ} : {A : Type ℓ} → ℕ → Bytes → Except Refusal A
refused status message = err (record { status = status; message = message })

-- What the stores answer on the way.
pub record Checks : Type 0 where
  pub verify_db : Database
  pub denial : Occasion
  pub resolve_db : Database
  pub resolved_at : ℕ

unfoldable pub bearer_prefix : Bytes
bearer_prefix = codes "Bearer "

unfoldable pub bearer_token : Bytes → Bytes
unfolding bearer_prefix
bearer_token v =
    if leb (length v) 7 || not (equal_fold (take 7 v) bearer_prefix)
    then []
    else trim_space (drop 7 v)

abbrev pub with_ledger : Plane → Ledger → Plane
with_ledger p l = record p { ledger = l }

abbrev pub with_identities : Plane → Identities → Plane
with_identities p rows = record p { control = record p.control { identities = rows } }

-- The record of a refusal, if an event is named for it.
abbrev pub note_denied : Server → Occasion → Bytes → Bytes → Bytes → Plane → Plane
note_denied s w event remote reason p =
    if is_empty event
    then p
    else with_ledger p (record_event s.auditing w (refusal_event event remote reason) p.ledger)

module _ (s : Server) (w : Checks) (event remote : Bytes) where
  -- Only an operator goes on.
  abbrev pub must_be_operator :
      Plane → Identities × Except EnrollError Identity → Plane × Except Refusal Identity
  must_be_operator p (rows, err e) = (
    note_denied s w.denial event remote (codes "not_enrolled") (with_identities p rows),
    refused 403 (codes "not recognised"),
  )
  must_be_operator p (rows, ok id) =
      if not (bytes_eq id.role role_operator)
      then (
        note_denied s w.denial event remote (codes "not_an_operator") (with_identities p rows),
        refused 403 (codes "not an operator"),
      )
      else (with_identities p rows, ok id)

  abbrev pub with_certificate : Plane → Option Certificate → Plane × Except Refusal Identity
  with_certificate p none = (
    note_denied s w.denial event remote (codes "no_certificate") p,
    refused 401 (codes "a client certificate is required"),
  )
  with_certificate p (some cert) =
      must_be_operator p (verify_enrolled w.verify_db cert p.control.identities)

-- `authenticateOperator`.
unfoldable pub authenticate_operator {ℓ} :
    {B : Type ℓ} → Server → Checks → Bytes → Request B → Plane → Plane × Except Refusal Identity
unfolding verify_enrolled record_event
authenticate_operator s w event r p = with_certificate s w event r.remote p r.certificate

abbrev pub own_session : Identity → Except StoreError SessionRecord → Except Refusal SessionRecord
own_session id (ok rec) =
    if not (bytes_eq rec.user_id id.id)
    then refused 403 (codes "session not recognised")
    else ok rec
own_session id (err session_expired) = refused 401 (codes "session expired; run login again")
own_session id (err session_revoked) = refused 403 (codes "session was revoked")
own_session id (err _) = refused 401 (codes "session not recognised")

-- `requireSession`, of the token that a request bears.
unfoldable pub require_session :
    (Bytes → Bytes) → Checks → Bytes → Identity → Ledger → Except Refusal SessionRecord
unfolding resolve
require_session hash_token w token id l =
    if is_empty token
    then refused 401 (codes "a session is required; run login first")
    else own_session id (resolve hash_token w.resolve_db w.resolved_at token l)
