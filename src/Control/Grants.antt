-- ===== src/Control/Grants.antt =====
-- internal/control/grants/grants.go: grants are issued under a policy, and looked up by the relay.
pub mod Issued
pub mod Revoked
use secure_access_relay.Common.{
  ℕ, ◌+◌, ltb, ◌==◌, not, ◌||◌, Bool, true, false, if◌then◌else◌, Bytes, codes, List, [], ◌++◌,
  Option, none, some,
}
use secure_access_relay.Common.Except.{Except, ok, err}
use secure_access_relay.Proto.Reason.{Reason, reason_bytes}
use secure_access_relay.Proto.Grant.{
  Ed25519, Grant, SignedGrant, GrantError, sign, max_grant_ttl, truncate_second,
}
use secure_access_relay.Control.Policy.{Duration, nanoseconds, negative, Rule, Decision, evaluate}
use secure_access_relay.Relay.Joining.{GrantState, Check, state}
use secure_access_relay.Relay.Joining as Joining
use secure_access_relay.Storage.{Database, StoreError, grant_unknown, is_set}
use secure_access_relay.Storage.Ledger.{GrantRecord, AuditEvent, Ledger, append_audit}
use secure_access_relay.Storage.Ledger.Grants.{record_grant, lookup_grant}

-- `Issuer`, and whether it has a store.
pub record Issuer : Type 0 where
  pub key : Bytes
  pub key_id : Bytes
  pub recording : Bool

pub record Request : Type 0 where
  pub org_id : Bytes
  pub user_id : Bytes
  pub device_id : Bytes
  pub resource_id : Bytes
  pub requested_ttl : Duration
  pub max_bytes : ℕ
  pub session_id : Bytes

pub data IssueError : Type 0 where
  denied no_random : IssueError
  unsigned : GrantError → IssueError
  unrecorded : StoreError → IssueError

unfoldable pub event_grant_created : Bytes
event_grant_created = codes "grant.created"

unfoldable pub event_grant_denied : Bytes
event_grant_denied = codes "grant.denied"

unfoldable pub actor_operator : Bytes
actor_operator = codes "operator"

abbrev capped : ℕ → ℕ
capped ttl = if ltb max_grant_ttl ttl then max_grant_ttl else ttl

-- The lifetime of a grant that was asked for, under the policy's.
unfoldable pub granted_ttl : Duration → ℕ → ℕ
granted_ttl (negative n) most = capped most
granted_ttl (nanoseconds n) most = capped (if n == 0 || ltb most n then most else n)

abbrev pub grant_of : Issuer → Request → Decision → ℕ → Bytes → Grant
grant_of issuer req d now grant_id = record {
  version = 0;
  key_id = issuer.key_id;
  grant_id = grant_id;
  org_id = req.org_id;
  user_id = req.user_id;
  device_id = req.device_id;
  resource_id = req.resource_id;
  issued_at = truncate_second now;
  expires_at = truncate_second now + granted_ttl req.requested_ttl d.max_ttl;
  max_bytes = req.max_bytes;
}

abbrev pub record_of : Request → Decision → Grant → GrantRecord
record_of req d g = record {
  grant_id = g.grant_id;
  org_id = g.org_id;
  user_id = g.user_id;
  device_id = g.device_id;
  resource_id = g.resource_id;
  policy_id = d.policy_id;
  session_id = req.session_id;
  issued_at = g.issued_at;
  expires_at = g.expires_at;
  max_bytes = g.max_bytes;
  revoked_at = none;
  revoke_reason = [];
}

abbrev pub created_event : Request → Decision → Grant → AuditEvent
created_event req d g = record {
  time = some g.issued_at;
  event = event_grant_created;
  org_id = g.org_id;
  actor_role = actor_operator;
  actor_id = g.user_id;
  device_id = g.device_id;
  resource_id = g.resource_id;
  grant_id = g.grant_id;
  session_id = req.session_id;
  reason = [];
  detail = codes "policy " ++ d.policy_id;
}

abbrev pub denied_event : Request → Decision → AuditEvent
denied_event req d = record {
  time = none;
  event = event_grant_denied;
  org_id = req.org_id;
  actor_role = actor_operator;
  actor_id = req.user_id;
  device_id = req.device_id;
  resource_id = req.resource_id;
  grant_id = [];
  session_id = req.session_id;
  reason = reason_bytes d.reason;
  detail = [];
}

-- `recordDenial`, whose failure is not reported.
unfoldable pub record_denial : Issuer → Database → ℕ → Request → Decision → Ledger → Ledger
record_denial issuer db now req d l =
    if not issuer.recording then l else (append_audit db now (denied_event req d) l).0

abbrev pub recorded :
    SignedGrant → Ledger × Option StoreError → Ledger × Except IssueError SignedGrant
recorded s (l, none) = (l, ok s)
recorded s (l, some e) = (l, err (unrecorded e))

abbrev pub after_sign :
    Issuer
    → Database
    → ℕ
    → Request
    → Decision
    → Ledger
    → Except GrantError SignedGrant
    → Ledger × Except IssueError SignedGrant
after_sign issuer db now req d l (err e) = (l, err (unsigned e))
after_sign issuer db now req d l (ok s) =
    if not issuer.recording
    then (l, ok s)
    else recorded s (record_grant db now (record_of req d s.grant) (created_event req d s.grant) l)

module _ (ed : Ed25519) where
  abbrev pub after_random :
      Issuer
      → Database
      → ℕ
      → Request
      → Decision
      → Ledger
      → Option Bytes
      → Ledger × Except IssueError SignedGrant
  after_random issuer db now req d l none = (l, err no_random)
  after_random issuer db now req d l (some grant_id) =
      after_sign issuer db now req d l (sign ed (grant_of issuer req d now grant_id) issuer.key)

  abbrev pub decided :
      Issuer
      → Database
      → ℕ
      → Option Bytes
      → Request
      → Ledger
      → Decision
      → Ledger × Except IssueError SignedGrant
  decided issuer db now grant_id req l d =
      if not d.allowed
      then (record_denial issuer db now req d l, err denied)
      else after_random issuer db now req d l grant_id

  -- `Issue` at the time `now`, with the identifier that was drawn, if one was.
  unfoldable pub issue :
      Issuer
      → Database
      → ℕ
      → Option Bytes
      → List Rule
      → Request
      → Ledger
      → Ledger × Except IssueError SignedGrant
  unfolding evaluate sign record_grant
  issue issuer db now grant_id rules req l =
      decided issuer db now grant_id req l
        (evaluate rules req.user_id req.device_id req.resource_id)

-- `StateOf`, as the relay is given it.
abbrev pub state_read : Except StoreError GrantRecord → Check
state_read (ok r) =
    state (record { is_known = true; is_revoked = is_set r.revoked_at; session_id = r.session_id })
state_read (err grant_unknown) =
    state (record { is_known = false; is_revoked = false; session_id = [] })
state_read (err _) = Joining.failed

unfoldable pub state_of : Database → Ledger → Bytes → Check
unfolding lookup_grant
state_of db l grant_id = state_read (lookup_grant db grant_id l)
