-- ===== src/Control/Audit.antt =====
-- internal/control/audit/audit.go: the events that are recorded outside of a transaction.
use secure_access_relay.Common.{ℕ, Bool, if◌then◌else◌, Bytes, bytes_eq, codes, [], ◌++◌, none}
use secure_access_relay.Storage.{Database}
use secure_access_relay.Storage.Ledger.{AuditEvent, Ledger, append_audit}

unfoldable pub event_enroll_denied : Bytes
event_enroll_denied = codes "enroll.denied"

unfoldable pub event_renew_denied : Bytes
event_renew_denied = codes "renew.denied"

unfoldable pub event_login_denied : Bytes
event_login_denied = codes "operator.login_denied"

unfoldable pub actor_system : Bytes
actor_system = codes "system"

unfoldable pub actor_device : Bytes
actor_device = codes "device"

unfoldable pub is_operator : Bytes → Bool
is_operator role = bytes_eq role (codes "operator")

-- The database at the time of an event.
pub record Occasion : Type 0 where
  pub database : Database
  pub at : ℕ

-- `Record`, by a recorder that has a store or none; a failure is not reported.
unfoldable pub record_event : Bool → Occasion → AuditEvent → Ledger → Ledger
record_event has_store w e l = if has_store then (append_audit w.database w.at e l).0 else l

-- An event with its actor, and nothing else but why and whence.
abbrev pub plain_event : Bytes → Bytes → Bytes → Bytes → Bytes → AuditEvent
plain_event event role id reason detail = record {
  time = none;
  event = event;
  org_id = [];
  actor_role = role;
  actor_id = id;
  device_id = [];
  resource_id = [];
  grant_id = [];
  session_id = [];
  reason = reason;
  detail = detail;
}

-- An event of a device or of an operator; the first has the device too.
abbrev pub event_of_role : Bytes → Bytes → Bytes → Bytes → Bytes → AuditEvent
event_of_role for_device for_operator role id detail =
    let e = plain_event (if is_operator role then for_operator else for_device) role id [] detail in
    if bytes_eq role actor_device then record e { device_id = id } else e

unfoldable pub enrolled_event : Bytes → Bytes → Bytes → AuditEvent
unfolding is_operator actor_device
enrolled_event role id detail =
    event_of_role (codes "device.enrolled") (codes "operator.enrolled") role id detail

unfoldable pub renewed_event : Bytes → Bytes → Bytes → AuditEvent
unfolding is_operator actor_device
renewed_event role id detail =
    event_of_role (codes "device.renewed") (codes "operator.renewed") role id detail

-- A refusal, by the system itself.
unfoldable pub refusal_event : Bytes → Bytes → Bytes → AuditEvent
refusal_event event remote reason =
    plain_event event actor_system [] reason (codes "from " ++ remote)
