-- ===== src/Storage/Ledger/Grants.antt =====
-- internal/storage/grants.go: recorded grants and their revocation.
use secure_access_relay.Common.{
  ℕ, ◌*◌, ltb, not, ◌&&◌, Bool, if◌then◌else◌, Bytes, bytes_eq, List, [], ◌∷◌, ◌++◌, Option, none,
  some,
}
use secure_access_relay.Common.Except.{Except, ok, err}
use secure_access_relay.Proto.Grant.{is_empty, second}
use secure_access_relay.Storage.{Database, StoreError, failed, grant_unknown, stored, is_set}
use secure_access_relay.Storage.Ledger.{
  GrantRecord, AuditEvent, Ledger, first, select, update, has, commit_with, is_grant, is_session,
  returned,
}

-- What the columns hold of a new grant.
abbrev pub grant_row : GrantRecord → GrantRecord
grant_row g = record g {
  issued_at = stored g.issued_at;
  expires_at = stored g.expires_at;
  revoked_at = none;
  revoke_reason = [];
}

-- `RecordGrant`: the INSERT fails on an id that is there, and on a session that is not.
unfoldable pub record_grant :
    Database → ℕ → GrantRecord → AuditEvent → Ledger → Ledger × Option StoreError
unfolding first commit_with
record_grant db now g e l =
    if has (first (is_grant g.grant_id) l.grants)
    then (l, some failed)
    else if not (is_empty g.session_id) && not (has (first (is_session g.session_id) l.sessions))
    then (l, some failed)
    else commit_with db now e l (record l { grants = l.grants ++ grant_row g ∷ [] })

abbrev pub read_grant : Option GrantRecord → Except StoreError GrantRecord
read_grant none = err grant_unknown
read_grant (some r) = ok r

unfoldable pub lookup_grant : Database → Bytes → Ledger → Except StoreError GrantRecord
unfolding first
lookup_grant db grant_id l =
    if not db.reads then err failed else read_grant (first (is_grant grant_id) l.grants)

abbrev pub revoked_row : ℕ → Bytes → GrantRecord → GrantRecord
revoked_row now reason r = record r { revoked_at = some (stored now); revoke_reason = reason }

abbrev pub about : AuditEvent → Bytes → GrantRecord → AuditEvent
about actor reason g = record actor {
  grant_id = g.grant_id;
  device_id = g.device_id;
  resource_id = g.resource_id;
  session_id = g.session_id;
  reason = reason;
}

-- A grant that is revoked already is answered as it is, without an event.
abbrev pub revoke_read :
    Database
    → ℕ
    → Bytes
    → Bytes
    → AuditEvent
    → Ledger
    → Except StoreError GrantRecord
    → Ledger × Except StoreError GrantRecord
revoke_read db now grant_id reason actor l (err e) = (l, err e)
revoke_read db now grant_id reason actor l (ok g) =
    if is_set g.revoked_at
    then (l, ok g)
    else returned (record g { revoked_at = some now; revoke_reason = reason })
        (commit_with db now (about actor reason g) l (record l {
          grants =
              update (λ r. is_grant grant_id r && not (is_set r.revoked_at))
                (revoked_row now reason) l.grants;
        }))

unfoldable pub revoke_grant :
    Database → ℕ → Bytes → Bytes → AuditEvent → Ledger → Ledger × Except StoreError GrantRecord
unfolding lookup_grant update commit_with
revoke_grant db now grant_id reason actor l =
    revoke_read db now grant_id reason actor l (lookup_grant db grant_id l)

pub data GrantScope : Type 0 where
  scope_user scope_device scope_session : GrantScope

-- The column of a scope; NULL equals no value.
abbrev pub in_scope : GrantScope → Bytes → GrantRecord → Bool
in_scope scope_user value r = bytes_eq r.user_id value
in_scope scope_device value r = bytes_eq r.device_id value
in_scope scope_session value r = not (is_empty r.session_id) && bytes_eq r.session_id value

-- The WHERE of `RevokeGrantsWhere`: of the scope, not revoked and with time left.
abbrev pub is_affected : ℕ → GrantScope → Bytes → GrantRecord → Bool
is_affected now by value r =
    in_scope by value r && (not (is_set r.revoked_at) && ltb (stored now) r.expires_at)

-- The zero of `time.Time`, in the year 1.
abbrev pub zero_time : ℕ
zero_time = 9_223_372_036_854_775_808 * second

-- What is returned of an affected grant: the columns that were selected, and its revocation.
abbrev pub affected_row : ℕ → Bytes → GrantRecord → GrantRecord
affected_row now reason r = record r {
  org_id = [];
  policy_id = [];
  issued_at = zero_time;
  max_bytes = 0;
  revoked_at = some now;
  revoke_reason = reason;
}

unfoldable pub events_about : ℕ → AuditEvent → Bytes → List GrantRecord → List AuditEvent
events_about now actor reason [] = []
events_about now actor reason (g ∷ gs) =
    record (about actor reason g) { time = some (stored now) } ∷ events_about now actor reason gs

unfoldable pub affected_rows : ℕ → Bytes → List GrantRecord → List GrantRecord
affected_rows now reason [] = []
affected_rows now reason (g ∷ gs) = affected_row now reason g ∷ affected_rows now reason gs

abbrev pub revoke_selected :
    Database
    → ℕ
    → GrantScope
    → Bytes
    → Bytes
    → AuditEvent
    → Ledger
    → List GrantRecord
    → Ledger × Except StoreError (List GrantRecord)
revoke_selected db now by value reason actor l [] =
    if not db.writes then (l, err failed) else (l, ok [])
revoke_selected db now by value reason actor l (g ∷ gs) =
    if is_empty actor.event then (l, err failed) else if not db.writes then (l, err failed) else (
      record l {
        grants = update (is_affected now by value) (revoked_row now reason) l.grants;
        trail = l.trail ++ events_about now actor reason (g ∷ gs);
      },
      ok (affected_rows now reason (g ∷ gs)),
    )

unfoldable pub revoke_grants_where :
    Database
    → ℕ
    → GrantScope
    → Bytes
    → Bytes
    → AuditEvent
    → Ledger
    → Ledger × Except StoreError (List GrantRecord)
unfolding select update events_about affected_rows
revoke_grants_where db now by value reason actor l =
    if not db.reads
    then (l, err failed)
    else revoke_selected db now by value reason actor l (select (is_affected now by value) l.grants)
