-- ===== src/Storage/Ledger.antt =====
-- internal/storage/grants.go, sessions.go, audit.go: grants, operator sessions and the audit trail.
pub mod Grants
pub mod Sessions
pub mod Rows
pub mod Lasting
use secure_access_relay.Common.{
  ℕ, ◌*◌, ltb, not, ◌&&◌, Bool, true, false, if◌then◌else◌, Bytes, bytes_eq, List, [], ◌∷◌, ◌++◌,
  Option, none, some,
}
use secure_access_relay.Common.Except.{Except, ok, err}
use secure_access_relay.Proto.Grant.{is_empty, second}
use secure_access_relay.Storage.{
  Database, StoreError, failed, session_unknown, session_expired, session_revoked, grant_unknown,
  stored, stored_time, is_set,
}

pub record GrantRecord : Type 0 where
  pub grant_id : Bytes
  pub org_id : Bytes
  pub user_id : Bytes
  pub device_id : Bytes
  pub resource_id : Bytes
  pub policy_id : Bytes
  -- Empty for the NULL of the column.
  pub session_id : Bytes
  pub issued_at : ℕ
  pub expires_at : ℕ
  pub max_bytes : ℕ
  pub revoked_at : Option ℕ
  pub revoke_reason : Bytes

pub record SessionRecord : Type 0 where
  pub session_id : Bytes
  pub token_hash : Bytes
  pub user_id : Bytes
  pub created_at : ℕ
  pub expires_at : ℕ
  pub revoked_at : Option ℕ
  pub remote : Bytes

-- The time is `none` if it is left zero; the bytes and the duration of a stream are left out.
pub record AuditEvent : Type 0 where
  pub time : Option ℕ
  pub event : Bytes
  pub org_id : Bytes
  pub actor_role : Bytes
  pub actor_id : Bytes
  pub device_id : Bytes
  pub resource_id : Bytes
  pub grant_id : Bytes
  pub session_id : Bytes
  pub reason : Bytes
  pub detail : Bytes

-- The tables, each row by row. The last row of the trail is the newest.
pub record Ledger : Type 0 where
  pub grants : List GrantRecord
  pub sessions : List SessionRecord
  pub trail : List AuditEvent

unfoldable pub new_ledger : Ledger
new_ledger = record { grants = []; sessions = []; trail = [] }

-- SELECT of one row, and of all, and UPDATE, with their WHERE.
module _ {ℓ} {A : Type ℓ} where
  unfoldable pub first : (A → Bool) → List A → Option A
  first p [] = none
  first p (r ∷ rows) = if p r then some r else first p rows

  unfoldable pub select : (A → Bool) → List A → List A
  select p [] = []
  select p (r ∷ rows) = let rest = select p rows in if p r then r ∷ rest else rest

  unfoldable pub update : (A → Bool) → (A → A) → List A → List A
  update p f [] = []
  update p f (r ∷ rows) = (if p r then f r else r) ∷ update p f rows

  abbrev pub has : Option A → Bool
  has none = false
  has (some r) = true

-- `appendAudit`; the statement is refused for an event without a name.
abbrev pub stamped : ℕ → AuditEvent → AuditEvent
stamped now e = record e {
  time = elim e.time [ none ↦ some (stored now) | some t ↦ some (stored t) ];
}

unfoldable pub append_audit : Database → ℕ → AuditEvent → Ledger → Ledger × Option StoreError
append_audit db now e l =
    if is_empty e.event
    then (l, some failed)
    else if not db.writes
    then (l, some failed)
    else (record l { trail = l.trail ++ stamped now e ∷ [] }, none)

-- The commit of a transaction whose last statement is this event; without it nothing is changed.
unfoldable pub commit_with :
    Database → ℕ → AuditEvent → Ledger → Ledger → Ledger × Option StoreError
commit_with db now e before after =
    if is_empty e.event
    then (before, some failed)
    else if not db.writes
    then (before, some failed)
    else (record after { trail = after.trail ++ stamped now e ∷ [] }, none)

abbrev pub is_grant : Bytes → GrantRecord → Bool
is_grant grant_id r = bytes_eq r.grant_id grant_id

abbrev pub is_session : Bytes → SessionRecord → Bool
is_session session_id r = bytes_eq r.session_id session_id

-- What a transaction answers that was committed, or was not.
abbrev pub returned {ℓ} :
    {A : Type ℓ} → A → Ledger × Option StoreError → Ledger × Except StoreError A
returned a (l, none) = (l, ok a)
returned a (l, some e) = (l, err e)
