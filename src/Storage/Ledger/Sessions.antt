-- ===== src/Storage/Ledger/Sessions.antt =====
-- internal/storage/sessions.go: operator sessions, which are found by the hash of their token.
use secure_access_relay.Common.{
  ℕ, ltb, not, ◌&&◌, Bool, if◌then◌else◌, Bytes, bytes_eq, [], ◌∷◌, ◌++◌, Option, none, some,
}
use secure_access_relay.Common.Except.{Except, ok, err}
use secure_access_relay.Storage.{
  Database, StoreError, failed, session_unknown, session_expired, session_revoked, stored, is_set,
}
use secure_access_relay.Storage.Ledger.{
  SessionRecord, AuditEvent, Ledger, first, update, has, commit_with, is_session, returned,
}

abbrev pub has_token : Bytes → SessionRecord → Bool
has_token hash r = bytes_eq r.token_hash hash

-- `CreateSession`: the INSERT fails on an id or a token that is there.
unfoldable pub create_session :
    Database → ℕ → SessionRecord → AuditEvent → Ledger → Ledger × Option StoreError
unfolding first commit_with
create_session db now r e l =
    if has (first (is_session r.session_id) l.sessions)
    then (l, some failed)
    else if has (first (has_token r.token_hash) l.sessions)
    then (l, some failed)
    else commit_with db now e l (record l {
      sessions =
          l.sessions
          ++ record r {
            created_at = stored r.created_at;
            expires_at = stored r.expires_at;
            revoked_at = none;
          }
            ∷ [];
    })

-- A session that is over is returned with the error in the code; here the error alone is.
abbrev pub usable_session : ℕ → Option SessionRecord → Except StoreError SessionRecord
usable_session now none = err session_unknown
usable_session now (some r) =
    if is_set r.revoked_at
    then err session_revoked
    else if ltb r.expires_at now
    then err session_expired
    else ok r

-- `LookupSession`, for the hash of a token.
unfoldable pub lookup_session : Database → ℕ → Bytes → Ledger → Except StoreError SessionRecord
unfolding first
lookup_session db now hash l =
    if not db.reads then err failed else usable_session now (first (has_token hash) l.sessions)

abbrev pub read_session : Option SessionRecord → Except StoreError SessionRecord
read_session none = err session_unknown
read_session (some r) = ok r

unfoldable pub lookup_session_by_id : Database → Bytes → Ledger → Except StoreError SessionRecord
unfolding first
lookup_session_by_id db session_id l =
    if not db.reads then err failed else read_session (first (is_session session_id) l.sessions)

abbrev pub revoke_read_session :
    Database
    → ℕ
    → Bytes
    → Bytes
    → AuditEvent
    → Ledger
    → Except StoreError SessionRecord
    → Ledger × Except StoreError SessionRecord
revoke_read_session db now session_id reason actor l (err e) = (l, err e)
revoke_read_session db now session_id reason actor l (ok r) =
    if is_set r.revoked_at
    then (l, ok r)
    else returned (record r { revoked_at = some now })
        (commit_with db now (record actor { session_id = r.session_id; reason = reason }) l
          (record l {
            sessions =
                update (λ s. is_session session_id s && not (is_set s.revoked_at))
                  (λ s. record s { revoked_at = some (stored now) }) l.sessions;
          }))

unfoldable pub revoke_session :
    Database → ℕ → Bytes → Bytes → AuditEvent → Ledger → Ledger × Except StoreError SessionRecord
unfolding lookup_session_by_id update commit_with
revoke_session db now session_id reason actor l =
    revoke_read_session db now session_id reason actor l (lookup_session_by_id db session_id l)
