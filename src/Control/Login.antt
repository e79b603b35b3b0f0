-- ===== src/Control/Login.antt =====
-- internal/control/login/login.go: operator sessions, and what their end takes away.
pub mod Ended
use secure_access_relay.Common.{
  ℕ, ◌+◌, ◌*◌, ltb, not, ◌&&◌, Bool, true, false, if◌then◌else◌, Bytes, bytes_eq, codes, List, [],
  ◌∷◌, ◌++◌, Option, none, some,
}
use secure_access_relay.Common.Except.{Except, ok, err}
use secure_access_relay.Proto.Grant.{is_empty, second, truncate_second}
use secure_access_relay.Control.Policy.{Duration, nanoseconds, negative}
use secure_access_relay.Storage.{Database, StoreError, session_unknown, stored, is_set}
use secure_access_relay.Storage.Ledger.{GrantRecord, SessionRecord, AuditEvent, Ledger}
use secure_access_relay.Storage.Ledger.Grants.{scope_user, scope_session, revoke_grants_where}
use secure_access_relay.Storage.Ledger.Sessions.{
  create_session, lookup_session, lookup_session_by_id, revoke_session,
}

abbrev pub default_ttl : ℕ
default_ttl = 8 * 3600 * second

abbrev pub max_ttl : ℕ
max_ttl = 24 * 3600 * second

-- The lifetime that `New` keeps.
unfoldable pub session_ttl : Duration → ℕ
session_ttl (negative n) = default_ttl
session_ttl (nanoseconds n) =
    if not (ltb 0 n) then default_ttl else if ltb max_ttl n then max_ttl else n

unfoldable pub role_operator : Bytes
role_operator = codes "operator"

unfoldable pub role_admin : Bytes
role_admin = codes "admin"

unfoldable pub event_login : Bytes
event_login = codes "operator.login"

unfoldable pub event_logout : Bytes
event_logout = codes "operator.logout"

unfoldable pub event_session_ended : Bytes
event_session_ended = codes "operator.session_revoked"

unfoldable pub event_grant_revoked : Bytes
event_grant_revoked = codes "grant.revoked"

unfoldable pub reason_logout : Bytes
reason_logout = codes "logout"

pub data LoginError : Type 0 where
  no_identity no_random : LoginError
  stores : StoreError → LoginError

abbrev pub session_of : ℕ → ℕ → Bytes → Bytes → Bytes → Bytes → SessionRecord
session_of ttl now session_id token_hash user_id remote = record {
  session_id = session_id;
  token_hash = token_hash;
  user_id = user_id;
  created_at = truncate_second now;
  expires_at = truncate_second now + ttl;
  revoked_at = none;
  remote = remote;
}

abbrev pub login_event : SessionRecord → AuditEvent
login_event r = record {
  time = some r.created_at;
  event = event_login;
  org_id = [];
  actor_role = role_operator;
  actor_id = r.user_id;
  device_id = [];
  resource_id = [];
  grant_id = [];
  session_id = r.session_id;
  reason = [];
  detail = codes "from " ++ r.remote;
}

abbrev pub begun :
    SessionRecord → Ledger × Option StoreError → Ledger × Except LoginError SessionRecord
begun r (l, none) = (l, ok r)
begun r (l, some e) = (l, err (stores e))

module _ (hash_token : Bytes → Bytes) where
  abbrev pub with_random :
      Database
      → ℕ
      → ℕ
      → Bytes
      → Bytes
      → Ledger
      → Option (Bytes × Bytes)
      → Ledger × Except LoginError SessionRecord
  with_random db ttl now user_id remote l none = (l, err no_random)
  with_random db ttl now user_id remote l (some (token, session_id)) =
      let r = session_of ttl now session_id (hash_token token) user_id remote in
      begun r (create_session db now r (login_event r) l)

  -- `Begin`, with the token and the name that were drawn, if they were.
  unfoldable pub begin_session :
      Database
      → ℕ
      → ℕ
      → Bytes
      → Bytes
      → Option (Bytes × Bytes)
      → Ledger
      → Ledger × Except LoginError SessionRecord
  unfolding create_session
  begin_session db ttl now user_id remote drawn l =
      if is_empty user_id
      then (l, err no_identity)
      else with_random db ttl now user_id remote l drawn

  -- `Resolve`.
  unfoldable pub resolve : Database → ℕ → Bytes → Ledger → Except StoreError SessionRecord
  unfolding lookup_session
  resolve db now token l =
      if is_empty token then err session_unknown else lookup_session db now (hash_token token) l

abbrev pub event_for_reason : Bytes → Bytes
event_for_reason reason =
    if bytes_eq reason reason_logout then event_logout else event_session_ended

abbrev pub actor_role : Bytes → Bytes → Bytes
actor_role actor_id owner_id =
    if not (is_empty actor_id) && bytes_eq actor_id owner_id then role_operator else role_admin

abbrev pub event_by : Bytes → Bytes → Bytes → AuditEvent
event_by event role actor_id = record {
  time = none;
  event = event;
  org_id = [];
  actor_role = role;
  actor_id = actor_id;
  device_id = [];
  resource_id = [];
  grant_id = [];
  session_id = [];
  reason = [];
  detail = [];
}

-- The answers of the database to the two transactions of `End`, and the clock at each.
pub record Ending : Type 0 where
  pub first_db : Database
  pub ended_at : ℕ
  pub then_db : Database
  pub cut_at : ℕ

abbrev pub after_end :
    Ending
    → Bytes
    → Bytes
    → Bytes
    → Ledger × Except StoreError SessionRecord
    → Ledger × Except StoreError (List GrantRecord)
after_end w role actor_id reason (l, err e) = (l, err e)
after_end w role actor_id reason (l, ok r) =
    revoke_grants_where w.then_db w.cut_at scope_session r.session_id reason
      (event_by event_grant_revoked role actor_id) l

abbrev pub after_owner :
    Ending
    → Bytes
    → Bytes
    → Bytes
    → Ledger
    → Except StoreError SessionRecord
    → Ledger × Except StoreError (List GrantRecord)
after_owner w session_id actor_id reason l (err e) = (l, err e)
after_owner w session_id actor_id reason l (ok owner) =
    let role = actor_role actor_id owner.user_id in
    after_end w role actor_id reason (
      revoke_session w.first_db w.ended_at session_id reason
        (event_by (event_for_reason reason) role actor_id) l)

-- `End`.
unfoldable pub end_session :
    Database
    → Ending
    → Bytes
    → Bytes
    → Bytes
    → Ledger
    → Ledger × Except StoreError (List GrantRecord)
unfolding lookup_session_by_id revoke_session revoke_grants_where
end_session db w session_id actor_id reason l =
    after_owner w session_id actor_id reason l (lookup_session_by_id db session_id l)

-- `EndAllForUser`, for the sessions that `ActiveSessionsForUser` listed: they are ended one by one, and
-- the first error ends the loop.
abbrev pub collected :
    List GrantRecord
    → Ledger × Except StoreError (List GrantRecord)
    → Ledger × (List GrantRecord × Option StoreError)
collected all (l, ok rs) = (l, (all ++ rs, none))
collected all (l, err e) = (l, (all, some e))

abbrev pub unless_failed :
    (Ledger → List GrantRecord → Ledger × (List GrantRecord × Option StoreError))
    → Ledger × (List GrantRecord × Option StoreError)
    → Ledger × (List GrantRecord × Option StoreError)
unless_failed next (l, (all, none)) = next l all
unless_failed next (l, (all, some e)) = (l, (all, some e))

unfoldable pub end_each :
    Database
    → Ending
    → List (Ending × Bytes)
    → Bytes
    → Bytes
    → Bytes
    → Ledger
    → List GrantRecord
    → Ledger × (List GrantRecord × Option StoreError)
unfolding end_session revoke_grants_where
end_each db w [] user_id actor_id reason l all = collected all (
    revoke_grants_where w.then_db w.cut_at scope_user user_id reason
      (event_by event_grant_revoked role_admin actor_id) l)
end_each db w ((v, session_id) ∷ ids) user_id actor_id reason l all =
    unless_failed (λ l' all'. end_each db w ids user_id actor_id reason l' all')
      (collected all (end_session db v session_id actor_id reason l))
