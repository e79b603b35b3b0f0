-- ===== src/Control/Http/Logins.antt =====
-- internal/control/httpapi/login.go: operator sessions, and the streams that end with them.
pub mod Told
pub mod Opened
pub mod Closed
pub mod Reset
use secure_access_relay.Common.{
  ℕ, not, Bool, if◌then◌else◌, Bytes, bytes_eq, codes, length, List, [], ◌∷◌, ◌++◌, Option, none,
  some,
}
use secure_access_relay.Common.Except.{Except, ok, err}
use secure_access_relay.Storage.{Database, StoreError}
use secure_access_relay.Storage.Ledger.{GrantRecord, SessionRecord, Ledger}
use secure_access_relay.Control.Audit.{event_login_denied}
use secure_access_relay.Control.Enrollment.{Identity}
use secure_access_relay.Control.Login.{
  LoginError, Ending, begin_session, resolve, end_session, reason_logout,
}
use secure_access_relay.Control.Http.{
  Server, Plane, Request, Refusal, refused, Checks, with_ledger, bearer_token,
  authenticate_operator,
}

-- `loginResponse`, before its time is put in text.
pub record LoginAnswer : Type 0 where
  pub token : Bytes
  pub session_id : Bytes
  pub user_id : Bytes
  pub expires_at : ℕ

-- The store, the clock, and the token and the name that were drawn, if they were.
pub record Opening : Type 0 where
  pub begin_db : Database
  pub begun_at : ℕ
  pub drawn : Option (Bytes × Bytes)

abbrev pub token_of : Option (Bytes × Bytes) → Bytes
token_of none = []
token_of (some (token, session_id)) = token

abbrev pub logged_in :
    Bytes → Plane → Ledger × Except LoginError SessionRecord → Plane × Except Refusal LoginAnswer
logged_in token p (l, err e) = (with_ledger p l, refused 500 (codes "could not open a session"))
logged_in token p (l, ok rec) = (
  with_ledger p l,
  ok (record {
    token = token;
    session_id = rec.session_id;
    user_id = rec.user_id;
    expires_at = rec.expires_at;
  }),
)

module _ (hash_token : Bytes → Bytes) (s : Server) (w : Checks) where
  module _ (v : Opening) (r : Request (Unit {0})) where
    abbrev pub opened_by : ℕ → Plane × Except Refusal Identity → Plane × Except Refusal LoginAnswer
    opened_by ttl (p, err e) = (p, err e)
    opened_by ttl (p, ok id) =
        logged_in (token_of v.drawn) p
          (begin_session hash_token v.begin_db ttl v.begun_at id.id r.remote v.drawn p.ledger)

    abbrev pub with_lifetime : Plane → Option ℕ → Plane × Except Refusal LoginAnswer
    with_lifetime p none = (p, refused 501 (codes "sessions are not configured"))
    with_lifetime p (some ttl) = opened_by ttl (authenticate_operator s w event_login_denied r p)

    -- `handleLogin`, which does not look at the lifetime that is asked for.
    unfoldable pub handle_login : Plane → Plane × Except Refusal LoginAnswer
    unfolding authenticate_operator begin_session
    handle_login p = with_lifetime p s.session_lifetime

-- The identifiers that `dropRevoked` collects.
unfoldable pub grant_ids : List GrantRecord → List Bytes
grant_ids [] = []
grant_ids (g ∷ gs) = g.grant_id ∷ grant_ids gs

unfoldable pub drop_revoked : Server → List GrantRecord → Plane → Plane
unfolding grant_ids
drop_revoked s [] p = p
drop_revoked s (g ∷ gs) p =
    if not s.terminates
    then p
    else record p { terminated = p.terminated ++ grant_ids (g ∷ gs) ∷ [] }

-- `logoutResponse`.
pub record LogoutAnswer : Type 0 where
  pub session_id : Bytes
  pub grants_revoked : ℕ

abbrev pub logged_out :
    Server
    → Bytes
    → Plane
    → Ledger × Except StoreError (List GrantRecord)
    → Plane × Except Refusal LogoutAnswer
logged_out s session_id p (l, err e) =
    (with_ledger p l, refused 500 (codes "could not end the session"))
logged_out s session_id p (l, ok gs) = (
  drop_revoked s gs (with_ledger p l),
  ok (record { session_id = session_id; grants_revoked = length gs }),
)

-- A session that does not resolve is over already.
abbrev pub ended_by :
    Server
    → Database
    → Ending
    → Identity
    → Plane
    → Except StoreError SessionRecord
    → Plane × Except Refusal LogoutAnswer
ended_by s db e id p (err x) = (p, ok (record { session_id = []; grants_revoked = 0 }))
ended_by s db e id p (ok rec) =
    if not (bytes_eq rec.user_id id.id)
    then (p, refused 403 (codes "not your session"))
    else logged_out s rec.session_id p
        (end_session db e rec.session_id id.id reason_logout p.ledger)

module _ (hash_token : Bytes → Bytes) (s : Server) (w : Checks) (db : Database) (e : Ending)
    (r : Request (Unit {0})) where
  abbrev pub for_caller : Plane × Except Refusal Identity → Plane × Except Refusal LogoutAnswer
  for_caller (p, err x) = (p, err x)
  for_caller (p, ok id) =
      ended_by s db e id p
        (resolve hash_token w.resolve_db w.resolved_at (bearer_token r.authorization) p.ledger)

  abbrev pub with_sessions : Plane → Option ℕ → Plane × Except Refusal LogoutAnswer
  with_sessions p none = (p, refused 501 (codes "sessions are not configured"))
  with_sessions p (some ttl) = for_caller (authenticate_operator s w [] r p)

  -- `handleLogout`.
  unfoldable pub handle_logout : Plane → Plane × Except Refusal LogoutAnswer
  unfolding authenticate_operator resolve end_session reason_logout drop_revoked
  handle_logout p = with_sessions p s.session_lifetime
