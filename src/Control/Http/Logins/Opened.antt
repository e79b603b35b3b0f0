-- ===== src/Control/Http/Logins/Opened.antt =====
-- The session that a login opens is the one its token resolves to
-- (internal/control/httpapi/login.go).
use secure_access_relay.Common.{
  ℕ, ◌≤◌, leb, true, false, Bool-cases, Bytes, bytes_eq_refl, length, [], ◌∷◌, ◌++◌, Option, none,
  some, ◌≡◌, refl, sym, ◌∙◌, ap, inl, inr, arith, ltb, le→ltb, bytes_eq,
}
use secure_access_relay.Common.Except.{Except, ok, err, ok_injective}
use secure_access_relay.Common.Text.{trim_space, equal_fold}
use secure_access_relay.Proto.Grant.{is_empty}
use secure_access_relay.Storage.{Database, StoreError, stored}
use secure_access_relay.Storage.Ledger.{SessionRecord, AuditEvent, Ledger, first, has, is_session}
use secure_access_relay.Storage.Ledger.Rows.{commit_with-none, has-none, first-added}
use secure_access_relay.Storage.Ledger.Sessions.{has_token, create_session, lookup_session}
use secure_access_relay.Control.Enrollment.{Identity, Certificate}
use secure_access_relay.Control.Login.{
  LoginError, session_of, login_event, begun, with_random, begin_session, resolve,
}
use secure_access_relay.Control.Audit.{event_login_denied}
use secure_access_relay.Control.Http.{
  Server, Plane, Request, Refusal, Checks, bearer_prefix, bearer_token, authenticate_operator,
  require_session,
}
use secure_access_relay.Control.Http.Callers.{IsOperator, authenticate_operator-IsOperator}
use secure_access_relay.Control.Http.Logins.{
  LoginAnswer, Opening, token_of, logged_in, opened_by, with_lifetime, handle_login,
}

-- The row that a new session has in the table.
abbrev pub session_row : SessionRecord → SessionRecord
session_row r = record r {
  created_at = stored r.created_at;
  expires_at = stored r.expires_at;
  revoked_at = none;
}

create_session-found :
    (db : Database) (now : ℕ) (r : SessionRecord) (e : AuditEvent) (l : Ledger)
    → (create_session db now r e l).1 ≡ none
    → first (has_token r.token_hash) (create_session db now r e l).0.sessions ≡ some (session_row r)
unfolding create_session
create_session-found db now r e l h =
    elim (Bool-cases (has (first (is_session r.session_id) l.sessions))) [
      | inl k ↦ absurd (cc (rw k at h))
      | inr k ↦ elim (Bool-cases (has (first (has_token r.token_hash) l.sessions))) [
        | inl j ↦ absurd (cc (rw (k, j) at h))
        | inr j ↦
            let kept = (commit_with-none db now e l _ (rw (k, j) at h)).1 in
            rw (k, j, kept)
              (first-added (has_token r.token_hash) l.sessions (session_row r) (has-none _ j)
                (bytes_eq_refl r.token_hash))
      ]
    ]

-- A session that has begun: it is the user's, and it is found by its token's hash.
pub record IsBegun (hash_token : Bytes → Bytes) (user_id token : Bytes) (rec : SessionRecord)
    (l : Ledger) : Type 0 where
  pub user : rec.user_id ≡ user_id
  pub fresh : rec.revoked_at ≡ none
  pub found : first (has_token (hash_token token)) l.sessions ≡ some (session_row rec)

begun-none :
    (r rec : SessionRecord) (x : Ledger × Option StoreError)
    → (begun r x).1 ≡ ok rec
    → (x.1 ≡ none) × ((begun r x).0 ≡ x.0) × (r ≡ rec)
begun-none r rec (l, none) h = (refl, refl, ok_injective h)
begun-none r rec (l, some e) h = absurd (cc h)

module _ (hash_token : Bytes → Bytes) (db : Database) (ttl now : ℕ) (user_id remote : Bytes)
    (l : Ledger) (rec : SessionRecord) where
  with_random-IsBegun :
      (drawn : Option (Bytes × Bytes))
      → (with_random hash_token db ttl now user_id remote l drawn).1 ≡ ok rec
      → IsBegun hash_token user_id
          (token_of drawn)
          rec
          (with_random hash_token db ttl now user_id remote l drawn).0
  with_random-IsBegun none h = absurd (cc h)
  with_random-IsBegun (some (token, session_id)) h =
      let r = session_of ttl now session_id (hash_token token) user_id remote in
      let (done, kept, same) = begun-none r rec (create_session db now r (login_event r) l) h in
      rw (kept, sym same)
        (record {
          user = refl;
          fresh = refl;
          found = create_session-found db now r (login_event r) l done;
        })

  begin_session-IsBegun :
      (drawn : Option (Bytes × Bytes))
      → (begin_session hash_token db ttl now user_id remote drawn l).1 ≡ ok rec
      → IsBegun hash_token user_id
          (token_of drawn)
          rec
          (begin_session hash_token db ttl now user_id remote drawn l).0
  unfolding begin_session
  begin_session-IsBegun drawn h = elim (Bool-cases (is_empty user_id)) [
    | inl e ↦ absurd (cc (rw e at h))
    | inr e ↦ rw e (with_random-IsBegun drawn (rw e at h))
  ]

-- A login that was answered: the caller is an operator, and the session is the operator's own, stored
-- under the hash of the token.
pub record IsOpened (hash_token : Bytes → Bytes) (db : Database) (shown : Option Certificate)
    (p p' : Plane) (a : LoginAnswer) : Type 0 where
  pub operator : Identity
  pub known : Plane
  pub authenticated : IsOperator db shown p known operator
  pub user : a.user_id ≡ operator.id
  pub rec : SessionRecord
  pub begun : IsBegun hash_token operator.id a.token rec p'.ledger
  pub named : rec.session_id ≡ a.session_id
  pub until : rec.expires_at ≡ a.expires_at

module _ (hash_token : Bytes → Bytes) (s : Server) (w : Checks) (v : Opening)
    (r : Request (Unit {0})) (p : Plane) (a : LoginAnswer) where
  opened_by-IsOpened :
      (ttl : ℕ) (x : Plane × Except Refusal Identity)
      → ((id : Identity) → x.1 ≡ ok id → IsOperator w.verify_db r.certificate p x.0 id)
      → (opened_by hash_token s w v r ttl x).1 ≡ ok a
      → IsOpened hash_token w.verify_db r.certificate p (opened_by hash_token s w v r ttl x).0 a
  opened_by-IsOpened ttl (known, err e) f h = absurd (cc h)
  opened_by-IsOpened ttl (known, ok id) f h = go _ refl h
    where
      made : Ledger × Except LoginError SessionRecord
      made = begin_session hash_token v.begin_db ttl v.begun_at id.id r.remote v.drawn known.ledger

      go :
          (y : Ledger × Except LoginError SessionRecord)
          → made ≡ y
          → (logged_in (token_of v.drawn) known y).1 ≡ ok a
          → IsOpened hash_token w.verify_db r.certificate p
              (logged_in (token_of v.drawn) known y).0
              a
      go (l, err e) q h = absurd (cc h)
      go (l, ok rec) q h =
          let b =
            begin_session-IsBegun hash_token v.begin_db ttl v.begun_at id.id r.remote known.ledger
              rec v.drawn (ap (λ z. z.1) q) in
          rw⁻¹ (ok_injective h) (record {
            operator = id;
            known = known;
            authenticated = f id refl;
            user = b.user;
            rec = rec;
            begun = rw (ap (λ z. z.0) q) at b;
            named = refl;
            until = refl;
          })

  pub handle_login-IsOpened :
      (handle_login hash_token s w v r p).1 ≡ ok a
      → IsOpened hash_token w.verify_db r.certificate p (handle_login hash_token s w v r p).0 a
  unfolding handle_login
  handle_login-IsOpened = go s.session_lifetime
    where
      go :
          (o : Option ℕ)
          → (with_lifetime hash_token s w v r p o).1 ≡ ok a
          → IsOpened hash_token w.verify_db r.certificate p
              (with_lifetime hash_token s w v r p o).0
              a
      go none h = absurd (cc h)
      go (some ttl) h =
          opened_by-IsOpened ttl (authenticate_operator s w event_login_denied r p)
            (authenticate_operator-IsOperator s w event_login_denied r p) h

-- The token of a header is read back.
bearer_token-prefix :
    (t : Bytes) → is_empty t ≡ false → trim_space t ≡ t → bearer_token (bearer_prefix ++ t) ≡ t
unfolding bearer_token bearer_prefix equal_fold
bearer_token-prefix [] e h = absurd (cc e)
bearer_token-prefix (c ∷ t) e h =
    let long : leb (length (bearer_prefix ++ c ∷ t)) 7 ≡ false = ground arith in rw long h

-- The session that a login opened is what its token stands for, for its operator, until it runs out.
pub require_session-handle_login :
    (hash_token : Bytes → Bytes) (s : Server) (w w' : Checks) (v : Opening) (r : Request (Unit {0}))
    (p : Plane) (a : LoginAnswer) (caller : Identity)
    → (handle_login hash_token s w v r p).1 ≡ ok a
    → is_empty a.token ≡ false
    → trim_space a.token ≡ a.token
    → caller.id ≡ a.user_id
    → w'.resolve_db.reads ≡ true
    → w'.resolved_at ≤ stored a.expires_at
    → (x : SessionRecord) × (require_session hash_token w'
          (bearer_token (bearer_prefix ++ a.token))
          caller
          (handle_login hash_token s w v r p).0.ledger
        ≡ ok x)
      × (x.session_id ≡ a.session_id)
      × (x.user_id ≡ a.user_id)
unfolding require_session resolve lookup_session
require_session-handle_login hash_token s w w' v r p a caller h e t same reads in_time =
    let o = handle_login-IsOpened hash_token s w v r p a h in
    let user : o.rec.user_id ≡ caller.id = o.begun.user ∙ sym o.user ∙ sym same in
    let own : bytes_eq o.rec.user_id caller.id ≡ true = rw user (bytes_eq_refl caller.id) in
    let late : ltb (stored o.rec.expires_at) w'.resolved_at ≡ false =
      le→ltb _ _ (rw (sym o.until) at in_time) in
    (
      session_row o.rec,
      rw (bearer_token-prefix a.token e t, e, reads, o.begun.found, late, own) refl,
      o.named,
      o.begun.user ∙ sym o.user,
    )
