-- ===== src/Control/Http/Callers.antt =====
-- Whom the control plane takes for the caller (internal/control/httpapi/login.go).
use secure_access_relay.Common.{
  ℕ, ◌≤◌, true, false, Bool-cases, Bytes, bytes_eq, bytes_eq→eq, Option, none, some, ◌≡◌, refl, inl,
  inr, arith,
}
use secure_access_relay.Common.Except.{Except, ok, err, ok_injective}
use secure_access_relay.Proto.Grant.{is_empty}
use secure_access_relay.Storage.{Database, StoreError, is_set}
use secure_access_relay.Storage.Identities.{Identities}
use secure_access_relay.Storage.Ledger.{SessionRecord, Ledger, first}
use secure_access_relay.Storage.Ledger.Sessions.{has_token, usable_session, lookup_session}
use secure_access_relay.Control.Enrollment.{
  Identity, Certificate, EnrollError, role_operator, verify_enrolled,
}
use secure_access_relay.Control.Enrollment.Lifecycle.Retired.{
  IsAccepted, verify_enrolled-IsAccepted,
}
use secure_access_relay.Control.Login.{resolve}
use secure_access_relay.Control.Http.{
  Server, Plane, Request, Checks, with_identities, must_be_operator, with_certificate,
  authenticate_operator, own_session, require_session,
}

-- The caller has shown an accepted certificate of this operator, and nothing else has changed but the
-- promotion of a renewed certificate.
pub record IsOperator (db : Database) (shown : Option Certificate) (p p' : Plane) (id : Identity)
    : Type 0 where
  pub certificate : Certificate
  pub presented : shown ≡ some certificate
  pub accepted : IsAccepted db certificate p.control.identities id
  pub role : id.role ≡ role_operator
  pub rows : Identities
  pub promoted : p' ≡ with_identities p rows

module _ (s : Server) (w : Checks) (event remote : Bytes) (p : Plane) (id : Identity) where
  must_be_operator-ok :
      (x : Identities × Except EnrollError Identity)
      → (must_be_operator s w event remote p x).1 ≡ ok id
      → (x.1 ≡ ok id)
        × (bytes_eq id.role role_operator ≡ true)
        × ((must_be_operator s w event remote p x).0 ≡ with_identities p x.0)
  must_be_operator-ok (rows, err e) h = absurd (cc h)
  must_be_operator-ok (rows, ok i) h = elim (Bool-cases (bytes_eq i.role role_operator)) [
    | inr n ↦ absurd (cc (rw n at h))
    | inl y ↦ let same : i ≡ id = ok_injective (rw y at h) in (rw same refl, rw⁻¹ same y, rw y refl)
  ]

  with_certificate-IsOperator :
      (shown : Option Certificate)
      → (with_certificate s w event remote p shown).1 ≡ ok id
      → IsOperator w.verify_db shown p (with_certificate s w event remote p shown).0 id
  with_certificate-IsOperator none h = absurd (cc h)
  with_certificate-IsOperator (some cert) h =
      let x = verify_enrolled w.verify_db cert p.control.identities in
      let (verified, role, changed) = must_be_operator-ok x h in
      record {
        certificate = cert;
        presented = refl;
        accepted = verify_enrolled-IsAccepted w.verify_db cert p.control.identities id verified;
        role = bytes_eq→eq id.role role_operator role;
        rows = x.0;
        promoted = changed;
      }

pub authenticate_operator-IsOperator :
    {B : Type 0} (s : Server) (w : Checks) (event : Bytes) (r : Request B) (p : Plane)
    (id : Identity)
    → (authenticate_operator s w event r p).1 ≡ ok id
    → IsOperator w.verify_db r.certificate p (authenticate_operator s w event r p).0 id
unfolding authenticate_operator
authenticate_operator-IsOperator s w event r p id h =
    with_certificate-IsOperator s w event r.remote p id r.certificate h

-- A session that is stored under the hash of this token, has not been ended, has not run out, and
-- belongs to the user.
pub record IsOwn (hash_token : Bytes → Bytes) (at : ℕ) (token user_id session_id : Bytes)
    (l : Ledger) : Type 0 where
  pub row : SessionRecord
  pub found : first (has_token (hash_token token)) l.sessions ≡ some row
  pub named : row.session_id ≡ session_id
  pub user : row.user_id ≡ user_id
  pub live : row.revoked_at ≡ none
  pub in_time : at ≤ row.expires_at
  pub shown : is_empty token ≡ false

is_set-none : (o : Option ℕ) → is_set o ≡ false → o ≡ none
is_set-none none h = refl
is_set-none (some t) h = absurd (cc h)

pub usable_session-ok :
    (now : ℕ) (o : Option SessionRecord) (rec : SessionRecord)
    → usable_session now o ≡ ok rec
    → (o ≡ some rec) × (rec.revoked_at ≡ none) × (now ≤ rec.expires_at)
usable_session-ok now none rec h = absurd (cc h)
usable_session-ok now (some r) rec h = ground (arith, is_set-none r.revoked_at)

pub own_session-ok :
    (id : Identity) (o : Except StoreError SessionRecord) (rec : SessionRecord)
    → own_session id o ≡ ok rec
    → (o ≡ ok rec) × (rec.user_id ≡ id.id)
own_session-ok id (ok r) rec h = ground (arith, bytes_eq→eq r.user_id id.id)
own_session-ok id (err e) rec h = ground arith

pub resolve-ok :
    (hash_token : Bytes → Bytes) (db : Database) (now : ℕ) (token : Bytes) (l : Ledger)
    (rec : SessionRecord)
    → resolve hash_token db now token l ≡ ok rec
    → IsOwn hash_token now token rec.user_id rec.session_id l
unfolding resolve lookup_session
resolve-ok hash_token db now token l rec h = elim (Bool-cases (is_empty token)) [
  | inl e ↦ absurd (cc (rw e at h))
  | inr e ↦ elim (Bool-cases db.reads) [
    | inr f ↦ absurd (cc (rw (e, f) at h))
    | inl f ↦
        let (found, live, in_time) = usable_session-ok now _ rec (rw (e, f) at h) in
        record {
          row = rec;
          found = found;
          named = refl;
          user = refl;
          live = live;
          in_time = in_time;
          shown = e;
        }
  ]
]

pub require_session-IsOwn :
    (hash_token : Bytes → Bytes) (w : Checks) (token : Bytes) (id : Identity) (l : Ledger)
    (rec : SessionRecord)
    → require_session hash_token w token id l ≡ ok rec
    → IsOwn hash_token w.resolved_at token id.id rec.session_id l
unfolding require_session resolve
require_session-IsOwn hash_token w token id l rec h = elim (Bool-cases (is_empty token)) [
  | inl e ↦ absurd (cc (rw e at h))
  | inr e ↦
      let (resolved, same) = own_session-ok id _ rec (rw e at h) in
      rw⁻¹ same (resolve-ok hash_token w.resolve_db w.resolved_at token l rec (rw e resolved))
]
