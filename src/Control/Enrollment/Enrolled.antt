-- ===== src/Control/Enrollment/Enrolled.antt =====
-- What an enrollment leaves behind (internal/control/enrollment/enrollment.go, internal/ca/ca.go).
use secure_access_relay.Common.{
  ℕ, true, false, Bytes, bytes_eq, bytes_eq_refl, [], ◌∷◌, Option, none, some, ◌≡◌, refl, ◌∙◌, ap,
  arith,
}
use secure_access_relay.Common.Except.{Except, ok, err}
use secure_access_relay.Common.Named.{Named}
use secure_access_relay.Proto.Grant.{is_empty}
use secure_access_relay.Storage.{Database, StoreError}
use secure_access_relay.Storage.Tokens.{Token, consume_token}
use secure_access_relay.Storage.Identities.{Record, put_record}
use secure_access_relay.Control.Enrollment.{
  Identity, identity_scheme, uri, Certificate, EnrollError, identities_in, identity_of,
  is_known_role, Csr, certify, sign_certificate, Control, enroll_with, after_consume, enroll,
}
use secure_access_relay.Control.Enrollment.Lifecycle.{active, status, enrolls, step, promised}
use secure_access_relay.Control.Enrollment.Lifecycle.Presents.{step-promised}

-- What a certificate was made from.
certify-uris :
    (csr : Csr) (id : Identity) (serial : Option Bytes) (c : Certificate)
    → certify csr id serial ≡ ok c
    → (c.uris ≡ uri id ∷ []) × (is_empty id.id ≡ false)
unfolding certify sign_certificate
certify-uris csr id none c h = ground arith
certify-uris csr id (some n) c h = ground arith

-- The identity that a certificate is read to have is the one it was made for.
pub identity_of-certify :
    (csr : Csr) (id : Identity) (serial : Option Bytes) (c : Certificate)
    → certify csr id serial ≡ ok c
    → is_known_role id.role ≡ true
    → identity_of c ≡ ok id
unfolding identity_of identities_in uri bytes_eq
identity_of-certify csr id serial c h k =
    let (u, e) = certify-uris csr id serial c h in rw (u, bytes_eq_refl identity_scheme, k, e) refl

-- An enrollment that succeeded: the token it spent, the certificate for the identity that the token
-- names, and that identity, which has this certificate and no other.
pub record IsEnrolled (hash_token : Bytes → Bytes) (db : Database) (checked_at consumed_at : ℕ)
    (token : Bytes) (c after : Control) (cert : Certificate) : Type 0 where
  pub row : Token
  pub consumed :
      consume_token hash_token db checked_at consumed_at token c.tokens ≡ (after.tokens, ok row)
  pub uris : cert.uris ≡ uri (record { role = row.role; id = row.id }) ∷ []
  pub holds : status after.identities row.role row.id ≡ active cert.serial none

abbrev new_record : ℕ → Identity → Certificate → Record
new_record now id cert = record {
  role = id.role;
  id = id.id;
  enrolled_at = now;
  serial_hex = cert.serial;
  revoked_at = none;
  pending_serial_hex = [];
  pending_issued_at = none;
}

-- The table after the record of a new identity was put.
status-enrolled :
    (db : Database) (now : ℕ) (id : Identity) (c : Control) (cert : Certificate)
    → db.writes ≡ true
    → status (enroll_with db now id c (ok cert)).0.identities id.role id.id
      ≡ active cert.serial none
unfolding step promised
status-enrolled db now id c cert w =
    step-promised (enrolls db (new_record now id cert)) c.identities id.role id.id
    ∙ rw (w, bytes_eq_refl id.role, bytes_eq_refl id.id) refl

-- A result is what was recorded, if it was.
enrolled-writes :
    (db : Database) (now : ℕ) (id : Identity) (c : Control) (cert cert' : Certificate)
    → (enroll_with db now id c (ok cert)).1 ≡ ok cert'
    → (db.writes ≡ true) × (cert ≡ cert')
unfolding put_record
enrolled-writes db now id c cert cert' h = ground arith

after_consume-IsEnrolled :
    (hash_token : Bytes → Bytes) (db db' : Database) (checked_at consumed_at now : ℕ)
    (token : Bytes) (csr : Csr) (serial : Option Bytes) (c : Control) (cert : Certificate)
    (r : Named Token × Except StoreError Token)
    → consume_token hash_token db checked_at consumed_at token c.tokens ≡ r
    → (after_consume db' now csr serial c r).1 ≡ ok cert
    → IsEnrolled hash_token db checked_at consumed_at token c
        (after_consume db' now csr serial c r).0
        cert
after_consume-IsEnrolled hash_token db db' checked_at consumed_at now token csr serial c cert
      (tokens, err e) q h =
    absurd (cc h)
after_consume-IsEnrolled hash_token db db' checked_at consumed_at now token csr serial c cert
      (tokens, ok t) q h =
    go (certify csr id serial) refl h
  where
    id : Identity
    id = record { role = t.role; id = t.id }

    go :
        (o : Except EnrollError Certificate)
        → certify csr id serial ≡ o
        → (enroll_with db' now id (record c { tokens = tokens }) o).1 ≡ ok cert
        → IsEnrolled hash_token db checked_at consumed_at token c
            (enroll_with db' now id (record c { tokens = tokens }) o).0
            cert
    go (err e) k l = absurd (cc l)
    go (ok made) k l =
        let (w, same) = enrolled-writes db' now id (record c { tokens = tokens }) made cert l in
        record {
          row = t;
          consumed = q;
          uris = rw same at ((certify-uris csr id serial made k).0);
          holds =
              status-enrolled db' now id (record c { tokens = tokens }) made w
              ∙ ap (λ z. active z.serial none) same;
        }

-- An enrollment that succeeds has spent its token and returns a certificate for the identity that the
-- token names, which is from then on the one certificate of that identity.
pub enroll-IsEnrolled :
    (hash_token : Bytes → Bytes) (db db' : Database) (checked_at consumed_at now : ℕ)
    (token : Bytes) (csr : Csr) (serial : Option Bytes) (c : Control) (cert : Certificate)
    → (enroll hash_token db db' checked_at consumed_at now token csr serial c).1 ≡ ok cert
    → IsEnrolled hash_token db checked_at consumed_at token c
        (enroll hash_token db db' checked_at consumed_at now token csr serial c).0
        cert
unfolding enroll
enroll-IsEnrolled hash_token db db' checked_at consumed_at now token csr serial c cert h =
    after_consume-IsEnrolled hash_token db db' checked_at consumed_at now token csr serial c cert _
      refl h
