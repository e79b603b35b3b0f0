-- ===== src/Control/Enrollment.antt =====
-- internal/control/enrollment, internal/ca: certificates, and the identities they stand for.
pub mod Lifecycle
pub mod Enrolled
use secure_access_relay.Common.{
  ℕ, ◌+◌, not, ◌||◌, ◌&&◌, Bool, true, false, if◌then◌else◌, Bytes, bytes_eq, codes, List, [], ◌∷◌,
  Option, none, some,
}
use secure_access_relay.Common.Except.{Except, ok, err}
use secure_access_relay.Common.Named.{Named}
use secure_access_relay.Proto.Grant.{is_empty}
use secure_access_relay.Storage.{Database, StoreError, not_enrolled}
use secure_access_relay.Storage.Tokens.{Token, consume_token, put_token}
use secure_access_relay.Storage.Identities.{
  Record, Identities, put_record, lookup_identity, put_pending_serial, promote_serial,
}

pub record Identity : Type 0 where
  pub role : Bytes
  pub id : Bytes

-- The parts of a `url.URL` that name an identity.
pub record Url : Type 0 where
  pub scheme : Bytes
  pub host : Bytes
  pub path : Bytes

-- What is read of an `x509.Certificate`; the serial is its text in base 16.
pub record Certificate : Type 0 where
  pub uris : List Url
  pub serial : Bytes

unfoldable pub role_device : Bytes
role_device = codes "device"

unfoldable pub role_operator : Bytes
role_operator = codes "operator"

unfoldable pub identity_scheme : Bytes
identity_scheme = codes "sar"

abbrev pub slash : ℕ
slash = 47

unfoldable pub uri : Identity → Url
uri i = record { scheme = identity_scheme; host = i.role; path = slash ∷ i.id }

-- `strings.TrimPrefix(path, "/")`.
abbrev pub trim_slash : Bytes → Bytes
trim_slash [] = []
trim_slash (c ∷ path) = if bytes_eq (c ∷ []) (slash ∷ []) then path else c ∷ path

abbrev pub is_known_role : Bytes → Bool
is_known_role role = bytes_eq role role_device || bytes_eq role role_operator

-- The loop of `IdentityOf`.
unfoldable pub identities_in : List Url → List Identity
identities_in [] = []
identities_in (u ∷ uris) =
    let found = identities_in uris in
    if not (bytes_eq u.scheme identity_scheme)
    then found
    else if not (is_known_role u.host)
    then found
    else if is_empty (trim_slash u.path)
    then found
    else record { role = u.host; id = trim_slash u.path } ∷ found

pub data EnrollError : Type 0 where
  stores : StoreError → EnrollError
  no_identity invalid_csr not_signed : EnrollError

abbrev pub only : List Identity → Except EnrollError Identity
only (i ∷ []) = ok i
only _ = err no_identity

-- `IdentityOf`.
unfoldable pub identity_of : Certificate → Except EnrollError Identity
unfolding identities_in
identity_of c = only (identities_in c.uris)

-- A certificate request, as crypto/x509 reads it.
pub record Csr : Type 0 where
  pub is_well_formed : Bool
  pub signature_good : Bool
  pub is_ed25519 : Bool

-- `Sign`; a serial is `none` if no random number was had or the certificate could not be made.
unfoldable pub sign_certificate : Csr → Identity → Option Bytes → Except EnrollError Certificate
unfolding uri
sign_certificate csr id serial =
    if not csr.signature_good
    then err not_signed
    else if not csr.is_ed25519
    then err not_signed
    else if is_empty id.id
    then err not_signed
    else elim serial [
      | none ↦ err not_signed
      | some n ↦ ok (record { uris = uri id ∷ []; serial = n })
    ]

-- `parseCSR`, then `Sign`.
unfoldable pub certify : Csr → Identity → Option Bytes → Except EnrollError Certificate
unfolding sign_certificate
certify csr id serial =
    if not csr.is_well_formed then err invalid_csr else sign_certificate csr id serial

-- The parts of the store that enrollment uses.
pub record Control : Type 0 where
  pub tokens : Named Token
  pub identities : Identities

-- What the code before and the code after a call make of its error.
abbrev pub result {ℓ} : {A : Type ℓ} → A → Option StoreError → Except EnrollError A
result a none = ok a
result a (some e) = err (stores e)

abbrev pub enroll_with :
    Database
    → ℕ
    → Identity
    → Control
    → Except EnrollError Certificate
    → Control × Except EnrollError Certificate
enroll_with db now id c (err e) = (c, err e)
enroll_with db now id c (ok cert) =
    let (rows, e) =
      put_record db
        (record {
          role = id.role;
          id = id.id;
          enrolled_at = now;
          serial_hex = cert.serial;
          revoked_at = none;
          pending_serial_hex = [];
          pending_issued_at = none;
        })
        c.identities in
    (record c { identities = rows }, result cert e)

abbrev pub after_consume :
    Database
    → ℕ
    → Csr
    → Option Bytes
    → Control
    → Named Token × Except StoreError Token
    → Control × Except EnrollError Certificate
after_consume db now csr serial c (tokens, err e) = (record c { tokens = tokens }, err (stores e))
after_consume db now csr serial c (tokens, ok t) =
    let id : Identity = record { role = t.role; id = t.id } in
    enroll_with db now id (record c { tokens = tokens }) (certify csr id serial)

-- `Enroll`, with the answers of the database to its two calls and its three readings of the clock.
-- The token is spent before anything else can fail.
unfoldable pub enroll :
    (Bytes → Bytes)
    → Database
    → Database
    → ℕ
    → ℕ
    → ℕ
    → Bytes
    → Csr
    → Option Bytes
    → Control
    → Control × Except EnrollError Certificate
unfolding consume_token certify put_record
enroll hash_token db db' checked_at consumed_at now token csr serial c =
    after_consume db' now csr serial c
      (consume_token hash_token db checked_at consumed_at token c.tokens)

-- The certificate that is presented is the current one, or the renewed one, which is then promoted.
abbrev pub present :
    Database
    → Identity
    → Bytes
    → Identities
    → Except StoreError Record
    → Identities × Except EnrollError Identity
present db id serial rows (err e) = (rows, err (stores e))
present db id serial rows (ok r) =
    if bytes_eq r.serial_hex serial
    then (rows, ok id)
    else if not (is_empty r.pending_serial_hex) && bytes_eq r.pending_serial_hex serial
    then (let (rows', e) = promote_serial db id.role id.id serial rows in (rows', result id e))
    else (rows, err (stores not_enrolled))

abbrev pub verify_identity :
    Database
    → Bytes
    → Identities
    → Except EnrollError Identity
    → Identities × Except EnrollError Identity
verify_identity db serial rows (err e) = (rows, err e)
verify_identity db serial rows (ok id) =
    present db id serial rows (lookup_identity db id.role id.id rows)

-- `VerifyEnrolled`.
unfoldable pub verify_enrolled :
    Database → Certificate → Identities → Identities × Except EnrollError Identity
unfolding lookup_identity promote_serial identity_of
verify_enrolled db cert rows = verify_identity db cert.serial rows (identity_of cert)

abbrev pub record_renewal :
    Database
    → ℕ
    → Identity
    → Identities
    → Except EnrollError Certificate
    → Identities × Except EnrollError Certificate
record_renewal db now id rows (err e) = (rows, err e)
record_renewal db now id rows (ok cert) =
    let (rows', e) = put_pending_serial db now id.role id.id cert.serial rows in
    (rows', result cert e)

abbrev pub after_present :
    Database
    → ℕ
    → Csr
    → Option Bytes
    → Identities × Except EnrollError Identity
    → Identities × Except EnrollError Certificate
after_present db now csr serial (rows, err e) = (rows, err e)
after_present db now csr serial (rows, ok id) =
    record_renewal db now id rows (certify csr id serial)

-- `Renew`.
unfoldable pub renew :
    Database
    → Database
    → ℕ
    → Certificate
    → Csr
    → Option Bytes
    → Identities
    → Identities × Except EnrollError Certificate
unfolding verify_enrolled certify put_pending_serial
renew db db' now cert csr serial rows =
    after_present db' now csr serial (verify_enrolled db cert rows)
