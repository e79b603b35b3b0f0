-- ===== src/Control/Http/Enrolling.antt =====
-- internal/control/httpapi, `handleEnroll` and `handleRenew`: certificates, first and renewed.
pub mod Refused
use secure_access_relay.Common.{ℕ, Bool, Bytes, codes, List, [], ◌∷◌, ◌++◌, Option, none, some}
use secure_access_relay.Common.Except.{Except, ok, err}
use secure_access_relay.Storage.{
  Database, StoreError, token_unknown, token_consumed, token_expired, identity_revoked,
  not_enrolled,
}
use secure_access_relay.Storage.Identities.{Identities}
use secure_access_relay.Storage.Ledger.{AuditEvent}
use secure_access_relay.Control.Audit.{
  Occasion, record_event, refusal_event, enrolled_event, renewed_event, event_enroll_denied,
  event_renew_denied,
}
use secure_access_relay.Control.Enrollment.{
  Identity, Url, Certificate, Csr, Control, EnrollError, stores, invalid_csr, trim_slash, enroll,
  renew,
}
use secure_access_relay.Control.Http.{
  Server, Plane, Request, Refusal, refused, with_ledger, with_identities,
}

-- `enrollRequest`; a `renewRequest` has the certificate request alone.
pub record EnrollAsk : Type 0 where
  pub token : Bytes
  pub csr : Csr

-- What the stores, the clocks and the signing answer on the way; the last is the text that says until
-- when the new certificate is valid.
pub record Signing : Type 0 where
  pub first_db : Database
  pub then_db : Database
  pub checked_at : ℕ
  pub consumed_at : ℕ
  pub signed_at : ℕ
  pub serial : Option Bytes
  pub occasion : Occasion
  pub valid_until : Bytes

-- The identity that a certificate was made for.
abbrev pub subject_in : List Url → Identity
subject_in [] = record { role = []; id = [] }
subject_in (u ∷ uris) = record { role = u.host; id = trim_slash u.path }

abbrev pub recorded_for : Server → Signing → AuditEvent → Plane → Plane
recorded_for s v e p = with_ledger p (record_event s.auditing v.occasion e p.ledger)

abbrev pub origin : Bytes → Bytes → Bytes → Bytes
origin remote middle valid_until = codes "from " ++ (remote ++ (middle ++ valid_until))

module _ (s : Server) (v : Signing) (remote : Bytes) where
  -- Which token was refused, and why, is not told.
  abbrev pub enroll_refused : EnrollError → Plane → Plane × Except Refusal Certificate
  enroll_refused (stores token_unknown) p = (
    recorded_for s v (refusal_event event_enroll_denied remote (codes "token_refused")) p,
    refused 403 (codes "enrollment refused"),
  )
  enroll_refused (stores token_consumed) p = (
    recorded_for s v (refusal_event event_enroll_denied remote (codes "token_refused")) p,
    refused 403 (codes "enrollment refused"),
  )
  enroll_refused (stores token_expired) p = (
    recorded_for s v (refusal_event event_enroll_denied remote (codes "token_refused")) p,
    refused 403 (codes "enrollment refused"),
  )
  enroll_refused invalid_csr p = (
    recorded_for s v (refusal_event event_enroll_denied remote (codes "invalid_csr")) p,
    refused 400 (codes "invalid certificate request"),
  )
  enroll_refused _ p = (p, refused 500 (codes "enrollment failed"))

  abbrev pub enrolled :
      Plane → Control × Except EnrollError Certificate → Plane × Except Refusal Certificate
  enrolled p (c, err e) = enroll_refused e (record p { control = c })
  enrolled p (c, ok cert) =
      let id = subject_in cert.uris in
      (
        recorded_for s v
            (enrolled_event id.role id.id
              (origin remote (codes ", certificate valid until ") v.valid_until))
            (record p { control = c }),
        ok cert,
      )

  abbrev pub renew_refused : EnrollError → Plane → Plane × Except Refusal Certificate
  renew_refused (stores identity_revoked) p = (
    recorded_for s v (refusal_event event_renew_denied remote (codes "not_recognised")) p,
    refused 403 (codes "not recognised"),
  )
  renew_refused (stores not_enrolled) p = (
    recorded_for s v (refusal_event event_renew_denied remote (codes "not_recognised")) p,
    refused 403 (codes "not recognised"),
  )
  renew_refused invalid_csr p = (
    recorded_for s v (refusal_event event_renew_denied remote (codes "invalid_csr")) p,
    refused 400 (codes "invalid certificate request"),
  )
  renew_refused _ p = (p, refused 500 (codes "renewal failed"))

  abbrev pub renewed_by :
      Plane → Identities × Except EnrollError Certificate → Plane × Except Refusal Certificate
  renewed_by p (rows, err e) = renew_refused e (with_identities p rows)
  renewed_by p (rows, ok cert) =
      let id = subject_in cert.uris in
      (
        recorded_for s v
            (renewed_event id.role id.id (origin remote (codes ", valid until ") v.valid_until))
            (with_identities p rows),
        ok cert,
      )

-- `handleEnroll`; of the answer, the certificate.
unfoldable pub handle_enroll :
    (Bytes → Bytes)
    → Server
    → Signing
    → Request EnrollAsk
    → Plane
    → Plane × Except Refusal Certificate
unfolding enroll record_event enrolled_event
handle_enroll hash_token s v r p = elim r.body [
  | none ↦ (p, refused 400 (codes "malformed request"))
  | some ask ↦ enrolled s v r.remote p (
      enroll hash_token v.first_db v.then_db v.checked_at v.consumed_at v.signed_at ask.token
        ask.csr v.serial p.control)
]

abbrev pub renewed_with :
    Server
    → Signing
    → Request Csr
    → Plane
    → Certificate
    → Option Csr
    → Plane × Except Refusal Certificate
renewed_with s v r p cert none = (p, refused 400 (codes "malformed request"))
renewed_with s v r p cert (some csr) =
    renewed_by s v r.remote p
      (renew v.first_db v.then_db v.signed_at cert csr v.serial p.control.identities)

-- `handleRenew`; of the answer, the certificate.
unfoldable pub handle_renew :
    Server → Signing → Request Csr → Plane → Plane × Except Refusal Certificate
unfolding renew record_event renewed_event
handle_renew s v r p = elim r.certificate [
  | none ↦ (p, refused 401 (codes "a client certificate is required"))
  | some cert ↦ renewed_with s v r p cert r.body
]
