-- ===== src/Control/Enrollment/Lifecycle/Presents.antt =====
-- A certificate that is presented does what the life cycle promises (`VerifyEnrolled`).
use secure_access_relay.Common.{
  not, ◌&&◌, Bool, true, false, Bool-cases, if_intro, Bytes, bytes_eq, bytes_eq→eq, bytes_eq_refl,
  List, [], ◌∷◌, Option, none, some, ◌≡◌, refl, ◌∙◌, ap, inl, inr,
}
use secure_access_relay.Common.Except.{Except, ok, err}
use secure_access_relay.Proto.Grant.{is_empty}
use secure_access_relay.Storage.{
  Database, StoreError, failed, identity_revoked, not_enrolled, is_set,
}
use secure_access_relay.Storage.Identities.{
  Record, Identities, lookup_any, lookup_identity, found_row, not_revoked, promote_serial,
  unrevoked,
}
use secure_access_relay.Control.Enrollment.{
  Identity, Certificate, EnrollError, identity_of, verify_enrolled, present, verify_identity,
}
use secure_access_relay.Control.Enrollment.Lifecycle.{
  Status, active, renewal, is_pending, presented, status, Event, enrolls, renews, presents, revokes,
  step, for_one, presented_by, promised, run, promised_by,
}
use secure_access_relay.Control.Enrollment.Lifecycle.Writes.{
  and_right, written, unwritten, when_works, enrolls-promised, row-cases, status-live,
  status_of-live, renews-promised, revokes-promised, no_row, revoked_row, live_row,
}

-- Nothing is written where nothing is to change, whether the database works or not.
idle :
    (works : Bool) (role id role' id' : Bytes) (rows : Identities) (f : Status → Status)
    → status rows role id ≡ f (status rows role id)
    → status rows role' id' ≡ for_one works role id role' id' f (status rows role' id')
idle true role id role' id' rows f e = unwritten role id role' id' rows f e
idle false role id role' id' rows f e = refl

pub is_pending-renewal :
    (p serial : Bytes) → is_pending serial (renewal p) ≡ (not (is_empty p) && bytes_eq p serial)
is_pending-renewal [] serial = refl
is_pending-renewal (x ∷ p) serial = refl

-- What `Lookup` answers, by the row.
pub lookup_identity-unread :
    (db : Database) (role id : Bytes) (rows : Identities)
    → db.reads ≡ false
    → lookup_identity db role id rows ≡ err failed
unfolding lookup_identity lookup_any
lookup_identity-unread db role id rows h = rw h refl

pub lookup_identity-live :
    (db : Database) (role id : Bytes) (rows : Identities) (r : Record)
    → db.reads ≡ true
    → rows role id ≡ some r
    → is_set r.revoked_at ≡ false
    → lookup_identity db role id rows ≡ ok r
unfolding lookup_identity lookup_any
lookup_identity-live db role id rows r h e k = rw (h, e, k) refl

-- Of an identity that is not enrolled or revoked, nothing is answered but an error.
pub data Refused (o : Except StoreError Record) : Type 0 where
  refused : (e : StoreError) → o ≡ err e → Refused o

pub lookup_identity-dead :
    (db : Database) (role id : Bytes) (rows : Identities)
    → unrevoked (rows role id) ≡ none
    → Refused (lookup_identity db role id rows)
unfolding lookup_identity lookup_any
lookup_identity-dead db role id rows u =
    if_intro (λ o. Refused (not_revoked o)) (not db.reads) (λ _. refused failed refl)
      (λ _. go (rows role id) u)
  where
    go : (o : Option Record) → unrevoked o ≡ none → Refused (not_revoked (found_row o))
    go none v = refused not_enrolled refl
    go (some r) v = elim (Bool-cases (is_set r.revoked_at)) [
      | inl k ↦ refused identity_revoked (rw k refl)
      | inr k ↦ absurd (cc (rw k at v))
    ]

-- The promotion of a renewed certificate.
promotes :
    (db : Database) (i : Identity) (serial : Bytes) (rows : Identities) (r : Record)
    (role' id' : Bytes)
    → unrevoked (rows i.role i.id) ≡ some r
    → is_set r.revoked_at ≡ false
    → r.pending_serial_hex ≡ serial
    → presented serial (status rows i.role i.id) ≡ active serial none
    → status (promote_serial db i.role i.id serial rows).0 role' id'
      ≡ for_one db.writes i.role i.id role' id' (presented serial) (status rows role' id')
unfolding promote_serial
promotes db i serial rows r role' id' u k p e =
    when_works db.writes i.role i.id role' id' (presented serial) rows _ (
      rw (u, p, bytes_eq_refl serial)
        (written i.role i.id role' id' rows _ (presented serial) (
          rw e (
            status_of-live
              (record r { serial_hex = serial; pending_serial_hex = []; pending_issued_at = none })
              k))))

-- The certificate of a live row is presented.
live-promised :
    (db : Database) (i : Identity) (serial : Bytes) (rows : Identities) (r : Record)
    (role' id' : Bytes)
    → db.reads ≡ true
    → unrevoked (rows i.role i.id) ≡ some r
    → status rows i.role i.id ≡ active r.serial_hex (renewal r.pending_serial_hex)
    → is_set r.revoked_at ≡ false
    → status (present db i serial rows (ok r)).0 role' id'
      ≡ for_one
          (db.reads && db.writes)
          i.role
          i.id
          role'
          id'
          (presented serial)
          (status rows role' id')
unfolding promote_serial
live-promised db i serial rows r role' id' h u e k =
    elim (Bool-cases (bytes_eq r.serial_hex serial)) [
      | inl c ↦ rw c (idle _ i.role i.id role' id' rows (presented serial) (rw (e, c) refl))
      | inr c ↦
          elim (Bool-cases
            (not (is_empty r.pending_serial_hex) && bytes_eq r.pending_serial_hex serial)) [
              | inl p ↦
                  let q = bytes_eq→eq r.pending_serial_hex serial (and_right _ _ p) in
                  rw (c, p, h)
                    (promotes db i serial rows r role' id' u k q
                      (rw (e, c, is_pending-renewal r.pending_serial_hex serial, p) refl))
              | inr p ↦
                  rw (c, p)
                    (idle _ i.role i.id role' id' rows (presented serial)
                      (rw (e, c, is_pending-renewal r.pending_serial_hex serial, p) refl))
            ]
    ]

-- A certificate is presented, and the table was asked for its identity.
present-promised :
    (db : Database) (i : Identity) (serial : Bytes) (rows : Identities) (role' id' : Bytes)
    → status (present db i serial rows (lookup_identity db i.role i.id rows)).0 role' id'
      ≡ for_one
          (db.reads && db.writes)
          i.role
          i.id
          role'
          id'
          (presented serial)
          (status rows role' id')
present-promised db i serial rows role' id' = elim (Bool-cases db.reads) [
  | inr h ↦ rw (lookup_identity-unread db i.role i.id rows h) (rw h refl)
  | inl h ↦ elim (row-cases rows i.role i.id) [
    | no_row u e ↦ elim (lookup_identity-dead db i.role i.id rows u) [
      | refused x q ↦ rw q (idle _ i.role i.id role' id' rows (presented serial) (rw e refl))
    ]
    | revoked_row u e ↦ elim (lookup_identity-dead db i.role i.id rows u) [
      | refused x q ↦ rw q (idle _ i.role i.id role' id' rows (presented serial) (rw e refl))
    ]
    | live_row r u e k ↦
        rw (lookup_identity-live db i.role i.id rows r h e k)
          (live-promised db i serial rows r role' id' h u (status-live rows i.role i.id r e k) k)
  ]
]

presents-promised :
    (db : Database) (cert : Certificate) (rows : Identities) (role' id' : Bytes)
    → status (step (presents db cert) rows) role' id'
      ≡ promised (presents db cert) role' id' (status rows role' id')
unfolding step promised verify_enrolled
presents-promised db cert rows role' id' = go (identity_of cert)
  where
    go :
        (o : Except EnrollError Identity)
        → status (verify_identity db cert.serial rows o).0 role' id'
          ≡ presented_by db o cert.serial role' id' (status rows role' id')
    go (err e) = refl
    go (ok i) = present-promised db i cert.serial rows role' id'

pub step-promised :
    (e : Event) (rows : Identities) (role' id' : Bytes)
    → status (step e rows) role' id' ≡ promised e role' id' (status rows role' id')
step-promised (enrolls db r) rows role' id' = enrolls-promised db r rows role' id'
step-promised (renews db now role id serial) rows role' id' =
    renews-promised db now role id serial rows role' id'
step-promised (presents db cert) rows role' id' = presents-promised db cert rows role' id'
step-promised (revokes db now role id) rows role' id' =
    revokes-promised db now role id rows role' id'

-- The tables refine the life cycle of an identity: after any enrollments, renewals, revocations and
-- presented certificates, with a database that may fail at each of them, the row of every identity
-- stands for the status that the life cycle, followed for this identity alone, has.
pub run-promised :
    (es : List Event) (rows : Identities) (role' id' : Bytes)
    → status (run es rows) role' id' ≡ promised_by es role' id' (status rows role' id')
unfolding run promised_by
run-promised [] rows role' id' = refl
run-promised (e ∷ es) rows role' id' =
    run-promised es (step e rows) role' id'
    ∙ ap (promised_by es role' id') (step-promised e rows role' id')
