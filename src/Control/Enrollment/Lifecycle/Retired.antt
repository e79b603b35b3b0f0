-- ===== src/Control/Enrollment/Lifecycle/Retired.antt =====
-- Which certificates are accepted (internal/control/enrollment/enrollment.go, `VerifyEnrolled`).
use secure_access_relay.Common.{
  ◌&&◌, Bool, true, false, Bool-cases, if_intro, Bytes, bytes_eq, bytes_eq→eq, bytes_eq_refl, List,
  [], ◌∷◌, none, some, ◌≡◌, ◌≢◌, refl, sym, ◌↔◌, ◌∙◌, arith, All, inl, inr,
}
use secure_access_relay.Common.Except.{Except, ok, err}
use secure_access_relay.Storage.{Database}
use secure_access_relay.Storage.Identities.{Record, Identities, lookup_identity, promote_serial}
use secure_access_relay.Control.Enrollment.{
  Identity, Certificate, EnrollError, identity_of, verify_enrolled, present, verify_identity,
}
use secure_access_relay.Control.Enrollment.Lifecycle.{
  Status, unknown, revoked, active, renewal, renewed, barred, accepts, presented, status, Event,
  enrolls, renews, presents, revokes, step, for_one, presented_by, promised, run, promised_by,
}
use secure_access_relay.Control.Enrollment.Lifecycle.Presents.{run-promised, step-promised}
use secure_access_relay.Control.Enrollment.Lifecycle.Writes.{
  row-cases, status-live, no_row, revoked_row, live_row, and_right, unless, enrolled,
}
use secure_access_relay.Control.Enrollment.Lifecycle.Presents.{
  lookup_identity-unread, lookup_identity-live, lookup_identity-dead, refused, is_pending-renewal,
}

present-accepts :
    (db : Database) (i : Identity) (serial : Bytes) (rows : Identities) (r : Record) (j : Identity)
    → (present db i serial rows (ok r)).1 ≡ ok j
    → (i ≡ j) × (accepts serial (active r.serial_hex (renewal r.pending_serial_hex)) ≡ true)
unfolding promote_serial
present-accepts db i serial rows r j h =
    rw (is_pending-renewal r.pending_serial_hex serial) (ground arith)

present-works :
    (db : Database) (i : Identity) (serial : Bytes) (rows : Identities) (r : Record)
    → db.writes ≡ true
    → accepts serial (active r.serial_hex (renewal r.pending_serial_hex)) ≡ true
    → (present db i serial rows (ok r)).1 ≡ ok i
unfolding promote_serial
present-works db i serial rows r w h =
    let t = rw (is_pending-renewal r.pending_serial_hex serial) at h in ground (arith, t)

-- A certificate that was accepted names the identity, and is the current or the renewed one of it.
pub record IsAccepted (db : Database) (cert : Certificate) (rows : Identities) (j : Identity)
    : Type 0 where
  pub named : identity_of cert ≡ ok j
  pub accepted : accepts cert.serial (status rows j.role j.id) ≡ true

looked_up :
    (db : Database) (i j : Identity) (serial : Bytes) (rows : Identities)
    → (present db i serial rows (lookup_identity db i.role i.id rows)).1 ≡ ok j
    → (i ≡ j) × (accepts serial (status rows i.role i.id) ≡ true)
looked_up db i j serial rows h = elim (Bool-cases db.reads) [
  | inr f ↦ absurd (cc (rw (lookup_identity-unread db i.role i.id rows f) at h))
  | inl t ↦ elim (row-cases rows i.role i.id) [
    | no_row u e ↦ elim (lookup_identity-dead db i.role i.id rows u) [
      | refused x q ↦ absurd (cc (rw q at h))
    ]
    | revoked_row u e ↦ elim (lookup_identity-dead db i.role i.id rows u) [
      | refused x q ↦ absurd (cc (rw q at h))
    ]
    | live_row r u e k ↦ rw (status-live rows i.role i.id r e k) (
        present-accepts db i serial rows r j
          (rw (lookup_identity-live db i.role i.id rows r t e k) at h))
  ]
]

looked_up-works :
    (db : Database) (i : Identity) (serial : Bytes) (rows : Identities)
    → db.reads ≡ true
    → db.writes ≡ true
    → accepts serial (status rows i.role i.id) ≡ true
    → (present db i serial rows (lookup_identity db i.role i.id rows)).1 ≡ ok i
looked_up-works db i serial rows t w h = elim (row-cases rows i.role i.id) [
  | no_row u e ↦ absurd (cc (rw e at h))
  | revoked_row u e ↦ absurd (cc (rw e at h))
  | live_row r u e k ↦
      rw (lookup_identity-live db i.role i.id rows r t e k)
        (present-works db i serial rows r w (rw (status-live rows i.role i.id r e k) at h))
]

pub verify_enrolled-IsAccepted :
    (db : Database) (cert : Certificate) (rows : Identities) (j : Identity)
    → (verify_enrolled db cert rows).1 ≡ ok j
    → IsAccepted db cert rows j
unfolding verify_enrolled
verify_enrolled-IsAccepted db cert rows j = go (identity_of cert) refl
  where
    go :
        (o : Except EnrollError Identity)
        → identity_of cert ≡ o
        → (verify_identity db cert.serial rows o).1 ≡ ok j
        → IsAccepted db cert rows j
    go (err x) e h = absurd (cc h)
    go (ok i) e h =
        let (p, a) = looked_up db i j cert.serial rows h in
        record { named = rw p at e; accepted = rw p at a }

-- Whenever the database works, a certificate is accepted for an identity exactly when it names it
-- alone and is the current one of that identity or its renewal.
pub verify_enrolled_iff :
    (db : Database) (cert : Certificate) (rows : Identities) (j : Identity)
    → db.reads ≡ true
    → db.writes ≡ true
    → ((verify_enrolled db cert rows).1 ≡ ok j) ↔ IsAccepted db cert rows j
unfolding verify_enrolled
verify_enrolled_iff db cert rows j t w = (
  verify_enrolled-IsAccepted db cert rows j,
  λ v. rw v.named (looked_up-works db j cert.serial rows t w v.accepted),
)

-- Whether an event gives the certificate to the identity.
abbrev pub issues : Bytes → Identity → Event → Bool
issues serial i (enrolls db r) =
    bytes_eq r.serial_hex serial && (bytes_eq r.role i.role && bytes_eq r.id i.id)
issues serial i (renews db now role id s) =
    bytes_eq s serial && (bytes_eq role i.role && bytes_eq id i.id)
issues serial i _ = false

-- What is done to the identity of an event, and to no other.
for_one-refuses :
    (serial : Bytes) (works : Bool) (role id role' id' : Bytes) (f : Status → Status) (s : Status)
    → accepts serial s ≡ false
    → ((bytes_eq role role' && bytes_eq id id') ≡ true → accepts serial (f s) ≡ false)
    → accepts serial (for_one works role id role' id' f s) ≡ false
for_one-refuses serial works role id role' id' f s h k =
    if_intro (λ z. accepts serial z ≡ false) (works && (bytes_eq role role' && bytes_eq id id'))
      (λ e. k (and_right works _ e)) (λ _. h)

renewed-refuses :
    (serial new : Bytes) (s : Status)
    → accepts serial s ≡ false
    → bytes_eq new serial ≡ false
    → accepts serial (renewed new s) ≡ false
renewed-refuses serial new unknown h e = refl
renewed-refuses serial new revoked h e = refl
renewed-refuses serial new (active c p) h e = rw (is_pending-renewal new serial) (ground arith)

pending_refused :
    (serial c p : Bytes)
    → accepts serial (active c (some p)) ≡ false
    → accepts serial (active p none) ≡ false
pending_refused serial c p h = ground arith

barred-refuses :
    (serial : Bytes) (s : Status) → accepts serial s ≡ false → accepts serial (barred s) ≡ false
barred-refuses serial unknown h = h
barred-refuses serial revoked h = h
barred-refuses serial (active c p) h = refl

presented-refuses :
    (serial other : Bytes) (s : Status)
    → accepts serial s ≡ false
    → accepts serial (presented other s) ≡ false
presented-refuses serial other unknown h = refl
presented-refuses serial other revoked h = refl
presented-refuses serial other (active c none) h =
    if_intro (λ z. accepts serial z ≡ false) (bytes_eq c other) (λ _. h) (λ _. h)
presented-refuses serial other (active c (some p)) h =
    if_intro (λ z. accepts serial z ≡ false) (bytes_eq c other) (λ _. h)
      (λ _.
        if_intro (λ z. accepts serial z ≡ false) (bytes_eq p other)
          (λ e. rw (sym (bytes_eq→eq p other e)) (pending_refused serial c p h)) (λ _. h))

enrolled-refuses :
    (serial : Bytes) (r : Record) (s : Status)
    → bytes_eq r.serial_hex serial ≡ false
    → accepts serial (enrolled r s) ≡ false
enrolled-refuses serial r s e = ground arith

promised-refuses :
    (serial : Bytes) (i : Identity) (e : Event) (s : Status)
    → accepts serial s ≡ false
    → issues serial i e ≡ false
    → accepts serial (promised e i.role i.id s) ≡ false
unfolding promised
promised-refuses serial i (enrolls db r) s h f =
    for_one-refuses serial db.writes r.role r.id i.role i.id (enrolled r) s h
      (λ k. enrolled-refuses serial r s (unless _ _ f k))
promised-refuses serial i (renews db now role id new) s h f =
    for_one-refuses serial db.writes role id i.role i.id (renewed new) s h
      (λ k. renewed-refuses serial new s h (unless _ _ f k))
promised-refuses serial i (presents db cert) s h f = go (identity_of cert)
  where
    go :
        (o : Except EnrollError Identity)
        → accepts serial (presented_by db o cert.serial i.role i.id s) ≡ false
    go (err x) = h
    go (ok j) =
        for_one-refuses serial (db.reads && db.writes) j.role j.id i.role i.id
          (presented cert.serial) s h (λ k. presented-refuses serial cert.serial s h)
promised-refuses serial i (revokes db now role id) s h f =
    for_one-refuses serial db.writes role id i.role i.id barred s h (λ k. barred-refuses serial s h)

promised_by-refuses :
    (serial : Bytes) (i : Identity) (es : List Event) (s : Status)
    → accepts serial s ≡ false
    → All (λ e. issues serial i e ≡ false) es
    → accepts serial (promised_by es i.role i.id s) ≡ false
unfolding promised_by
promised_by-refuses serial i [] s h f = h
promised_by-refuses serial i (e ∷ es) s h (f, fs) =
    promised_by-refuses serial i es (promised e i.role i.id s) (promised-refuses serial i e s h f)
      fs

-- A certificate that is not accepted for an identity stays refused, whatever is enrolled, renewed,
-- presented or revoked and whenever the database fails, until it is given to the identity again.
pub refused_for_good :
    (i : Identity) (cert : Certificate) (es : List Event) (rows : Identities) (db : Database)
    → accepts cert.serial (status rows i.role i.id) ≡ false
    → All (λ e. issues cert.serial i e ≡ false) es
    → (verify_enrolled db cert (run es rows)).1 ≢ ok i
refused_for_good i cert es rows db h f k =
    let v = verify_enrolled-IsAccepted db cert (run es rows) i k in
    let p = promised_by-refuses cert.serial i es (status rows i.role i.id) h f in
    absurd (cc (v.accepted, run-promised es rows i.role i.id, p))

-- The first presentation of a renewed certificate makes it the current one.
promotion :
    (db : Database) (i : Identity) (cert : Certificate) (rows : Identities) (old : Bytes)
    → db.reads ≡ true
    → db.writes ≡ true
    → identity_of cert ≡ ok i
    → status rows i.role i.id ≡ active old (some cert.serial)
    → bytes_eq old cert.serial ≡ false
    → status (verify_enrolled db cert rows).0 i.role i.id ≡ active cert.serial none
unfolding step promised
promotion db i cert rows old t w e s n =
    step-promised (presents db cert) rows i.role i.id
    ∙ rw (e, t, w, s, bytes_eq_refl i.role, bytes_eq_refl i.id, n, bytes_eq_refl cert.serial) refl

-- While the database works, a renewed certificate is accepted when it is first presented, and from
-- then on the certificate that it replaced is refused, whatever happens, until it is given to the
-- identity again.
pub renewal_retires :
    (db db' : Database) (i : Identity) (cert old : Certificate) (rows : Identities)
    (es : List Event)
    → db.reads ≡ true
    → db.writes ≡ true
    → identity_of cert ≡ ok i
    → status rows i.role i.id ≡ active old.serial (some cert.serial)
    → bytes_eq old.serial cert.serial ≡ false
    → All (λ e. issues old.serial i e ≡ false) es
    → ((verify_enrolled db cert rows).1 ≡ ok i)
      × ((verify_enrolled db' old (run es (verify_enrolled db cert rows).0)).1 ≢ ok i)
renewal_retires db db' i cert old rows es t w e s n f = (
  (verify_enrolled_iff db cert rows i t w).1
      (record { named = e; accepted = rw (s, n, bytes_eq_refl cert.serial) refl }),
  refused_for_good i old es (verify_enrolled db cert rows).0 db'
      (rw (promotion db i cert rows old.serial t w e s n)
        (elim (Bool-cases (bytes_eq cert.serial old.serial)) [
          | inl k ↦ absurd (cc (bytes_eq→eq cert.serial old.serial k, n, bytes_eq_refl old.serial))
          | inr k ↦ rw k refl
        ]))
      f,
)
