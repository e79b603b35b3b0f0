-- ===== src/Control/Enrollment/Lifecycle/Writes.antt =====
-- What a statement writes is what the life cycle promises (internal/storage/identities.go).
use secure_access_relay.Common.{
  ℕ, not, ◌&&◌, Bool, true, false, Bool-cases, if◌then◌else◌, Bytes, bytes_eq, bytes_eq→eq, [],
  Option, none, some, ◌≡◌, refl, inl, inr,
}
use secure_access_relay.Storage.{Database, StoreError, failed, is_set, stored, stored_time}
use secure_access_relay.Storage.Identities.{
  Record, Identities, put_row, put_record, put_pending_serial, revoke_identity, unrevoked,
  set_pending, revoke_row,
}
use secure_access_relay.Control.Enrollment.Lifecycle.{
  Status, unknown, revoked, active, renewal, renewed, barred, status_of, status, enrolls, renews,
  revokes, step, for_one, promised,
}

-- A row that was put is the one found for its key, and the others stay.
pub status-put_row :
    (role id role' id' : Bytes) (r : Record) (rows : Identities)
    → status (put_row role id r rows) role' id' ≡ (
        if bytes_eq role role' && bytes_eq id id'
        then status_of (some r)
        else status rows role' id')
unfolding status put_row
status-put_row role id role' id' r rows =
    elim (Bool-cases (bytes_eq role role' && bytes_eq id id')) [
      | inl e ↦ rw e refl
      | inr e ↦ rw e refl
    ]

pub and_right : (a b : Bool) → (a && b) ≡ true → b ≡ true
and_right true b h = h
and_right false b h = absurd (cc h)

pub unless : (a b : Bool) → (a && b) ≡ false → b ≡ true → a ≡ false
unless true b h k = absurd (cc (h, k))
unless false b h k = refl

pub key_eq :
    (role id role' id' : Bytes)
    → (bytes_eq role role' && bytes_eq id id') ≡ true
    → (role ≡ role') × (id ≡ id')
key_eq role id role' id' h = elim (Bool-cases (bytes_eq role role')) [
  | inl e ↦ (bytes_eq→eq role role' e, bytes_eq→eq id id' (rw e at h))
  | inr e ↦ absurd (cc (rw e at h))
]

-- A row was written for an identity, as was promised, or none was, as nothing was promised.
pub written :
    (role id role' id' : Bytes) (rows : Identities) (r : Record) (f : Status → Status)
    → status_of (some r) ≡ f (status rows role id)
    → status (put_row role id r rows) role' id'
      ≡ for_one true role id role' id' f (status rows role' id')
written role id role' id' rows r f e = elim (Bool-cases (bytes_eq role role' && bytes_eq id id')) [
  | inl k ↦
      let (p, q) = key_eq role id role' id' k in
      rw (status-put_row role id role' id' r rows, k) (rw (p, q) at e)
  | inr k ↦ rw (status-put_row role id role' id' r rows, k) refl
]

pub unwritten :
    (role id role' id' : Bytes) (rows : Identities) (f : Status → Status)
    → status rows role id ≡ f (status rows role id)
    → status rows role' id' ≡ for_one true role id role' id' f (status rows role' id')
unwritten role id role' id' rows f e = elim (Bool-cases (bytes_eq role role' && bytes_eq id id')) [
  | inl k ↦ let (p, q) = key_eq role id role' id' k in rw k (rw (p, q) at e)
  | inr k ↦ rw k refl
]

pub status_of-revoked :
    (r : Record) (t : ℕ) → status_of (some (record r { revoked_at = some t })) ≡ revoked
unfolding status_of
status_of-revoked r t = refl

pub enrolled-status_of :
    (r : Record) (t : ℕ)
    → status_of (
        some (record r {
          enrolled_at = t;
          revoked_at = stored_time r.revoked_at;
          pending_serial_hex = [];
          pending_issued_at = none;
        }))
      ≡ (if is_set r.revoked_at then revoked else active r.serial_hex none)
unfolding status_of
enrolled-status_of r t = go r.revoked_at
  where
    go :
        (o : Option ℕ)
        → (if is_set (stored_time o) then revoked else active r.serial_hex none)
          ≡ (if is_set o then revoked else active r.serial_hex none)
    go none = refl
    go (some x) = refl

-- A database that does not run the statement leaves every identity as it was.
pub when_works :
    (works : Bool) (role id role' id' : Bytes) (f : Status → Status) (rows : Identities)
    (r : Identities × Option StoreError)
    → status r.0 role' id' ≡ for_one true role id role' id' f (status rows role' id')
    → status (if not works then (rows, some failed) else r).0 role' id'
      ≡ for_one works role id role' id' f (status rows role' id')
when_works true role id role' id' f rows r h = h
when_works false role id role' id' f rows r h = refl

abbrev pub enrolled : Record → Status → Status
enrolled r s = if is_set r.revoked_at then revoked else active r.serial_hex none

pub enrolls-promised :
    (db : Database) (r : Record) (rows : Identities) (role' id' : Bytes)
    → status (step (enrolls db r) rows) role' id'
      ≡ promised (enrolls db r) role' id' (status rows role' id')
unfolding step promised put_record
enrolls-promised db r rows role' id' =
    when_works db.writes r.role r.id role' id' (enrolled r) rows _ (
      written r.role r.id role' id' rows _ (enrolled r)
        (enrolled-status_of r (stored r.enrolled_at)))

-- The row that an UPDATE affects, against the status.
pub data Row (rows : Identities) (role id : Bytes) : Type 0 where
  no_row : unrevoked (rows role id) ≡ none → status rows role id ≡ unknown → Row rows role id
  revoked_row : unrevoked (rows role id) ≡ none → status rows role id ≡ revoked → Row rows role id
  live_row :
      (r : Record)
      → unrevoked (rows role id) ≡ some r
      → rows role id ≡ some r
      → is_set r.revoked_at ≡ false
      → Row rows role id

pub row-cases : (rows : Identities) (role id : Bytes) → Row rows role id
unfolding status status_of
row-cases rows role id = go (rows role id) refl
  where
    go : (o : Option Record) → rows role id ≡ o → Row rows role id
    go none e = no_row (rw e refl) (rw e refl)
    go (some r) e = elim (Bool-cases (is_set r.revoked_at)) [
      | inl k ↦ revoked_row (rw (e, k) refl) (rw (e, k) refl)
      | inr k ↦ live_row r (rw (e, k) refl) e k
    ]

pub status-live :
    (rows : Identities) (role id : Bytes) (r : Record)
    → rows role id ≡ some r
    → is_set r.revoked_at ≡ false
    → status rows role id ≡ active r.serial_hex (renewal r.pending_serial_hex)
unfolding status status_of
status-live rows role id r e k = rw (e, k) refl

pub status_of-live :
    (r : Record)
    → is_set r.revoked_at ≡ false
    → status_of (some r) ≡ active r.serial_hex (renewal r.pending_serial_hex)
unfolding status_of
status_of-live r k = rw k refl

pub pending-promised :
    (db : Database) (now : ℕ) (role id serial : Bytes) (rows : Identities) (role' id' : Bytes)
    → status (set_pending db now role id serial rows (unrevoked (rows role id))).0 role' id'
      ≡ for_one true role id role' id' (renewed serial) (status rows role' id')
pending-promised db now role id serial rows role' id' = elim (row-cases rows role id) [
  | no_row u e ↦ rw u (unwritten role id role' id' rows (renewed serial) (rw e refl))
  | revoked_row u e ↦ rw u (unwritten role id role' id' rows (renewed serial) (rw e refl))
  | live_row r u e k ↦ rw u (
      written role id role' id' rows _ (renewed serial) (
        rw (status-live rows role id r e k) (
          status_of-live
            (record r { pending_serial_hex = serial; pending_issued_at = some (stored now) }) k)))
]

pub renews-promised :
    (db : Database) (now : ℕ) (role id serial : Bytes) (rows : Identities) (role' id' : Bytes)
    → status (step (renews db now role id serial) rows) role' id'
      ≡ promised (renews db now role id serial) role' id' (status rows role' id')
unfolding step promised put_pending_serial
renews-promised db now role id serial rows role' id' =
    when_works db.writes role id role' id' (renewed serial) rows _
      (pending-promised db now role id serial rows role' id')

pub revocation-promised :
    (db : Database) (now : ℕ) (role id : Bytes) (rows : Identities) (role' id' : Bytes)
    → status (revoke_row db now role id rows (unrevoked (rows role id))).0 role' id'
      ≡ for_one true role id role' id' barred (status rows role' id')
revocation-promised db now role id rows role' id' = elim (row-cases rows role id) [
  | no_row u e ↦ rw u (unwritten role id role' id' rows barred (rw e refl))
  | revoked_row u e ↦ rw u (unwritten role id role' id' rows barred (rw e refl))
  | live_row r u e k ↦ rw u (
      written role id role' id' rows (record r { revoked_at = some (stored now) }) barred
        (rw (status-live rows role id r e k) (status_of-revoked r (stored now))))
]

pub revokes-promised :
    (db : Database) (now : ℕ) (role id : Bytes) (rows : Identities) (role' id' : Bytes)
    → status (step (revokes db now role id) rows) role' id'
      ≡ promised (revokes db now role id) role' id' (status rows role' id')
unfolding step promised revoke_identity
revokes-promised db now role id rows role' id' =
    when_works db.writes role id role' id' barred rows _
      (revocation-promised db now role id rows role' id')
