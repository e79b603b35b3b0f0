-- ===== src/Control/Enrollment/Lifecycle.antt =====
-- What enrollment promises about an identity, and that the tables keep it
-- (internal/control/enrollment, internal/storage/identities.go).
pub mod Writes
pub mod Presents
pub mod Retired
use secure_access_relay.Common.{
  ℕ, not, ◌&&◌, Bool, true, false, Bool-cases, if◌then◌else◌, if_intro, Bytes, bytes_eq,
  bytes_eq→eq, bytes_eq_refl, List, [], ◌∷◌, Option, none, some, ◌≡◌, refl, sym, ◌∙◌, ap, inl, inr,
}
use secure_access_relay.Common.Except.{Except, ok, err}
use secure_access_relay.Proto.Grant.{is_empty}
use secure_access_relay.Storage.{
  Database, StoreError, failed, identity_revoked, not_enrolled, is_set, stored, stored_time,
}
use secure_access_relay.Storage.Identities.{
  Record, Identities, put_row, put_record, lookup_any, lookup_identity, found_row, not_revoked,
  put_pending_serial, promote_serial, revoke_identity, unrevoked, set_pending, revoke_row,
  promote_row,
}
use secure_access_relay.Control.Enrollment.{
  Identity, Certificate, EnrollError, identity_of, verify_enrolled, present, verify_identity,
}

-- An identity as its peers see it: the certificate that is current, and the one that is renewed and
-- was not yet presented.
pub data Status : Type 0 where
  unknown revoked : Status
  active : Bytes → Option Bytes → Status

abbrev pub renewal : Bytes → Option Bytes
renewal serial = if is_empty serial then none else some serial

-- What one event makes of the status, and the certificates it accepts.
abbrev pub renewed : Bytes → Status → Status
renewed serial (active current pending) = active current (renewal serial)
renewed serial s = s

abbrev pub barred : Status → Status
barred (active current pending) = revoked
barred s = s

abbrev pub is_pending : Bytes → Option Bytes → Bool
is_pending serial none = false
is_pending serial (some p) = bytes_eq p serial

abbrev pub accepts : Bytes → Status → Bool
accepts serial (active current pending) =
    if bytes_eq current serial then true else is_pending serial pending
accepts serial s = false

abbrev pub presented : Bytes → Status → Status
presented serial (active current pending) =
    if bytes_eq current serial
    then active current pending
    else if is_pending serial pending
    then active serial none
    else active current pending
presented serial s = s

-- The status that a row stands for.
unfoldable pub status_of : Option Record → Status
status_of none = unknown
status_of (some r) =
    if is_set r.revoked_at then revoked else active r.serial_hex (renewal r.pending_serial_hex)

unfoldable pub status : Identities → Bytes → Bytes → Status
unfolding status_of
status rows role id = status_of (rows role id)

pub data Event : Type 0 where
  enrolls : Database → Record → Event
  renews : Database → ℕ → Bytes → Bytes → Bytes → Event
  presents : Database → Certificate → Event
  revokes : Database → ℕ → Bytes → Bytes → Event

-- What happens to the table.
unfoldable pub step : Event → Identities → Identities
step (enrolls db r) rows = (put_record db r rows).0
step (renews db now role id serial) rows = (put_pending_serial db now role id serial rows).0
step (presents db cert) rows = (verify_enrolled db cert rows).0
step (revokes db now role id) rows = (revoke_identity db now role id rows).0

-- `f`, if the event is about this identity and the database does what it is asked.
abbrev pub for_one : Bool → Bytes → Bytes → Bytes → Bytes → (Status → Status) → Status → Status
for_one works role id role' id' f s =
    if works && (bytes_eq role role' && bytes_eq id id') then f s else s

abbrev pub presented_by :
    Database → Except EnrollError Identity → Bytes → Bytes → Bytes → Status → Status
presented_by db (err e) serial role' id' s = s
presented_by db (ok i) serial role' id' s =
    for_one (db.reads && db.writes) i.role i.id role' id' (presented serial) s

-- What is promised to happen to the status of an identity.
unfoldable pub promised : Event → Bytes → Bytes → Status → Status
promised (enrolls db r) role' id' s =
    for_one db.writes r.role r.id role' id'
      (λ _. if is_set r.revoked_at then revoked else active r.serial_hex none) s
promised (renews db now role id serial) role' id' s =
    for_one db.writes role id role' id' (renewed serial) s
promised (presents db cert) role' id' s = presented_by db (identity_of cert) cert.serial role' id' s
promised (revokes db now role id) role' id' s = for_one db.writes role id role' id' barred s

unfoldable pub run : List Event → Identities → Identities
unfolding step
run [] rows = rows
run (e ∷ es) rows = run es (step e rows)

unfoldable pub promised_by : List Event → Bytes → Bytes → Status → Status
unfolding promised
promised_by [] role' id' s = s
promised_by (e ∷ es) role' id' s = promised_by es role' id' (promised e role' id' s)
