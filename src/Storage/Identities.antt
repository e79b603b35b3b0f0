-- ===== src/Storage/Identities.antt =====
-- internal/storage/identities.go: enrolled identities, by role and name.
use secure_access_relay.Common.{
  ℕ, not, ◌&&◌, if◌then◌else◌, Bytes, bytes_eq, [], Option, none, some,
}
use secure_access_relay.Common.Except.{Except, ok, err}
use secure_access_relay.Storage.{
  Database, StoreError, failed, identity_revoked, not_enrolled, stored, stored_time, is_set,
}

pub record Record : Type 0 where
  pub role : Bytes
  pub id : Bytes
  pub enrolled_at : ℕ
  pub serial_hex : Bytes
  pub revoked_at : Option ℕ
  pub pending_serial_hex : Bytes
  pub pending_issued_at : Option ℕ

-- The table, whose primary key is the role with the name.
abbrev pub Identities : Type 0
Identities = Bytes → Bytes → Option Record

abbrev pub no_identities : Identities
no_identities role id = none

unfoldable pub put_row : Bytes → Bytes → Record → Identities → Identities
put_row role id r rows role' id' =
    if bytes_eq role role' && bytes_eq id id' then some r else rows role' id'

-- A renewal that is outstanding is discarded.
unfoldable pub put_record : Database → Record → Identities → Identities × Option StoreError
put_record db r rows = if not db.writes then (rows, some failed) else (
  put_row r.role r.id
      (record r {
        enrolled_at = stored r.enrolled_at;
        revoked_at = stored_time r.revoked_at;
        pending_serial_hex = [];
        pending_issued_at = none;
      })
      rows,
  none,
)

abbrev pub found_row : Option Record → Except StoreError Record
found_row none = err not_enrolled
found_row (some r) = ok r

unfoldable pub lookup_any : Database → Bytes → Bytes → Identities → Except StoreError Record
lookup_any db role id rows = if not db.reads then err failed else found_row (rows role id)

abbrev pub not_revoked : Except StoreError Record → Except StoreError Record
not_revoked (err e) = err e
not_revoked (ok r) = if is_set r.revoked_at then err identity_revoked else ok r

unfoldable pub lookup_identity : Database → Bytes → Bytes → Identities → Except StoreError Record
unfolding lookup_any
lookup_identity db role id rows = not_revoked (lookup_any db role id rows)

-- The row that an UPDATE for identities that are not revoked affects, if there is one.
abbrev pub unrevoked : Option Record → Option Record
unrevoked none = none
unrevoked (some r) = if is_set r.revoked_at then none else some r

-- What is said when no row was affected: `there` if the SELECT finds a row after all.
abbrev pub no_row : Option StoreError → Except StoreError Record → Option StoreError
no_row there (ok r) = there
no_row there (err e) = some e

abbrev pub set_pending :
    Database
    → ℕ
    → Bytes
    → Bytes
    → Bytes
    → Identities
    → Option Record
    → Identities × Option StoreError
set_pending db now role id serial rows none =
    (rows, no_row (some identity_revoked) (lookup_any db role id rows))
set_pending db now role id serial rows (some r) = (
  put_row role id (record r { pending_serial_hex = serial; pending_issued_at = some (stored now) })
      rows,
  none,
)

unfoldable pub put_pending_serial :
    Database → ℕ → Bytes → Bytes → Bytes → Identities → Identities × Option StoreError
unfolding lookup_any
put_pending_serial db now role id serial rows =
    if not db.writes
    then (rows, some failed)
    else set_pending db now role id serial rows (unrevoked (rows role id))

abbrev pub promote_row : Bytes → Bytes → Bytes → Identities → Option Record → Identities
promote_row role id serial rows none = rows
promote_row role id serial rows (some r) =
    if bytes_eq r.pending_serial_hex serial
    then put_row role id
        (record r {
          serial_hex = r.pending_serial_hex;
          pending_serial_hex = [];
          pending_issued_at = none;
        })
        rows
    else rows

unfoldable pub promote_serial :
    Database → Bytes → Bytes → Bytes → Identities → Identities × Option StoreError
promote_serial db role id serial rows =
    if not db.writes
    then (rows, some failed)
    else (promote_row role id serial rows (unrevoked (rows role id)), none)

abbrev pub revoke_row :
    Database → ℕ → Bytes → Bytes → Identities → Option Record → Identities × Option StoreError
revoke_row db now role id rows none = (rows, no_row none (lookup_any db role id rows))
revoke_row db now role id rows (some r) =
    (put_row role id (record r { revoked_at = some (stored now) }) rows, none)

unfoldable pub revoke_identity :
    Database → ℕ → Bytes → Bytes → Identities → Identities × Option StoreError
unfolding lookup_any
revoke_identity db now role id rows =
    if not db.writes
    then (rows, some failed)
    else revoke_row db now role id rows (unrevoked (rows role id))
