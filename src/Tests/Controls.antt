-- ===== src/Tests/Controls.antt =====
-- The control plane: enrollments, grants and sessions (internal/control, internal/storage).
use mathlib.Core.List.Memᴰ.{Memᴰ}
use secure_access_relay.Common.{
  ◌+◌, ◌*◌, ◌≤◌, true, false, codes, Bytes, bytes_eq, List, [], ◌∷◌, none, some, ◌≡◌, ◌≢◌, refl,
}
use secure_access_relay.Common.Except.{ok}
use secure_access_relay.Common.Named.{find}
use secure_access_relay.Proto.Handshake.{take_string}
use secure_access_relay.Proto.Grant.{second, canonical, encode_grant, decode_grant, decode_tail}
use secure_access_relay.Control.Policy.{nanoseconds, Rule, effect_allow, consider, matches}
use secure_access_relay.Relay.Joining.{opens, opened, join_stream}
use secure_access_relay.Storage.{Database}
use secure_access_relay.Storage.Tokens.{Token, consume_token}
use secure_access_relay.Storage.Tokens.SingleUse as SingleUse
use secure_access_relay.Storage.Tokens.SingleUse.{issues, tries, uses, used_once}
use secure_access_relay.Storage.Identities.{
  Identities, no_identities, Record, put_row, put_record, put_pending_serial,
}
use secure_access_relay.Storage.Ledger.{GrantRecord, SessionRecord, AuditEvent, Ledger, new_ledger}
use secure_access_relay.Storage.Ledger.Grants.{revoke_grant, zero_time}
use secure_access_relay.Storage.Ledger.Lasting as Lasting
use secure_access_relay.Storage.Ledger.Lasting.{records, revokes, appends}
use secure_access_relay.Control.Enrollment.{
  identity_scheme, role_device, Identity, Certificate, Csr, Control, enroll, verify_enrolled,
  identity_of,
}
use secure_access_relay.Control.Enrollment.Enrolled.{IsEnrolled, enroll-IsEnrolled}
use secure_access_relay.Control.Enrollment.Lifecycle as Lifecycle
use secure_access_relay.Control.Enrollment.Lifecycle.{
  Event, enrolls, renews, presents, status, active, promised_by,
}
use secure_access_relay.Control.Enrollment.Lifecycle.Presents.{run-promised}
use secure_access_relay.Control.Enrollment.Lifecycle.Retired.{
  IsAccepted, verify_enrolled_iff, renewal_retires,
}
use secure_access_relay.Control.Grants.{
  granted_ttl, event_grant_created, Issuer, Request, issue, state_of,
}
use secure_access_relay.Control.Grants.Issued.{IsIssued, issue-IsIssued}
use secure_access_relay.Control.Grants.Revoked.{revoked_never_joined}
use secure_access_relay.Control.Login.{
  reason_logout, event_logout, event_grant_revoked, Ending, end_session,
}
use secure_access_relay.Control.Login.Ended.{IsEnded, end_session-IsEnded}
use secure_access_relay.Tests.Grants.{toy, key, noon, issued}
use secure_access_relay.Tests.Joins.{relay}

abbrev pub works : Database
works = record { reads = true; writes = true }

-- The token itself stands for its hash.
abbrev pub plain : Bytes → Bytes
plain token = token

abbrev pub ticket : Token
ticket = record {
  hash = codes "t1";
  role = codes "device";
  id = codes "dev";
  issued_at = noon;
  expires_at = noon + 3600 * second;
  consumed_at = none;
}

used_once_example :
    uses
      (codes "t1")
      (SingleUse.run plain
        (issues works ticket
          ∷ tries works noon noon (codes "t1") ((codes "t1", ticket) ∷ [])
          ∷ tries works noon noon (codes "t1") ((codes "t1", ticket) ∷ [])
          ∷ [])
        (record { tokens = []; used = [] })).used
    ≤ 1
used_once_example =
    used_once plain (codes "t1")
      (issues works ticket
        ∷ tries works noon noon (codes "t1") ((codes "t1", ticket) ∷ [])
        ∷ tries works noon noon (codes "t1") ((codes "t1", ticket) ∷ [])
        ∷ [])
      []

abbrev device : Identity
device = record { role = codes "device"; id = codes "dev" }

abbrev pub request : Csr
request = record { is_well_formed = true; signature_good = true; is_ed25519 = true }

abbrev certificate : Bytes → Certificate
certificate serial = record {
  uris = record { scheme = codes "sar"; host = codes "device"; path = codes "/dev" } ∷ [];
  serial = serial;
}

abbrev empty : Control
empty = record { tokens = (codes "t1", ticket) ∷ []; identities = no_identities }

enroll_run :
    (enroll plain works works noon noon noon (codes "t1") request (some (codes "a1")) empty).1
    ≡ ok (certificate (codes "a1"))
unfolding enroll consume_token find bytes_eq identity_scheme
enroll_run = refl

enroll-IsEnrolled_example :
    IsEnrolled plain works noon noon
      (codes "t1")
      empty
      (enroll plain works works noon noon noon (codes "t1") request (some (codes "a1")) empty).0
      (certificate (codes "a1"))
enroll-IsEnrolled_example =
    enroll-IsEnrolled plain works works noon noon noon (codes "t1") request (some (codes "a1"))
      empty (certificate (codes "a1")) enroll_run

abbrev enrollment : Record
enrollment = record {
  role = codes "device";
  id = codes "dev";
  enrolled_at = noon;
  serial_hex = codes "a1";
  revoked_at = none;
  pending_serial_hex = [];
  pending_issued_at = none;
}

abbrev history : List Event
history =
    enrolls works enrollment ∷ renews works noon (codes "device") (codes "dev") (codes "b2") ∷ []

run-promised_example :
    status (Lifecycle.run history no_identities) (codes "device") (codes "dev")
    ≡ promised_by history
        (codes "device")
        (codes "dev")
        (status no_identities (codes "device") (codes "dev"))
run-promised_example = run-promised history no_identities (codes "device") (codes "dev")

unfoldable renewed_device : Identities
renewed_device = Lifecycle.run history no_identities

renewed_status :
    status renewed_device (codes "device") (codes "dev") ≡ active (codes "a1") (some (codes "b2"))
unfolding renewed_device Lifecycle.run put_record put_pending_serial status bytes_eq put_row
renewed_status = refl

named : identity_of (certificate (codes "b2")) ≡ ok device
unfolding identity_of bytes_eq identity_scheme role_device
named = refl

verify_run : (verify_enrolled works (certificate (codes "b2")) renewed_device).1 ≡ ok device
unfolding renewed_device Lifecycle.run put_record put_pending_serial verify_enrolled bytes_eq
    identity_scheme role_device put_row
verify_run = refl

verify_enrolled_iff_example : IsAccepted works (certificate (codes "b2")) renewed_device device
verify_enrolled_iff_example =
    (verify_enrolled_iff works (certificate (codes "b2")) renewed_device device refl refl).0
      verify_run

differs : bytes_eq (codes "a1") (codes "b2") ≡ false
unfolding bytes_eq
differs = refl

renewal_retires_example :
    ((verify_enrolled works (certificate (codes "b2")) renewed_device).1 ≡ ok device)
    × ((verify_enrolled works (certificate (codes "a1")) (
          Lifecycle.run
            (presents works (certificate (codes "a1")) ∷ [])
            (verify_enrolled works (certificate (codes "b2")) renewed_device).0)).1
        ≢ ok device)
renewal_retires_example =
    renewal_retires works works device (certificate (codes "b2")) (certificate (codes "a1"))
      renewed_device (presents works (certificate (codes "a1")) ∷ []) refl refl named renewed_status
      differs (refl, tt)

abbrev pub issuer : Issuer
issuer = record { key = key; key_id = codes "k1"; recording = true }

abbrev pub rules : List Rule
rules =
    record {
      policy_id = codes "p";
      principals = codes "alice" ∷ [];
      devices = codes "dev" ∷ [];
      resources = codes "ssh" ∷ [];
      max_ttl = nanoseconds (900 * second);
      effect = codes "allow";
    }
    ∷ []

abbrev asked : Request
asked = record {
  org_id = codes "o";
  user_id = codes "alice";
  device_id = codes "dev";
  resource_id = codes "ssh";
  requested_ttl = nanoseconds (600 * second);
  max_bytes = 0;
  session_id = [];
}

issue_run : (issue toy issuer works noon (some (codes "g1")) rules asked new_ledger).1 ≡ ok issued
unfolding issue new_ledger canonical bytes_eq effect_allow matches consider granted_ttl
    event_grant_created
issue_run = refl

issue-IsIssued_example :
    IsIssued toy issuer rules asked new_ledger
      (issue toy issuer works noon (some (codes "g1")) rules asked new_ledger).0
      issued
issue-IsIssued_example =
    issue-IsIssued toy issuer works noon rules asked new_ledger (some (codes "g1")) issued issue_run

-- A session of alice, with a grant.
abbrev pub session : SessionRecord
session = record {
  session_id = codes "s1";
  token_hash = codes "h1";
  user_id = codes "alice";
  created_at = noon;
  expires_at = noon + 3600 * second;
  revoked_at = none;
  remote = [];
}

abbrev pub grant_row : GrantRecord
grant_row = record {
  grant_id = codes "g1";
  org_id = codes "o";
  user_id = codes "alice";
  device_id = codes "dev";
  resource_id = codes "ssh";
  policy_id = codes "p";
  session_id = codes "s1";
  issued_at = noon;
  expires_at = noon + 600 * second;
  max_bytes = 0;
  revoked_at = none;
  revoke_reason = [];
}

unfoldable stored : Ledger
stored = record { grants = grant_row ∷ []; sessions = session ∷ []; trail = [] }

abbrev event : AuditEvent
event = record {
  time = none;
  event = codes "grant.revoked";
  org_id = [];
  actor_role = codes "admin";
  actor_id = codes "root";
  device_id = [];
  resource_id = [];
  grant_id = [];
  session_id = [];
  reason = [];
  detail = [];
}

abbrev calls : List Lasting.Event
calls = revokes works noon (codes "g1") (codes "leaver") event ∷ appends works noon event ∷ []

abbrev gone : GrantRecord
gone = record grant_row { revoked_at = some noon; revoke_reason = codes "leaver" }

revoke_run : (revoke_grant works noon (codes "g1") (codes "leaver") event stored).1 ≡ ok gone
unfolding revoke_grant stored bytes_eq
revoke_run = refl

read_run : decode_grant (encode_grant issued) ≡ ok issued
unfolding decode_grant encode_grant canonical take_string decode_tail
read_run = refl

revoked_never_joined_example : ¬ Memᴰ (opens (encode_grant issued)) (
    join_stream toy
      (record relay {
        grants = some (
            state_of works (
              Lasting.run calls
                (revoke_grant works noon (codes "g1") (codes "leaver") event stored).0));
      })
      (codes "dev")
      (codes "alice")
      noon
      opened
      false
      (encode_grant issued))
revoked_never_joined_example =
    revoked_never_joined works noon (codes "leaver") event stored gone calls works toy relay
      (codes "dev") (codes "alice") noon opened false (encode_grant issued) (encode_grant issued)
      issued read_run revoke_run refl

abbrev pub ending : Ending
ending = record { first_db = works; ended_at = noon; then_db = works; cut_at = noon }

abbrev cut : GrantRecord
cut = record gone {
  org_id = [];
  policy_id = [];
  issued_at = zero_time;
  revoke_reason = codes "logout";
}

end_run :
    (end_session works ending (codes "s1") (codes "alice") (codes "logout") stored).1
    ≡ ok (cut ∷ [])
unfolding end_session stored bytes_eq reason_logout event_logout event_grant_revoked
end_run = refl

end_session-IsEnded_example :
    IsEnded ending
      (codes "s1")
      (end_session works ending (codes "s1") (codes "alice") (codes "logout") stored).0
end_session-IsEnded_example =
    end_session-IsEnded works ending (codes "s1") (codes "alice") (codes "logout") stored (cut ∷ [])
      end_run
