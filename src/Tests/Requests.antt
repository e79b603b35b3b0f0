-- ===== src/Tests/Requests.antt =====
-- Requests to the control plane (internal/control/httpapi).
use mathlib.Core.List.Memᴰ.{Memᴰ}
use secure_access_relay.Common.{
  ◌+◌, ◌*◌, true, codes, Bytes, bytes_eq, List, [], ◌∷◌, ◌++◌, none, some, ◌≡◌, ◌≢◌, ◌↔◌, refl,
  arith,
}
use secure_access_relay.Common.Except.{ok}
use secure_access_relay.Common.Named.{find}
use secure_access_relay.Common.Text.{trim_space, equal_fold}
use secure_access_relay.Proto.Grant.{Grant, second, canonical, encode_grant}
use secure_access_relay.Proto.Reason.{Reason}
use secure_access_relay.Control.Policy.{consider, matches, effect_allow}
use secure_access_relay.Relay.Live.{LiveStreams, Pair, pairs, streams_of, terminate, count_for}
use secure_access_relay.Storage.Identities.{Identities, no_identities, Record, put_row}
use secure_access_relay.Storage.Ledger.{select, SessionRecord}
use secure_access_relay.Control.Enrollment.{
  Identity, Certificate, Control, identity_scheme, role_device, role_operator,
}
use secure_access_relay.Control.Grants.{granted_ttl, event_grant_created}
use secure_access_relay.Control.Login.{resolve, event_login, event_logout, event_grant_revoked}
use secure_access_relay.Control.Http.{
  Server, Plane, Request, Checks, bearer_prefix, bearer_token, require_session,
}
use secure_access_relay.Control.Http.Granting.{
  GrantAsk, GrantAnswer, Issuance, asked_ttl, handle_grant,
}
use secure_access_relay.Control.Http.Granting.Granted.{IsGranted, handle_grant-IsGranted}
use secure_access_relay.Control.Http.Logins.{
  LoginAnswer, LogoutAnswer, Opening, handle_login, handle_logout,
}
use secure_access_relay.Control.Http.Logins.Told.{under}
use secure_access_relay.Control.Http.Logins.Opened.{require_session-handle_login}
use secure_access_relay.Control.Http.Logins.Closed.{IsLoggedOut, handle_logout-IsLoggedOut}
use secure_access_relay.Control.Http.Logins.Reset.{handle_logout-terminate}
use secure_access_relay.Control.Http.Enrolling.{EnrollAsk, Signing, handle_enroll}
use secure_access_relay.Control.Http.Enrolling.Refused.{
  IsSpent, token_refused, handle_enroll-token_refused,
}
use secure_access_relay.Tests.Grants.{toy, key, noon, issued}
use secure_access_relay.Tests.Controls.{
  works, plain, issuer, rules, session, grant_row, request, ending, ticket,
}

abbrev operator_row : Record
operator_row = record {
  role = codes "operator";
  id = codes "alice";
  enrolled_at = noon;
  serial_hex = codes "c3";
  revoked_at = none;
  pending_serial_hex = [];
  pending_issued_at = none;
}

abbrev shown : Certificate
shown = record {
  uris = record { scheme = codes "sar"; host = codes "operator"; path = codes "/alice" } ∷ [];
  serial = codes "c3";
}

unfoldable enrolled : Identities
enrolled = put_row (codes "operator") (codes "alice") operator_row no_identities

abbrev server : Server
server = record {
  issuer = some issuer;
  session_lifetime = some (3600 * second);
  auditing = true;
  terminates = true;
  rules = rules;
}

abbrev checks : Checks
checks = record {
  verify_db = works;
  denial = record { database = works; at = noon };
  resolve_db = works;
  resolved_at = noon;
}

abbrev control : Control
control = record { tokens = (codes "t1", ticket) ∷ []; identities = enrolled }

-- Alice holds the session whose token is "h1".
unfoldable plane : Plane
plane = record {
  control = control;
  ledger = record { grants = []; sessions = session ∷ []; trail = [] };
  terminated = [];
}

abbrev wanted : Request GrantAsk
wanted = record {
  certificate = some shown;
  authorization = codes "Bearer h1";
  remote = codes "192.0.2.7";
  body = some (record { device_id = codes "dev"; resource_id = codes "ssh"; ttl_seconds = 600 });
}

abbrev issuance : Issuance
issuance = record { issue_db = works; issued_at = noon; drawn = some (codes "g1") }

abbrev unnamed_org : Grant
unnamed_org = record issued.grant { org_id = [] }

abbrev answer : GrantAnswer
answer = record {
  grant =
      encode_grant
        (record { grant = unnamed_org; signature = toy.sign key (canonical unnamed_org) });
  grant_id = codes "g1";
  expires_at = noon + 600 * second;
  policy_id = codes "p";
  session_id = codes "s1";
}

grant_run : (handle_grant toy plain server checks issuance wanted plane).1 ≡ ok answer
unfolding handle_grant plane enrolled canonical bytes_eq effect_allow matches consider granted_ttl
    event_grant_created bearer_token bearer_prefix equal_fold trim_space resolve identity_scheme
    role_device put_row asked_ttl encode_grant role_operator
grant_run = refl

handle_grant-IsGranted_example :
    IsGranted toy plain server checks issuance wanted plane
      (handle_grant toy plain server checks issuance wanted plane).0
      answer
handle_grant-IsGranted_example =
    handle_grant-IsGranted toy plain server checks issuance wanted plane answer grant_run

abbrev caller : Request (Unit {0})
caller = record {
  certificate = some shown;
  authorization = codes "Bearer h1";
  remote = codes "192.0.2.7";
  body = none;
}

abbrev opening : Opening
opening = record { begin_db = works; begun_at = noon; drawn = some (codes "h2", codes "s2") }

abbrev welcome : LoginAnswer
welcome = record {
  token = codes "h2";
  session_id = codes "s2";
  user_id = codes "alice";
  expires_at = noon + 3600 * second;
}

login_run : (handle_login plain server checks opening caller plane).1 ≡ ok welcome
unfolding handle_login plane enrolled bytes_eq identity_scheme role_device put_row role_operator
    event_login
login_run = refl

trimmed : trim_space (codes "h2") ≡ codes "h2"
unfolding trim_space
trimmed = refl

abbrev alice : Identity
alice = record { role = codes "operator"; id = codes "alice" }

require_session-handle_login_example :
    (x : SessionRecord) × (require_session plain checks
        (bearer_token (bearer_prefix ++ codes "h2"))
        alice
        (handle_login plain server checks opening caller plane).0.ledger
      ≡ ok x)
    × (x.session_id ≡ codes "s2")
    × (x.user_id ≡ codes "alice")
require_session-handle_login_example =
    require_session-handle_login plain server checks checks opening caller plane welcome alice
      login_run refl trimmed refl refl (omega arith)

-- Alice has a grant under her session, and a stream under the grant.
unfoldable busy : Plane
busy = record {
  control = control;
  ledger = record { grants = grant_row ∷ []; sessions = session ∷ []; trail = [] };
  terminated = [];
}

abbrev goodbye : LogoutAnswer
goodbye = record { session_id = codes "s1"; grants_revoked = 1 }

logout_run : (handle_logout plain server checks works ending caller busy).1 ≡ ok goodbye
unfolding handle_logout busy enrolled bytes_eq identity_scheme role_device put_row role_operator
    bearer_token bearer_prefix equal_fold trim_space resolve event_logout event_grant_revoked
logout_run = refl

handle_logout-IsLoggedOut_example :
    IsLoggedOut plain server checks ending caller busy
      (handle_logout plain server checks works ending caller busy).0
      goodbye
handle_logout-IsLoggedOut_example =
    handle_logout-IsLoggedOut plain server checks works ending caller busy goodbye logout_run

abbrev pair : Pair
pair = record { operator = 1; agent = 2 }

abbrev live : LiveStreams
live = record { next_id = 1; by_grant = (codes "g1", (0, pair) ∷ []) ∷ [] }

under_session : Memᴰ grant_row (under ending (codes "s1") busy.ledger)
unfolding busy bytes_eq select
under_session = Memᴰ.head refl

running : Memᴰ pair (pairs (streams_of (codes "g1") live))
unfolding streams_of bytes_eq find
running = Memᴰ.head refl

some_session : codes "s1" ≢ []
some_session h = cc h

handle_logout-terminate_example :
    (ids : List Bytes) × ((handle_logout plain server checks works ending caller busy).0.terminated
      ≡ busy.terminated ++ ids ∷ [])
    × Memᴰ (1, Reason.policy_denied) (terminate ids Reason.policy_denied live).calls
    × Memᴰ (2, Reason.policy_denied) (terminate ids Reason.policy_denied live).calls
    × (count_for (codes "g1") (terminate ids Reason.policy_denied live).live ≡ 0)
handle_logout-terminate_example =
    handle_logout-terminate plain server checks works ending caller busy goodbye grant_row
      Reason.policy_denied live pair logout_run some_session refl under_session running

abbrev signing : Signing
signing = record {
  first_db = works;
  then_db = works;
  checked_at = noon;
  consumed_at = noon;
  signed_at = noon;
  serial = some (codes "a1");
  occasion = record { database = works; at = noon };
  valid_until = codes "2025-01-31T00:00:00Z";
}

abbrev ask : EnrollAsk
ask = record { token = codes "t1"; csr = request }

abbrev enrolling : Request EnrollAsk
enrolling = record { certificate = none; authorization = []; remote = []; body = some ask }

-- The clock is read when the time of the token is over.
abbrev belated : Signing
belated = record signing { checked_at = ticket.expires_at + 1 }

handle_enroll-token_refused_example :
    ((handle_enroll plain server belated enrolling plane).1 ≡ token_refused)
    ↔ ((works.reads ≡ true) × IsSpent belated.checked_at (find (codes "t1") plane.control.tokens))
handle_enroll-token_refused_example =
    handle_enroll-token_refused plain server belated enrolling plane ask refl
