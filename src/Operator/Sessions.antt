-- ===== src/Operator/Sessions.antt =====
-- internal/operator/session.go, cmd/sarctl: the session that is kept between commands.
pub mod Commands
pub mod Obtained
pub mod Presented
use secure_access_relay.Common.{
  ℕ, ◌+◌, ◌*◌, ltb, ◌==◌, not, ◌&&◌, Bool, true, false, if◌then◌else◌, Bytes, bytes_eq, List, [],
  ◌∷◌, ◌++◌, Option, none, some,
}
use secure_access_relay.Common.Except.{Except, ok, err}
use secure_access_relay.Proto.Grant.{is_empty, second}

-- What came back for a request: the status, whether the body could be decoded, and the body as far as
-- it was. Without an answer, the request failed.
pub record Reply {ℓ} (B : Type ℓ) : Type ℓ where
  pub status : ℕ
  pub decodes : Bool
  pub body : B
  pub message : Bytes

pub data ControlError : Type 0 where
  no_address unreachable undecodable : ControlError
  refused_saying : Bytes → ControlError
  refused_with : ℕ → ControlError

-- A request that was sent: to which address, and with which token, if any.
pub record Sent : Type 0 where
  pub address : Bytes
  pub token : Bytes

abbrev pub read_reply {ℓ} : {B : Type ℓ} → Option (Reply B) → Except ControlError B
read_reply none = err unreachable
read_reply (some r) =
    if not r.decodes && r.status == 200
    then err undecodable
    else if not (r.status == 200)
    then (if is_empty r.message
        then err (refused_with r.status)
        else err (refused_saying r.message))
    else ok r.body

-- `postControl`, with the request that it sends.
unfoldable pub post_control {ℓ} :
    {B : Type ℓ} → Bytes → Bytes → Option (Reply B) → List Sent × Except ControlError B
post_control address token reply =
    if is_empty address
    then ([], err no_address)
    else (record { address = address; token = token } ∷ [], read_reply reply)

-- `loginReply`; its time is `none` if it cannot be parsed.
pub record LoginReply : Type 0 where
  pub token : Bytes
  pub session_id : Bytes
  pub user_id : Bytes
  pub expires_at : Option ℕ

pub record Session : Type 0 where
  pub token : Bytes
  pub session_id : Bytes
  pub user_id : Bytes
  pub expires_at : ℕ
  pub control_addr : Bytes

abbrev pub session_refresh_margin : ℕ
session_refresh_margin = 120 * second

unfoldable pub is_usable : Session → Bytes → ℕ → Bool
is_usable s address now =
    not (is_empty s.token)
    && (bytes_eq s.control_addr address && ltb (now + session_refresh_margin) s.expires_at)

pub data SessionError : Type 0 where
  no_session unreadable unparseable_expiry unsaved : SessionError
  control : ControlError → SessionError

abbrev pub session_from : Bytes → LoginReply → Option ℕ → Except SessionError Session
session_from address r none = err unparseable_expiry
session_from address r (some t) = ok (record {
  token = r.token;
  session_id = r.session_id;
  user_id = r.user_id;
  expires_at = t;
  control_addr = address;
})

abbrev pub opened :
    Bytes → List Sent × Except ControlError LoginReply → List Sent × Except SessionError Session
opened address (log, err e) = (log, err (control e))
opened address (log, ok r) = (log, session_from address r r.expires_at)

-- `Login`.
unfoldable pub login : Bytes → Option (Reply LoginReply) → List Sent × Except SessionError Session
unfolding post_control
login address reply = opened address (post_control address [] reply)

-- The file of the session: it may be absent, not to be read, or hold what does not parse.
pub data SessionFile : Type 0 where
  absent locked garbled : SessionFile
  holds : Session → SessionFile

-- `LoadSession`.
unfoldable pub load_session : SessionFile → Except SessionError Session
load_session absent = err no_session
load_session locked = err unreadable
load_session garbled = err no_session
load_session (holds s) = ok s

-- `SaveSession`, which replaces the file or leaves it as it is.
unfoldable pub save_session :
    Bool → Session → SessionFile → SessionFile × Except SessionError Session
save_session saves s file = if saves then (holds s, ok s) else (file, err unsaved)

-- `ClearSession`.
unfoldable pub clear_session : Bool → SessionFile → SessionFile
clear_session removes file = if removes then absent else file

-- The clock, the answer to a login if there is one, and whether the file can be replaced.
pub record Occasion : Type 0 where
  pub now : ℕ
  pub reply : Option (Reply LoginReply)
  pub saves : Bool

abbrev pub kept :
    Bool
    → SessionFile
    → List Sent × Except SessionError Session
    → SessionFile × (List Sent × Except SessionError Session)
kept saves file (log, err e) = (file, (log, err e))
kept saves file (log, ok s) = ((save_session saves s file).0, (log, ok s))

abbrev pub reuse :
    Bytes
    → Occasion
    → SessionFile
    → Except SessionError Session
    → SessionFile × (List Sent × Except SessionError Session)
reuse address w file (err e) = kept w.saves file (login address w.reply)
reuse address w file (ok s) =
    if is_usable s address w.now
    then (file, ([], ok s))
    else kept w.saves file (login address w.reply)

-- `EnsureSession`: the file after it, what was sent, and the session.
unfoldable pub ensure_session :
    Bytes → Occasion → SessionFile → SessionFile × (List Sent × Except SessionError Session)
unfolding load_session login is_usable save_session
ensure_session address w file = reuse address w file (load_session file)

-- `cmdLogin`, which fails if the session cannot be kept.
abbrev pub login_kept :
    Bool
    → SessionFile
    → List Sent × Except SessionError Session
    → SessionFile × (List Sent × Except SessionError Session)
login_kept saves file (log, err e) = (file, (log, err e))
login_kept saves file (log, ok s) = let (file', r) = save_session saves s file in (file', (log, r))

unfoldable pub cmd_login :
    Bytes → Occasion → SessionFile → SessionFile × (List Sent × Except SessionError Session)
unfolding login save_session
cmd_login address w file = login_kept w.saves file (login address w.reply)

-- `Logout` of a session; the reply tells how many grants were revoked.
unfoldable pub logout : Bytes → Session → Option (Reply ℕ) → List Sent × Except ControlError ℕ
unfolding post_control
logout address s reply = post_control address s.token reply

abbrev pub logged_out : Bytes → Option (Reply ℕ) → Except SessionError Session → List Sent
logged_out address reply (err e) = []
logged_out address reply (ok s) = (logout address s reply).0

abbrev pub cleared : Bool → SessionFile → Except SessionError Session → SessionFile
cleared removes file (err e) = file
cleared removes file (ok s) = clear_session removes file

-- `cmdLogout`: the file after it, and what was sent.
unfoldable pub cmd_logout : Bytes → Option (Reply ℕ) → Bool → SessionFile → SessionFile × List Sent
unfolding load_session logout clear_session
cmd_logout address reply removes file =
    (cleared removes file (load_session file), logged_out address reply (load_session file))
