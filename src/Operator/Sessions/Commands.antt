-- ===== src/Operator/Sessions/Commands.antt =====
-- cmd/sarctl: the commands of an operator, one after another, and what each sends.
use secure_access_relay.Common.{ℕ, Bool, true, Bytes, bytes_eq, List, [], ◌∷◌, ◌++◌, Option, ◌≡◌}
use secure_access_relay.Common.Except.{Except, ok, err}
use secure_access_relay.Operator.Sessions.{
  Reply, ControlError, Sent, read_reply, LoginReply, Session, SessionError, SessionFile, holds,
  Occasion, ensure_session, cmd_login, cmd_logout,
}

-- What an operator does: a forward asks for the session before each grant and presents its token, and
-- the commands log in and log out, each for the control plane at an address.
pub data Command : Type 0 where
  connects logs_in : Bytes → Occasion → Command
  logs_out : Bytes → Option (Reply ℕ) → Bool → Command

-- The file, what was sent, and the tokens that logins were answered with, by whom.
pub record World : Type 0 where
  pub file : SessionFile
  pub sent : List Sent
  pub issued : List Sent

abbrev pub token_in : Bytes → Except ControlError LoginReply → List Sent
token_in address (err e) = []
token_in address (ok r) = record { address = address; token = r.token } ∷ []

-- Of a login, if one was sent.
abbrev pub issued_by : Bytes → List Sent → Option (Reply LoginReply) → List Sent
issued_by address [] reply = []
issued_by address (x ∷ log) reply = token_in address (read_reply reply)

-- The token that a grant is asked for with.
abbrev pub presents : Bytes → Except SessionError Session → List Sent
presents address (err e) = []
presents address (ok s) = record { address = address; token = s.token } ∷ []

abbrev pub after_call :
    Bytes
    → Occasion
    → World
    → SessionFile × (List Sent × Except SessionError Session)
    → List Sent
    → World
after_call address o w (file, (log, r)) more = record {
  file = file;
  sent = more ++ (log ++ w.sent);
  issued = issued_by address log o.reply ++ w.issued;
}

unfoldable pub step : Command → World → World
unfolding ensure_session cmd_login cmd_logout
step (connects address o) w =
    let x = ensure_session address o w.file in after_call address o w x (presents address x.1.1)
step (logs_in address o) w = after_call address o w (cmd_login address o w.file) []
step (logs_out address reply removes) w =
    let (file, log) = cmd_logout address reply removes w.file in
    record w { file = file; sent = log ++ w.sent }

unfoldable pub run : List Command → World → World
run [] w = w
run (c ∷ cs) w = run cs (step c w)

-- Whether a logout is addressed to the control plane of the session that is kept.
abbrev pub is_home : Bytes → SessionFile → Bool
is_home address (holds s) = bytes_eq s.control_addr address
is_home address _ = true

abbrev pub AtHome : List Command → World → Type 0
AtHome [] w = Unit {0}
AtHome (logs_out address reply removes ∷ cs) w =
    (is_home address w.file ≡ true) × AtHome cs (step (logs_out address reply removes) w)
AtHome (connects address o ∷ cs) w = AtHome cs (step (connects address o) w)
AtHome (logs_in address o ∷ cs) w = AtHome cs (step (logs_in address o) w)
