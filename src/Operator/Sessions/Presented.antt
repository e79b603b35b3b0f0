-- ===== src/Operator/Sessions/Presented.antt =====
-- To whom the token of a session is presented (internal/operator/session.go, cmd/sarctl).
use mathlib.Core.List.Memᴰ.{Memᴰ}
use secure_access_relay.Common.{
  ℕ, Bool, true, false, Bool-cases, Bytes, bytes_eq→eq, List, [], ◌∷◌, ◌++◌, Option, ◌≡◌, refl, inl,
  inr, All, All-append,
}
use secure_access_relay.Common.Except.{Except, ok, err}
use secure_access_relay.Proto.Grant.{is_empty}
use secure_access_relay.Operator.Sessions.{
  Reply, Sent, post_control, Session, SessionError, login, SessionFile, absent, holds, load_session,
  clear_session, Occasion, cmd_login, logout, cmd_logout,
}
use secure_access_relay.Operator.Sessions.Commands.{
  Command, connects, logs_in, logs_out, World, issued_by, presents, after_call, step, run, is_home,
  AtHome,
}
use secure_access_relay.Operator.Sessions.Obtained.{
  Presentable, Filed, Inv, Presentable-after, token_of, Got, IsCall, login-IsLogin,
  login_kept-IsCall, ensure_session-IsCall,
}

bare-Presentable :
    (issued : List Sent) (log : List Sent)
    → All (λ y. y.token ≡ []) log
    → All (Presentable issued) log
bare-Presentable issued [] b = tt
bare-Presentable issued (x ∷ log) (e, b) = (inl e, bare-Presentable issued log b)

presents-Presentable :
    (address : Bytes) (issued : List Sent) (r : Except SessionError Session)
    → Got address issued r
    → All (Presentable issued) (presents address r)
presents-Presentable address issued (err e) g = tt
presents-Presentable address issued (ok s) g = (inr (rw g.0 at g.1), tt)

after_call-Inv :
    (address : Bytes) (o : Occasion) (w : World)
    (x : SessionFile × (List Sent × Except SessionError Session)) (more : List Sent)
    → Inv w
    → IsCall address o.reply w.issued x
    → All (Presentable (issued_by address x.1.0 o.reply ++ w.issued)) more
    → Inv (after_call address o w x more)
after_call-Inv address o w (file, (log, r)) more i c a =
    let issued = issued_by address log o.reply ++ w.issued in
    record {
      filed = c.filed;
      presentable = All-append (Presentable issued) more (log ++ w.sent) a (
          All-append (Presentable issued) log w.sent (bare-Presentable issued log c.bare)
            (Presentable-after (issued_by address log o.reply) w.issued w.sent i.presentable));
    }

cleared-Filed :
    (removes : Bool) (s : Session) (issued : List Sent)
    → Filed issued (holds s)
    → Filed issued (clear_session removes (holds s))
unfolding clear_session
cleared-Filed true s issued k = tt
cleared-Filed false s issued k = k

logout-Presentable :
    (address : Bytes) (s : Session) (reply : Option (Reply ℕ)) (issued : List Sent)
    → s.control_addr ≡ address
    → Memᴰ (token_of s) issued
    → All (Presentable issued) (logout address s reply).0
unfolding logout post_control
logout-Presentable address s reply issued e k = elim (Bool-cases (is_empty address)) [
  | inl n ↦ rw n tt
  | inr n ↦ rw n (inr (rw e at k), tt)
]

logs_out-Inv :
    (address : Bytes) (reply : Option (Reply ℕ)) (removes : Bool) (w : World)
    → is_home address w.file ≡ true
    → Inv w
    → Inv (step (logs_out address reply removes) w)
unfolding step cmd_logout
logs_out-Inv address reply removes w h i = go w.file h i.filed
  where
    go :
        (f : SessionFile)
        → is_home address f ≡ true
        → Filed w.issued f
        → Inv (step (logs_out address reply removes) (record w { file = f }))
    go absent h k = record { filed = tt; presentable = i.presentable }
    go (holds s) h k = record {
      filed = cleared-Filed removes s w.issued k;
      presentable =
          All-append (Presentable w.issued) (logout address s reply).0 w.sent
            (logout-Presentable address s reply w.issued (bytes_eq→eq s.control_addr address h) k)
            i.presentable;
    }
    go f h k = record { filed = tt; presentable = i.presentable }

connects-Inv :
    (address : Bytes) (o : Occasion) (w : World) → Inv w → Inv (step (connects address o) w)
unfolding step
connects-Inv address o w i =
    let c = ensure_session-IsCall address o w.issued w.file i.filed in
    after_call-Inv address o w _ _ i c (presents-Presentable address _ _ c.got)

logs_in-Inv :
    (address : Bytes) (o : Occasion) (w : World) → Inv w → Inv (step (logs_in address o) w)
unfolding step cmd_login
logs_in-Inv address o w i =
    after_call-Inv address o w _ [] i
      (login_kept-IsCall address o.reply w.issued o.saves w.file i.filed (login address o.reply)
        (login-IsLogin address o.reply w.issued))
      tt

step-Inv :
    (c : Command) (cs : List Command) (w : World)
    → AtHome (c ∷ cs) w
    → Inv w
    → Inv (step c w) × AtHome cs (step c w)
step-Inv (logs_out address reply removes) cs w (h, a) i =
    (logs_out-Inv address reply removes w h i, a)
step-Inv (connects address o) cs w a i = (connects-Inv address o w i, a)
step-Inv (logs_in address o) cs w a i = (logs_in-Inv address o w i, a)

run-Inv : (cs : List Command) (w : World) → AtHome cs w → Inv w → Inv (run cs w)
unfolding run
run-Inv [] w a i = i
run-Inv (c ∷ cs) w a i = let (j, b) = step-Inv c cs w a i in run-Inv cs (step c w) b j

abbrev pub outset : World
outset = record { file = absent; sent = []; issued = [] }

-- As long as every logout is addressed to the control plane of the session that is kept, whatever the
-- control planes answer, a token is only ever sent to one that has issued it.
pub run-Presentable :
    (cs : List Command)
    → AtHome cs outset
    → All (Presentable (run cs outset).issued) (run cs outset).sent
run-Presentable cs a = (run-Inv cs outset a (record { filed = tt; presentable = tt })).presentable

-- A logout sends the token of the session that is kept to whatever address it is given.
pub logout-presents :
    (address : Bytes) (reply : Option (Reply ℕ)) (removes : Bool) (s : Session)
    → is_empty address ≡ false
    → (cmd_logout address reply removes (holds s)).1
      ≡ record { address = address; token = s.token } ∷ []
unfolding cmd_logout logout post_control load_session
logout-presents address reply removes s e = rw e refl
