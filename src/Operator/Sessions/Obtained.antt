-- ===== src/Operator/Sessions/Obtained.antt =====
-- What comes with a session that is kept or obtained (internal/operator/session.go, cmd/sarctl).
use mathlib.Core.List.Memᴰ.{Memᴰ}
use secure_access_relay.Common.{
  ℕ, Bool, Bool-cases, Bytes, bytes_eq→eq, List, [], ◌∷◌, ◌++◌, Option, none, some, ◌≡◌, refl, ◌⊎◌,
  inl, inr, All, arith,
}
use secure_access_relay.Common.Except.{Except, ok, err}
use secure_access_relay.Proto.Grant.{is_empty}
use secure_access_relay.Operator.Sessions.{
  Reply, ControlError, Sent, read_reply, post_control, LoginReply, Session, SessionError, is_usable,
  session_from, opened, login, SessionFile, absent, holds, load_session, save_session, Occasion,
  kept, ensure_session, login_kept,
}
use secure_access_relay.Operator.Sessions.Commands.{World, issued_by}

-- No token, or one that the addressee has issued.
abbrev pub Presentable : List Sent → Sent → Type 0
Presentable issued x = (x.token ≡ []) ⊎ Memᴰ x issued

abbrev pub Filed : List Sent → SessionFile → Type 0
Filed issued (holds s) = Memᴰ (record { address = s.control_addr; token = s.token }) issued
Filed issued _ = Unit {0}

pub record Inv (w : World) : Type 0 where
  pub filed : Filed w.issued w.file
  pub presentable : All (Presentable w.issued) w.sent

Memᴰ-after : (x : Sent) (new old : List Sent) → Memᴰ x old → Memᴰ x (new ++ old)
Memᴰ-after x [] old m = m
Memᴰ-after x (y ∷ new) old m = Memᴰ.tail (Memᴰ-after x new old m)

pub Presentable-after :
    (new old : List Sent) (log : List Sent)
    → All (Presentable old) log
    → All (Presentable (new ++ old)) log
Presentable-after new old [] a = tt
Presentable-after new old (x ∷ log) (inl e, a) = (inl e, Presentable-after new old log a)
Presentable-after new old (x ∷ log) (inr m, a) =
    (inr (Memᴰ-after x new old m), Presentable-after new old log a)

pub Filed-after :
    (new old : List Sent) (file : SessionFile) → Filed old file → Filed (new ++ old) file
Filed-after new old absent f = tt
Filed-after new old (holds s) f = Memᴰ-after _ new old f
Filed-after new old file f = tt

abbrev pub token_of : Session → Sent
token_of s = record { address = s.control_addr; token = s.token }

-- What a session comes with: the addressee has issued its token.
abbrev pub Got : Bytes → List Sent → Except SessionError Session → Type 0
Got address issued (err e) = Unit {0}
Got address issued (ok s) = (s.control_addr ≡ address) × Memᴰ (token_of s) issued

pub record IsLogin (address : Bytes) (reply : Option (Reply LoginReply)) (old : List Sent)
    (x : List Sent × Except SessionError Session) : Type 0 where
  pub bare : All (λ y. y.token ≡ []) x.0
  pub got : Got address (issued_by address x.0 reply ++ old) x.1

pub login-IsLogin :
    (address : Bytes) (reply : Option (Reply LoginReply)) (old : List Sent)
    → IsLogin address reply old (login address reply)
unfolding login post_control
login-IsLogin address reply old = elim (Bool-cases (is_empty address)) [
  | inl e ↦ rw e (record { bare = tt; got = tt })
  | inr e ↦ rw e (go (read_reply reply) refl)
]
  where
    log : List Sent
    log = record { address = address; token = [] } ∷ []

    go :
        (o : Except ControlError LoginReply)
        → read_reply reply ≡ o
        → IsLogin address reply old (opened address (log, o))
    go (err e) q = record { bare = (refl, tt); got = tt }
    go (ok r) q = go' r.expires_at refl
      where
        go' :
            (t : Option ℕ)
            → r.expires_at ≡ t
            → IsLogin address reply old (log, session_from address r t)
        go' none k = record { bare = (refl, tt); got = tt }
        go' (some t) k = record { bare = (refl, tt); got = (refl, rw q (Memᴰ.head refl)) }

pub record IsCall (address : Bytes) (reply : Option (Reply LoginReply)) (old : List Sent)
    (x : SessionFile × (List Sent × Except SessionError Session)) : Type 0 where
  pub filed : Filed (issued_by address x.1.0 reply ++ old) x.0
  pub bare : All (λ y. y.token ≡ []) x.1.0
  pub got : Got address (issued_by address x.1.0 reply ++ old) x.1.1

module _ (address : Bytes) (reply : Option (Reply LoginReply)) (old : List Sent) (saves : Bool)
    (file : SessionFile) (before : Filed old file) where
  kept-IsCall :
      (x : List Sent × Except SessionError Session)
      → IsLogin address reply old x
      → IsCall address reply old (kept saves file x)
  unfolding save_session
  kept-IsCall (log, err e) l = record {
    filed = Filed-after (issued_by address log reply) old file before;
    bare = l.bare;
    got = tt;
  }
  kept-IsCall (log, ok s) l = elim (Bool-cases saves) [
    | inl e ↦ rw e (record { filed = l.got.1; bare = l.bare; got = l.got })
    | inr e ↦ rw e (record {
      filed = Filed-after (issued_by address log reply) old file before;
      bare = l.bare;
      got = l.got;
    })
  ]

  pub login_kept-IsCall :
      (x : List Sent × Except SessionError Session)
      → IsLogin address reply old x
      → IsCall address reply old (login_kept saves file x)
  unfolding save_session
  login_kept-IsCall (log, err e) l = record {
    filed = Filed-after (issued_by address log reply) old file before;
    bare = l.bare;
    got = tt;
  }
  login_kept-IsCall (log, ok s) l = elim (Bool-cases saves) [
    | inl e ↦ rw e (record { filed = l.got.1; bare = l.bare; got = l.got })
    | inr e ↦ rw e (record {
      filed = Filed-after (issued_by address log reply) old file before;
      bare = l.bare;
      got = tt;
    })
  ]

pub ensure_session-IsCall :
    (address : Bytes) (o : Occasion) (old : List Sent) (file : SessionFile)
    → Filed old file
    → IsCall address o.reply old (ensure_session address o file)
unfolding ensure_session load_session is_usable
ensure_session-IsCall address o old (holds s) f = elim (Bool-cases (is_usable s address o.now)) [
  | inl u ↦
      let home : s.control_addr ≡ address = bytes_eq→eq s.control_addr address (ground arith) in
      rw u (record { filed = f; bare = tt; got = (home, f) })
  | inr u ↦ rw u (
      kept-IsCall address o.reply old o.saves (holds s) f (login address o.reply)
        (login-IsLogin address o.reply old))
]
ensure_session-IsCall address o old file f =
    kept-IsCall address o.reply old o.saves file f (login address o.reply)
      (login-IsLogin address o.reply old)
