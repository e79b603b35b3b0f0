-- ===== src/Mux/Session/Teardown.antt =====
-- How a session ends (internal/mux/session.go, `Close` and `shutdown`).
use secure_access_relay.Common.{
  ℕ, ◌==◌, true, false, [], ◌∷◌, Option, none, some, ◌≡◌, refl, ◌∙◌, ap, arith, inl, inr,
  Bool-cases, Option-cases, if_intro, ==_refl,
}
use secure_access_relay.Common.Table.{Table, lookup, lookup-insert}
use secure_access_relay.Proto.Reason.{Reason}
use secure_access_relay.Mux.Stream.{Stream, kill}
use secure_access_relay.Mux.Session.{
  Session, MuxError, session_closed, set_err, killed, kill_all, answer, answer_all, end_session,
  close, shutdown, write_error, write_out,
}

-- The stream object `h` has ended.
abbrev pub HasEnded : Table Stream → ℕ → Type 0
HasEnded objects h = (st : Stream) × (lookup h objects ≡ some st) × (st.is_reset ≡ true)

abbrev pub Exists : Table Stream → ℕ → Type 0
Exists objects h = (st : Stream) × (lookup h objects ≡ some st)

kill_ends : (r : Reason) (st : Stream) → (kill r st).is_reset ≡ true
unfolding kill
kill_ends r st = ground arith

killed-HasEnded :
    (r : Reason) (o : Option Stream) (h j : ℕ) (objects : Table Stream)
    → HasEnded objects j
    → HasEnded (killed r o h objects) j
killed-HasEnded r none h j objects e = e
killed-HasEnded r (some st) h j objects (was, at, ended) = elim (Bool-cases (h == j)) [
  | inl same ↦ (kill r st, lookup-insert h j (kill r st) objects ∙ rw same refl, kill_ends r st)
  | inr other ↦ (was, lookup-insert h j (kill r st) objects ∙ rw other at, ended)
]

killed_self :
    (r : Reason) (h : ℕ) (objects : Table Stream)
    → Exists objects h
    → HasEnded (killed r (lookup h objects) h objects) h
killed_self r h objects (st, e) =
    rw e (kill r st, lookup-insert h h (kill r st) objects ∙ rw (==_refl h) refl, kill_ends r st)

killed-Exists :
    (r : Reason) (o : Option Stream) (h j : ℕ) (objects : Table Stream)
    → Exists objects j
    → Exists (killed r o h objects) j
killed-Exists r none h j objects e = e
killed-Exists r (some st) h j objects (was, at) = elim (Bool-cases (h == j)) [
  | inl same ↦ (kill r st, lookup-insert h j (kill r st) objects ∙ rw same refl)
  | inr other ↦ (was, lookup-insert h j (kill r st) objects ∙ rw other at)
]

kill_all-HasEnded :
    (r : Reason) (t : Table ℕ) (objects : Table Stream) (h : ℕ)
    → HasEnded objects h
    → HasEnded (kill_all r t objects) h
unfolding kill_all
kill_all-HasEnded r [] objects h e = e
kill_all-HasEnded r ((id, j) ∷ t) objects h e =
    kill_all-HasEnded r t _ h (killed-HasEnded r (lookup j objects) j h objects e)

kill_all-ends :
    (r : Reason) (t : Table ℕ) (objects : Table Stream) (id h : ℕ)
    → lookup id t ≡ some h
    → Exists objects h
    → HasEnded (kill_all r t objects) h
unfolding kill_all lookup
kill_all-ends r [] objects id h e x = absurd (ground arith)
kill_all-ends r ((i, j) ∷ t) objects id h e x = elim (Bool-cases (i == id)) [
  | inl here ↦
      let same : j ≡ h = ground arith in
      rw same (kill_all-HasEnded r t _ h (killed_self r h objects x))
  | inr there ↦
      kill_all-ends r t _ id h (ground arith) (killed-Exists r (lookup j objects) j h objects x)
]

-- An answer is never taken back, and the first one stays.
abbrev pub IsAnswered : Table Reason → ℕ → Type 0
IsAnswered t h = (r : Reason) × (lookup h t ≡ some r)

answer-IsAnswered :
    (r : Reason) (h j : ℕ) (t : Table Reason) → IsAnswered t j → IsAnswered (answer h r t) j
unfolding answer
answer-IsAnswered r h j t (q, e) = elim (Option-cases (lookup h t)) [
  | inl n ↦
      rw (n, answer)
        (elim (Bool-cases (h == j)) [
          | inl same ↦ (r, lookup-insert h j r t ∙ rw same refl)
          | inr other ↦ (q, lookup-insert h j r t ∙ rw other e)
        ])
  | inr (p, s) ↦ rw (s, answer) (q, e)
]

answer_self : (r : Reason) (h : ℕ) (t : Table Reason) → IsAnswered (answer h r t) h
unfolding answer
answer_self r h t = elim (Option-cases (lookup h t)) [
  | inl n ↦ rw (n, answer) (r, lookup-insert h h r t ∙ rw (==_refl h) refl)
  | inr (p, s) ↦ rw (s, answer) (p, s)
]

answer_all-keeps :
    (r : Reason) (p : Table ℕ) (t : Table Reason) (h : ℕ)
    → IsAnswered t h
    → IsAnswered (answer_all r p t) h
unfolding answer_all
answer_all-keeps r [] t h e = e
answer_all-keeps r ((id, j) ∷ p) t h e = answer_all-keeps r p _ h (answer-IsAnswered r j h t e)

answer_all-answers :
    (r : Reason) (p : Table ℕ) (t : Table Reason) (id h : ℕ)
    → lookup id p ≡ some h
    → IsAnswered (answer_all r p t) h
unfolding answer_all lookup
answer_all-answers r [] t id h e = absurd (ground arith)
answer_all-answers r ((i, j) ∷ p) t id h e = elim (Bool-cases (i == id)) [
  | inl here ↦
      let same : j ≡ h = ground arith in rw same (answer_all-keeps r p _ h (answer_self r h t))
  | inr there ↦ answer_all-answers r p _ id h (ground arith)
]

-- What has become of a session that has ended.
pub record IsOver (s t : Session) : Type 0 where
  pub done : t.done ≡ true
  pub no_streams : t.streams ≡ []
  pub no_pending : t.pending ≡ []
  pub streams_ended :
      (id h : ℕ) → lookup id s.streams ≡ some h → Exists s.objects h → HasEnded t.objects h
  pub opens_answered : (id h : ℕ) → lookup id s.pending ≡ some h → IsAnswered t.answers h

-- The tables of streams and opens are those of another session.
pub record SameTables (s t : Session) : Type 0 where
  pub streams : t.streams ≡ s.streams
  pub objects : t.objects ≡ s.objects
  pub pending : t.pending ≡ s.pending
  pub done : t.done ≡ s.done

end_session-IsOver : (r : Reason) (s t : Session) → SameTables s t → IsOver s (end_session r t)
unfolding end_session
end_session-IsOver r s t k = record {
  done = refl;
  no_streams = refl;
  no_pending = refl;
  streams_ended = λ id h e x.
      kill_all-ends r t.streams t.objects id h (ap (lookup id) k.streams ∙ e)
        (x.0, ap (lookup h) k.objects ∙ x.1);
  opens_answered =
      λ id h e. answer_all-answers r t.pending t.answers id h (ap (lookup id) k.pending ∙ e);
}

set_err-SameTables : (e : MuxError) (s : Session) → SameTables s (set_err e s)
unfolding set_err
set_err-SameTables e s = ground arith

write_error-SameTables :
    (r : Reason) (s t : Session) → SameTables s t → SameTables s (write_error r t)
unfolding write_error write_out
write_error-SameTables r s t k = ground arith

-- `Close` and `shutdown` on a live session end every stream and answer every open that waits, so
-- that no caller stays blocked on it.
pub close-IsOver :
    (r : Reason) (s : Session) → s.done ≡ false → IsOver s (close r s) × IsOver s (shutdown r s)
unfolding close shutdown
close-IsOver r s live = (
  if_intro (IsOver s) s.done (λ d. absurd (cc))
      (λ _.
        end_session-IsOver r s _
          (write_error-SameTables r s _ (set_err-SameTables (session_closed (some r)) s))),
  if_intro (IsOver s) s.done (λ d. absurd (cc))
      (λ _.
        end_session-IsOver r s s
          (record { streams = refl; objects = refl; pending = refl; done = refl })),
)
