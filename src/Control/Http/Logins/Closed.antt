-- ===== src/Control/Http/Logins/Closed.antt =====
-- What a logout takes away, and whose (internal/control/httpapi/login.go).
use secure_access_relay.Common.{
  ℕ, Bool, true, false, Bool-cases, Bytes, bytes_eq, bytes_eq→eq, length, List, [], ◌∷◌, ◌++◌,
  Option, none, some, ◌≡◌, refl, sym, ap, ◌⊎◌, inl, inr, subst,
}
use mathlib.Core.List.Memᴰ.{Memᴰ}
use secure_access_relay.Common.Except.{Except, ok, err, ok_injective}
use secure_access_relay.Storage.{Database, StoreError}
use secure_access_relay.Storage.Ledger.{GrantRecord, SessionRecord, Ledger}
use secure_access_relay.Control.Enrollment.{Identity}
use secure_access_relay.Control.Login.{Ending, end_session, reason_logout}
use secure_access_relay.Control.Login.Ended.{IsEnded, end_session-IsEnded}
use secure_access_relay.Control.Http.{
  Server, Plane, Request, Refusal, Checks, with_ledger, bearer_token, authenticate_operator,
}
use secure_access_relay.Control.Http.Callers.{
  IsOperator, authenticate_operator-IsOperator, IsOwn, resolve-ok,
}
use secure_access_relay.Control.Http.Logins.Told.{under, end_session-Answers}
use secure_access_relay.Control.Http.Logins.{
  LogoutAnswer, grant_ids, drop_revoked, logged_out, ended_by, for_caller, with_sessions,
  handle_logout,
}

-- The relay is told of the grants that were revoked, if there are any and it can be told.
pub IsDropped : Bool → List GrantRecord → List (List Bytes) → List (List Bytes) → Type 0
IsDropped terminates [] before after = after ≡ before
IsDropped false (g ∷ gs) before after = after ≡ before
IsDropped true (g ∷ gs) before after = after ≡ before ++ grant_ids (g ∷ gs) ∷ []

drop_revoked-IsDropped :
    (s : Server) (gs : List GrantRecord) (p : Plane)
    → (IsDropped s.terminates gs p.terminated (drop_revoked s gs p).terminated)
      × ((drop_revoked s gs p).ledger ≡ p.ledger)
unfolding drop_revoked IsDropped
drop_revoked-IsDropped s [] p = (refl, refl)
drop_revoked-IsDropped s (g ∷ gs) p = go s.terminates refl
  where
    go :
        (b : Bool)
        → s.terminates ≡ b
        → (IsDropped b (g ∷ gs) p.terminated (drop_revoked s (g ∷ gs) p).terminated)
          × ((drop_revoked s (g ∷ gs) p).ledger ≡ p.ledger)
    go true e = rw e (refl, refl)
    go false e = rw e (refl, refl)

pub told_of :
    (gs : List GrantRecord) (ids : List Bytes) (g : Bytes) (before after : List (List Bytes))
    → grant_ids gs ≡ ids
    → Memᴰ g ids
    → IsDropped true gs before after
    → after ≡ before ++ ids ∷ []
unfolding IsDropped grant_ids
told_of [] ids g before after e m d =
    let no_id : Memᴰ {A = Bytes} g [] = subst (λ z. Memᴰ g z) (sym e) m in elim no_id [ ]
told_of (h ∷ gs) ids g before after e m d = rw⁻¹ e d

-- A logout that has ended a session: it was the caller's own, it is over, with every grant that was
-- issued under it and has time left, and the relay has been told of those grants.
pub record IsClosed (hash_token : Bytes → Bytes) (at : ℕ) (token user_id : Bytes)
    (terminates : Bool) (e : Ending) (p p' : Plane) (a : LogoutAnswer) : Type 0 where
  pub own : IsOwn hash_token at token user_id a.session_id p.ledger
  pub ended : IsEnded e a.session_id p'.ledger
  pub revoked : List GrantRecord
  pub counted : a.grants_revoked ≡ length revoked
  pub complete : grant_ids revoked ≡ grant_ids (under e a.session_id p.ledger)
  pub dropped : IsDropped terminates revoked p.terminated p'.terminated

-- Or there was no session to end, and nothing was ended.
abbrev pub Closed :
    (Bytes → Bytes)
    → Checks
    → Server
    → Bytes
    → Bytes
    → Ending
    → Plane
    → Plane
    → LogoutAnswer
    → Type 0
Closed hash_token w s token user_id e p p' a =
    ((a.session_id ≡ []) × (p'.ledger ≡ p.ledger) × (p'.terminated ≡ p.terminated))
    ⊎ IsClosed hash_token w.resolved_at token user_id s.terminates e p p' a

module _ (hash_token : Bytes → Bytes) (s : Server) (w : Checks) (db : Database) (e : Ending)
    (r : Request (Unit {0})) (p known : Plane) (id : Identity) (a : LogoutAnswer)
    (ledger : known.ledger ≡ p.ledger) (told : known.terminated ≡ p.terminated) where
  abbrev token : Bytes
  token = bearer_token r.authorization

  logged_out-IsClosed :
      (rec : SessionRecord)
      → IsOwn hash_token w.resolved_at token id.id rec.session_id p.ledger
      → (logged_out s rec.session_id known
          (end_session db e rec.session_id id.id reason_logout known.ledger)).1
        ≡ ok a
      → IsClosed hash_token w.resolved_at token id.id s.terminates e p
          (logged_out s rec.session_id known
            (end_session db e rec.session_id id.id reason_logout known.ledger)).0
          a
  logged_out-IsClosed rec own = go _ refl
    where
      x : Ledger × Except StoreError (List GrantRecord)
      x = end_session db e rec.session_id id.id reason_logout known.ledger

      go :
          (y : Ledger × Except StoreError (List GrantRecord))
          → x ≡ y
          → (logged_out s rec.session_id known y).1 ≡ ok a
          → IsClosed hash_token w.resolved_at token id.id s.terminates e p
              (logged_out s rec.session_id known y).0
              a
      go (l, err z) q h = absurd (cc h)
      go (l, ok gs) q h =
          let (dropped, same) = drop_revoked-IsDropped s gs (with_ledger known l) in
          rw⁻¹ (ok_injective h) (record {
            own = own;
            ended = rw same (
                rw (ap (λ z. z.0) q) at (
                  end_session-IsEnded db e rec.session_id id.id reason_logout known.ledger gs
                    (ap (λ z. z.1) q)));
            revoked = gs;
            counted = refl;
            complete = rw ledger at (
                end_session-Answers db e rec.session_id id.id reason_logout known.ledger gs
                  (ap (λ z. z.1) q));
            dropped =
                subst
                  (λ z.
                    IsDropped s.terminates gs z
                      (drop_revoked s gs (with_ledger known l)).terminated)
                  told dropped;
          })

  ended_by-Closed :
      (o : Except StoreError SessionRecord)
      → ((rec : SessionRecord)
          → o ≡ ok rec
          → IsOwn hash_token w.resolved_at token rec.user_id rec.session_id p.ledger)
      → (ended_by s db e id known o).1 ≡ ok a
      → Closed hash_token w s token id.id e p (ended_by s db e id known o).0 a
  ended_by-Closed (err z) f h = rw⁻¹ (ok_injective h) (inl (refl, ledger, told))
  ended_by-Closed (ok rec) f h = elim (Bool-cases (bytes_eq rec.user_id id.id)) [
    | inr n ↦ absurd (cc (rw n at h))
    | inl y ↦
        let own = rw (bytes_eq→eq rec.user_id id.id y) at (f rec refl) in
        rw y (inr (logged_out-IsClosed rec own (rw y at h)))
  ]

-- Of a logout that was answered, for an operator who was recognised.
pub record IsLoggedOut (hash_token : Bytes → Bytes) (s : Server) (w : Checks) (e : Ending)
    (r : Request (Unit {0})) (p p' : Plane) (a : LogoutAnswer) : Type 0 where
  pub operator : Identity
  pub known : Plane
  pub authenticated : IsOperator w.verify_db r.certificate p known operator
  pub closed : Closed hash_token w s (bearer_token r.authorization) operator.id e p p' a

module _ (hash_token : Bytes → Bytes) (s : Server) (w : Checks) (db : Database) (e : Ending)
    (r : Request (Unit {0})) (p : Plane) (a : LogoutAnswer) where
  for_caller-IsLoggedOut :
      (x : Plane × Except Refusal Identity)
      → ((id : Identity) → x.1 ≡ ok id → IsOperator w.verify_db r.certificate p x.0 id)
      → (for_caller hash_token s w db e r x).1 ≡ ok a
      → IsLoggedOut hash_token s w e r p (for_caller hash_token s w db e r x).0 a
  for_caller-IsLoggedOut (known, err y) f h = absurd (cc h)
  for_caller-IsLoggedOut (known, ok id) f h =
      let auth = f id refl in
      let same : known.ledger ≡ p.ledger = rw auth.promoted refl in
      record {
        operator = id;
        known = known;
        authenticated = auth;
        closed =
            ended_by-Closed hash_token s w db e r p known id a same (rw auth.promoted refl) _
              (λ rec q. rw same at (
                resolve-ok hash_token w.resolve_db w.resolved_at (bearer_token r.authorization)
                  known.ledger rec q))
              h;
      }

  -- A logout that is answered comes from an operator who was recognised. It ends nothing, or a session
  -- of that very operator, whose token it bears: then the session is over, no grant that was issued
  -- under it and has time left is without its revocation, and the relay has been told of all of them,
  -- if it can be told.
  pub handle_logout-IsLoggedOut :
      (handle_logout hash_token s w db e r p).1 ≡ ok a
      → IsLoggedOut hash_token s w e r p (handle_logout hash_token s w db e r p).0 a
  unfolding handle_logout
  handle_logout-IsLoggedOut = go s.session_lifetime
    where
      go :
          (o : Option ℕ)
          → (with_sessions hash_token s w db e r p o).1 ≡ ok a
          → IsLoggedOut hash_token s w e r p (with_sessions hash_token s w db e r p o).0 a
      go none h = absurd (cc h)
      go (some ttl) h =
          for_caller-IsLoggedOut (authenticate_operator s w [] r p)
            (authenticate_operator-IsOperator s w [] r p) h
