-- ===== src/Control/Login/Ended.antt =====
-- A session that began resolves, and its end takes its grants (internal/control/login/login.go).
use secure_access_relay.Common.{
  ℕ, ◌≤◌, ◌<◌, not, ◌&&◌, Bool, true, false, Bool-cases, if_intro, Bytes, bytes_eq→eq, List, [],
  ◌∷◌, All, Option, none, some, ◌≡◌, refl, sym, ◌∙◌, ap, subst, inl, inr, arith,
}
use secure_access_relay.Common.Except.{Except, ok, err, ok_injective}
use secure_access_relay.Proto.Grant.{is_empty}
use secure_access_relay.Control.Policy.{Duration, nanoseconds, negative}
use secure_access_relay.Storage.{Database, StoreError, stored, is_set}
use secure_access_relay.Storage.Ledger.{
  GrantRecord, SessionRecord, AuditEvent, Ledger, first, select, update, is_session,
}
use secure_access_relay.Storage.Ledger.Grants.{
  GrantScope, scope_session, in_scope, is_affected, revoked_row, revoke_selected,
  revoke_grants_where,
}
use secure_access_relay.Storage.Ledger.Sessions.{
  lookup_session_by_id, read_session, revoke_session, revoke_read_session,
}
use secure_access_relay.Storage.Ledger.Rows.{
  first-holds, returned-none, commit_with-none, first-update,
}
use secure_access_relay.Control.Login.{
  max_ttl, session_ttl, Ending, after_end, after_owner, end_session, event_by, event_grant_revoked,
  event_for_reason, actor_role,
}

-- The lifetime of a session is never without bound.
pub session_ttl_bounds : (d : Duration) → (0 < session_ttl d) × (session_ttl d ≤ max_ttl)
unfolding session_ttl
session_ttl_bounds (negative n) = (omega arith, omega arith)
session_ttl_bounds (nanoseconds n) = ground arith

-- Rows that a WHERE selects are updated, and no others.
update-All :
    {A : Type 0} (P : A → Type 0) (q : A → Bool) (f : A → A) (rows : List A)
    → ((r : A) → q r ≡ true → P (f r))
    → ((r : A) → q r ≡ false → P r)
    → All P (update q f rows)
unfolding update
update-All P q f [] hit miss = tt
update-All P q f (r ∷ rows) hit miss =
    (if_intro P (q r) (hit r) (miss r), update-All P q f rows hit miss)

select-All :
    {A : Type 0} (q : A → Bool) (rows : List A) → select q rows ≡ [] → All (λ r. q r ≡ false) rows
unfolding select
select-All q [] e = tt
select-All q (r ∷ rows) e = elim (Bool-cases (q r)) [
  | inl k ↦ absurd (cc (rw k at e))
  | inr k ↦ (k, select-All q rows (rw k at e))
]

-- No grant of a scope with time left is without its revocation.
abbrev pub AllCut : ℕ → GrantScope → Bytes → List GrantRecord → Type 0
AllCut now by value rows = All (λ r. is_affected now by value r ≡ false) rows

in_scope-kept :
    (by : GrantScope) (value : Bytes) (now : ℕ) (reason : Bytes) (r : GrantRecord)
    → is_affected now by value (revoked_row now reason r) ≡ false
in_scope-kept by value now reason r =
    elim (Bool-cases (in_scope by value (revoked_row now reason r))) [
      | inl k ↦ rw k refl
      | inr k ↦ rw k refl
    ]

module _ (db : Database) (now : ℕ) (by : GrantScope) (value reason : Bytes) (actor : AuditEvent)
    (l : Ledger) (gs : List GrantRecord) where
  abbrev Answered : Ledger × Except StoreError (List GrantRecord) → Type 0
  Answered x = x.1 ≡ ok gs → AllCut now by value x.0.grants

  selected-AllCut :
      (rows : List GrantRecord)
      → select (is_affected now by value) l.grants ≡ rows
      → (revoke_selected db now by value reason actor l rows).1 ≡ ok gs
      → AllCut now by value (revoke_selected db now by value reason actor l rows).0.grants
  selected-AllCut [] e =
      if_intro Answered (not db.writes) (λ _ h. select-All (is_affected now by value) l.grants e)
        (λ _ h. select-All (is_affected now by value) l.grants e)
  selected-AllCut (g ∷ rest) e =
      if_intro Answered (is_empty actor.event) (λ _ h. absurd (cc h))
        (λ _.
          if_intro Answered (not db.writes) (λ _ h. absurd (cc h))
            (λ _ h.
              update-All (λ r. is_affected now by value r ≡ false) (is_affected now by value)
                (revoked_row now reason) l.grants (λ r k. in_scope-kept by value now reason r)
                (λ r k. k)))

  -- After `RevokeGrantsWhere` has answered, no grant of the scope with time left is without its
  -- revocation.
  pub revoke_grants_where-AllCut :
      (revoke_grants_where db now by value reason actor l).1 ≡ ok gs
      → AllCut now by value (revoke_grants_where db now by value reason actor l).0.grants
  unfolding revoke_grants_where
  revoke_grants_where-AllCut =
      if_intro Answered (not db.reads) (λ _ h. absurd (cc h)) (λ _ h. selected-AllCut _ refl h)

-- Whether a session is in the table as ended.
abbrev pub is_over : Option SessionRecord → Bool
is_over none = false
is_over (some r) = is_set r.revoked_at

unfoldable pub over_in : Bytes → List SessionRecord → Bool
over_in session_id rows = is_over (first (is_session session_id) rows)

updated-over :
    (id : Bytes) (now : ℕ) (rows : List SessionRecord) (r : SessionRecord)
    → first (is_session id) rows ≡ some r
    → is_set r.revoked_at ≡ false
    → over_in id (
        update
          (λ x. is_session id x && not (is_set x.revoked_at))
          (λ x. record x { revoked_at = some (stored now) })
          rows)
      ≡ true
unfolding over_in
updated-over id now rows r e k =
    let q : SessionRecord → Bool = λ x. is_session id x && not (is_set x.revoked_at) in
    let f : SessionRecord → SessionRecord = λ x. record x { revoked_at = some (stored now) } in
    rw
      (
        first-update (is_session id) q f rows (λ x. refl),
        e,
        first-holds (is_session id) rows r e,
        k,
      )
      refl

module _ (db : Database) (now : ℕ) (id reason : Bytes) (actor : AuditEvent) (l : Ledger)
    (g : SessionRecord) where
  abbrev Over : Except StoreError SessionRecord → Type 0
  Over o =
      (revoke_read_session db now id reason actor l o).1 ≡ ok g
      → (over_in id (revoke_read_session db now id reason actor l o).0.sessions ≡ true)
        × (g.session_id ≡ id)

  row-Over : (r : SessionRecord) → first (is_session id) l.sessions ≡ some r → Over (ok r)
  unfolding over_in
  row-Over r e =
      let named = bytes_eq→eq r.session_id id (first-holds (is_session id) l.sessions r e) in
      if_intro
        (λ (x : Ledger × Except StoreError SessionRecord).
          x.1 ≡ ok g → (over_in id x.0.sessions ≡ true) × (g.session_id ≡ id))
        (is_set r.revoked_at)
        (λ k h. (rw e k, ap (λ z. z.session_id) (sym (ok_injective h)) ∙ named))
        (λ k h.
          let (c, same, answered) = returned-none _ g _ h in
          (
            rw same
                (rw ((commit_with-none db now _ l _ c).1) (updated-over id now l.sessions r e k)),
            ap (λ z. z.session_id) (sym answered) ∙ named,
          ))

  pub revoke_session-over :
      (revoke_session db now id reason actor l).1 ≡ ok g
      → (over_in id (revoke_session db now id reason actor l).0.sessions ≡ true)
        × (g.session_id ≡ id)
  unfolding revoke_session lookup_session_by_id
  revoke_session-over =
      if_intro Over (not db.reads) (λ _ h. absurd (cc h))
        (λ _. go (first (is_session id) l.sessions) refl)
    where
      go : (o : Option SessionRecord) → first (is_session id) l.sessions ≡ o → Over (read_session o)
      go none e h = absurd (cc h)
      go (some r) e h = row-Over r e h

revoke_grants_where-sessions :
    (db : Database) (now : ℕ) (by : GrantScope) (value reason : Bytes) (actor : AuditEvent)
    (l : Ledger)
    → (revoke_grants_where db now by value reason actor l).0.sessions ≡ l.sessions
unfolding revoke_grants_where
revoke_grants_where-sessions db now by value reason actor l =
    if_intro Same (not db.reads) (λ _. refl) (λ _. go (select (is_affected now by value) l.grants))
  where
    Same : Ledger × Except StoreError (List GrantRecord) → Type 0
    Same r = r.0.sessions ≡ l.sessions

    go : (rows : List GrantRecord) → Same (revoke_selected db now by value reason actor l rows)
    go [] = if_intro Same (not db.writes) (λ _. refl) (λ _. refl)
    go (g ∷ gs) =
        if_intro Same (is_empty actor.event) (λ _. refl)
          (λ _. if_intro Same (not db.writes) (λ _. refl) (λ _. refl))

-- A session whose end was answered: it is in the table as ended, and every grant of it that had time
-- left is revoked.
pub record IsEnded (w : Ending) (session_id : Bytes) (l : Ledger) : Type 0 where
  pub over : over_in session_id l.sessions ≡ true
  pub cut : AllCut w.cut_at scope_session session_id l.grants

module _ (db : Database) (w : Ending) (session_id actor_id reason : Bytes) (l : Ledger)
    (gs : List GrantRecord) where
  abbrev Ended : Ledger × Except StoreError (List GrantRecord) → Type 0
  Ended x = x.1 ≡ ok gs → IsEnded w session_id x.0

  after_end-IsEnded :
      (role : Bytes) (x : Ledger × Except StoreError SessionRecord)
      → ((r : SessionRecord)
          → x.1 ≡ ok r
          → (over_in session_id x.0.sessions ≡ true) × (r.session_id ≡ session_id))
      → Ended (after_end w role actor_id reason x)
  after_end-IsEnded role (m, err e) f h = absurd (cc h)
  after_end-IsEnded role (m, ok r) f h =
      let (o, same) = f r refl in
      let actor = event_by event_grant_revoked role actor_id in
      record {
        over =
            rw
              (revoke_grants_where-sessions w.then_db w.cut_at scope_session r.session_id reason
                actor m)
              o;
        cut =
            subst
              (λ v.
                AllCut w.cut_at scope_session v
                  (revoke_grants_where w.then_db w.cut_at scope_session r.session_id reason actor
                    m).0.grants)
              same
              (revoke_grants_where-AllCut w.then_db w.cut_at scope_session r.session_id reason actor
                m gs h);
      }

  -- When the end of a session has been answered, the session is over in the store, and no grant that
  -- was issued under it and has time left is without its revocation.
  pub end_session-IsEnded :
      (end_session db w session_id actor_id reason l).1 ≡ ok gs
      → IsEnded w session_id (end_session db w session_id actor_id reason l).0
  unfolding end_session
  end_session-IsEnded = go (lookup_session_by_id db session_id l)
    where
      go :
          (o : Except StoreError SessionRecord)
          → Ended (after_owner w session_id actor_id reason l o)
      go (err e) h = absurd (cc h)
      go (ok owner) h =
          after_end-IsEnded _ _
            (λ r k.
              revoke_session-over w.first_db w.ended_at session_id reason
                (event_by (event_for_reason reason) (actor_role actor_id owner.user_id) actor_id) l
                r k)
            h
