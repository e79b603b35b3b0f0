-- ===== src/Control/Http/Logins/Told.antt =====
-- Which grants the end of a session answers with (internal/control/login/login.go, `End`).
use secure_access_relay.Common.{
  ℕ, Bytes, List, [], ◌∷◌, Option, none, some, ◌≡◌, refl, sym, ◌∙◌, ap, if_intro, not, arith,
}
use secure_access_relay.Common.Except.{Except, ok, err, ok_injective}
use secure_access_relay.Storage.{Database, StoreError}
use secure_access_relay.Storage.Ledger.{
  GrantRecord, SessionRecord, AuditEvent, Ledger, first, select, is_session, commit_with,
}
use secure_access_relay.Storage.Ledger.Sessions.{
  revoke_session, revoke_read_session, read_session, lookup_session_by_id,
}
use secure_access_relay.Storage.Ledger.Grants.{
  GrantScope, scope_session, is_affected, affected_rows, revoke_selected, revoke_grants_where,
}
use secure_access_relay.Proto.Grant.{is_empty}
use secure_access_relay.Control.Login.{
  event_by, event_grant_revoked, actor_role, event_for_reason, after_owner, after_end, Ending,
  end_session,
}
use secure_access_relay.Control.Login.Ended.{revoke_session-over}
use secure_access_relay.Control.Http.Logins.{grant_ids}

-- The rows that `RevokeGrantsWhere` answers with have the identifiers of those it has changed.
grant_ids-affected_rows :
    (now : ℕ) (reason : Bytes) (gs : List GrantRecord)
    → grant_ids (affected_rows now reason gs) ≡ grant_ids gs
unfolding grant_ids affected_rows
grant_ids-affected_rows now reason [] = refl
grant_ids-affected_rows now reason (g ∷ gs) =
    ap (λ z. g.grant_id ∷ z) (grant_ids-affected_rows now reason gs)

abbrev pub Answers : List Bytes → Ledger × Except StoreError (List GrantRecord) → Type 0
Answers ids x = (gs : List GrantRecord) → x.1 ≡ ok gs → grant_ids gs ≡ ids

module _ (db : Database) (now : ℕ) (by : GrantScope) (value reason : Bytes) (actor : AuditEvent)
    (l : Ledger) where
  selected-Answers :
      (rows : List GrantRecord)
      → Answers (grant_ids rows) (revoke_selected db now by value reason actor l rows)
  unfolding affected_rows
  selected-Answers [] =
      if_intro (Answers (grant_ids [])) (not db.writes) (λ _ gs h. absurd (cc h))
        (λ _ gs h. ap grant_ids (sym (ok_injective h)))
  selected-Answers (g ∷ rows) =
      if_intro (Answers (grant_ids (g ∷ rows))) (is_empty actor.event) (λ _ gs h. absurd (cc h))
        (λ _.
          if_intro (Answers (grant_ids (g ∷ rows))) (not db.writes) (λ _ gs h. absurd (cc h))
            (λ _ gs h.
              ap grant_ids (sym (ok_injective h)) ∙ grant_ids-affected_rows now reason (g ∷ rows)))

  revoke_grants_where-Answers :
      Answers
        (grant_ids (select (is_affected now by value) l.grants))
        (revoke_grants_where db now by value reason actor l)
  unfolding revoke_grants_where
  revoke_grants_where-Answers =
      if_intro (Answers (grant_ids (select (is_affected now by value) l.grants))) (not db.reads)
        (λ _ gs h. absurd (cc h))
        (λ _. selected-Answers (select (is_affected now by value) l.grants))

-- The end of a session answers with the grants that were issued under it and had time left.
abbrev pub under : Ending → Bytes → Ledger → List GrantRecord
under e session_id l = select (is_affected e.cut_at scope_session session_id) l.grants

module _ (db : Database) (e : Ending) (session_id actor_id reason : Bytes) (l : Ledger) where
  after_end-Answers :
      (role : Bytes) (x : Ledger × Except StoreError SessionRecord)
      → x.0.grants ≡ l.grants
      → ((r : SessionRecord) → x.1 ≡ ok r → r.session_id ≡ session_id)
      → Answers (grant_ids (under e session_id l)) (after_end e role actor_id reason x)
  after_end-Answers role (m, err y) same f gs h = absurd (cc h)
  after_end-Answers role (m, ok r) same f gs h =
      rw (sym same, sym (f r refl))
        (revoke_grants_where-Answers e.then_db e.cut_at scope_session r.session_id reason
          (event_by event_grant_revoked role actor_id) m gs h)

  revoke_session-grants :
      (db' : Database) (now : ℕ) (actor : AuditEvent)
      → (revoke_session db' now session_id reason actor l).0.grants ≡ l.grants
  unfolding revoke_session lookup_session_by_id commit_with
  revoke_session-grants db' now actor =
      if_intro Kept (not db'.reads) (λ _. refl) (λ _. go (first (is_session session_id) l.sessions))
    where
      Kept : Except StoreError SessionRecord → Type 0
      Kept o = (revoke_read_session db' now session_id reason actor l o).0.grants ≡ l.grants

      go : (o : Option SessionRecord) → Kept (read_session o)
      go none = refl
      go (some r) = ground arith

  -- The end of a session answers with the grants that it has cut.
  pub end_session-Answers :
      Answers (grant_ids (under e session_id l)) (end_session db e session_id actor_id reason l)
  unfolding end_session
  end_session-Answers = go (lookup_session_by_id db session_id l)
    where
      go :
          (o : Except StoreError SessionRecord)
          → Answers
              (grant_ids (under e session_id l))
              (after_owner e session_id actor_id reason l o)
      go (err y) gs h = absurd (cc h)
      go (ok owner) gs h =
          let role = actor_role actor_id owner.user_id in
          let actor = event_by (event_for_reason reason) role actor_id in
          after_end-Answers role _ (revoke_session-grants e.first_db e.ended_at actor)
            (λ r k. (revoke_session-over e.first_db e.ended_at session_id reason actor l r k).1) gs
            h
