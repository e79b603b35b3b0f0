-- ===== src/Storage/Ledger/Lasting.antt =====
-- A revocation lasts (internal/storage/grants.go).
use secure_access_relay.Common.{
  ℕ, not, ◌&&◌, Bool, true, false, Bytes, List, [], ◌∷◌, ◌++◌, Option, none, some,
}
use secure_access_relay.Common.Except.{Except, ok, err}
use secure_access_relay.Proto.Grant.{is_empty}
use secure_access_relay.Storage.{Database, StoreError, is_set}
use secure_access_relay.Common.{◌≡◌, refl, sym, ◌∙◌, ap, subst, append-nil, append_assoc, if_intro}
use secure_access_relay.Storage.Ledger.{
  GrantRecord, SessionRecord, AuditEvent, Ledger, first, select, update, has, commit_with, is_grant,
  is_session, returned, append_audit, stamped,
}
use secure_access_relay.Storage.Ledger.Grants.{
  record_grant, lookup_grant, revoke_read, revoke_grant, revoked_row, GrantScope, is_affected,
  revoke_grants_where, revoke_selected,
}
use secure_access_relay.Storage.Ledger.Sessions.{
  has_token, create_session, revoke_session, revoke_read_session, lookup_session_by_id,
}
use secure_access_relay.Storage.Ledger.Rows.{first-append, changed, first-update}

-- Whether a grant is recorded, and as revoked.
abbrev pub is_revoked : Option GrantRecord → Bool
is_revoked none = false
is_revoked (some r) = is_set r.revoked_at

unfoldable pub revoked_in : Bytes → List GrantRecord → Bool
revoked_in grant_id rows = is_revoked (first (is_grant grant_id) rows)

pub revoked_in-append :
    (id : Bytes) (rows more : List GrantRecord)
    → revoked_in id rows ≡ true
    → revoked_in id (rows ++ more) ≡ true
unfolding revoked_in
revoked_in-append id rows more h = go (first (is_grant id) rows) refl h
  where
    go :
        (o : Option GrantRecord)
        → first (is_grant id) rows ≡ o
        → is_revoked o ≡ true
        → is_revoked (first (is_grant id) (rows ++ more)) ≡ true
    go none e k = absurd (cc k)
    go (some r) e k = rw (first-append (is_grant id) rows more r e) k

pub revoked_in-update :
    (id : Bytes) (q : GrantRecord → Bool) (now : ℕ) (reason : Bytes) (rows : List GrantRecord)
    → revoked_in id rows ≡ true
    → revoked_in id (update q (revoked_row now reason) rows) ≡ true
unfolding revoked_in
revoked_in-update id q now reason rows h =
    subst (λ o. is_revoked o ≡ true)
      (sym (first-update (is_grant id) q (revoked_row now reason) rows (λ r. refl)))
      (go (first (is_grant id) rows) h)
  where
    go :
        (o : Option GrantRecord)
        → is_revoked o ≡ true
        → is_revoked (changed (is_grant id) q (revoked_row now reason) o) ≡ true
    go none k = absurd (cc k)
    go (some r) k =
        if_intro (λ (x : GrantRecord). is_set x.revoked_at ≡ true) (q r) (λ _. refl) (λ _. k)

-- What every call keeps: the trail only grows at its end, and what is revoked stays so.
pub record IsLater (l l' : Ledger) : Type 0 where
  pub added : List AuditEvent
  pub appended : l'.trail ≡ l.trail ++ added
  pub lasting : (id : Bytes) → revoked_in id l.grants ≡ true → revoked_in id l'.grants ≡ true

pub same-IsLater : (l : Ledger) → IsLater l l
same-IsLater l = record { added = []; appended = sym (append-nil l.trail); lasting = λ id h. h }

pub then-IsLater : (l m n : Ledger) → IsLater l m → IsLater m n → IsLater l n
then-IsLater l m n a b = record {
  added = a.added ++ b.added;
  appended =
      b.appended ∙ (ap (λ t. t ++ b.added) a.appended ∙ append_assoc l.trail a.added b.added);
  lasting = λ id h. b.lasting id (a.lasting id h);
}

abbrev Keeps : List GrantRecord → List GrantRecord → Type 0
Keeps rows rows' = (id : Bytes) → revoked_in id rows ≡ true → revoked_in id rows' ≡ true

commit-IsLater :
    (db : Database) (now : ℕ) (e : AuditEvent) (l m : Ledger)
    → m.trail ≡ l.trail
    → Keeps l.grants m.grants
    → IsLater l (commit_with db now e l m).0
unfolding commit_with
commit-IsLater db now e l m t k =
    if_intro (λ (r : Ledger × Option StoreError). IsLater l r.0) (is_empty e.event)
      (λ _. same-IsLater l)
      (λ _.
        if_intro (λ (r : Ledger × Option StoreError). IsLater l r.0) (not db.writes)
          (λ _. same-IsLater l)
          (λ _. record { added = _; appended = ap (λ t. t ++ stamped now e ∷ []) t; lasting = k }))

returned-IsLater :
    {A : Type 0} (a : A) (l : Ledger) (r : Ledger × Option StoreError)
    → IsLater l r.0
    → IsLater l (returned a r).0
returned-IsLater a l (m, none) v = v
returned-IsLater a l (m, some e) v = v

committed-IsLater :
    {A : Type 0} (a : A) (db : Database) (now : ℕ) (e : AuditEvent) (l m : Ledger)
    → m.trail ≡ l.trail
    → Keeps l.grants m.grants
    → IsLater l (returned a (commit_with db now e l m)).0
committed-IsLater a db now e l m t k =
    returned-IsLater a l (commit_with db now e l m) (commit-IsLater db now e l m t k)

record_grant-IsLater :
    (db : Database) (now : ℕ) (g : GrantRecord) (e : AuditEvent) (l : Ledger)
    → IsLater l (record_grant db now g e l).0
unfolding record_grant
record_grant-IsLater db now g e l =
    if_intro (λ (r : Ledger × Option StoreError). IsLater l r.0)
      (has (first (is_grant g.grant_id) l.grants)) (λ _. same-IsLater l)
      (λ _.
        if_intro (λ (r : Ledger × Option StoreError). IsLater l r.0)
          (not (is_empty g.session_id) && not (has (first (is_session g.session_id) l.sessions)))
          (λ _. same-IsLater l)
          (λ _. commit-IsLater db now e l _ refl (λ id h. revoked_in-append id l.grants _ h)))

revoke_grant-IsLater :
    (db : Database) (now : ℕ) (grant_id reason : Bytes) (actor : AuditEvent) (l : Ledger)
    → IsLater l (revoke_grant db now grant_id reason actor l).0
unfolding revoke_grant
revoke_grant-IsLater db now grant_id reason actor l = go (lookup_grant db grant_id l)
  where
    go :
        (o : Except StoreError GrantRecord)
        → IsLater l (revoke_read db now grant_id reason actor l o).0
    go (err e) = same-IsLater l
    go (ok g) =
        if_intro (λ (r : Ledger × Except StoreError GrantRecord). IsLater l r.0)
          (is_set g.revoked_at) (λ _. same-IsLater l)
          (λ _.
            committed-IsLater _ db now _ l _ refl
              (λ id h. revoked_in-update id _ now reason l.grants h))

revoke_grants_where-IsLater :
    (db : Database) (now : ℕ) (by : GrantScope) (value reason : Bytes) (actor : AuditEvent)
    (l : Ledger)
    → IsLater l (revoke_grants_where db now by value reason actor l).0
unfolding revoke_grants_where
revoke_grants_where-IsLater db now by value reason actor l =
    if_intro Later (not db.reads) (λ _. same-IsLater l)
      (λ _. go (select (is_affected now by value) l.grants))
  where
    Later : Ledger × Except StoreError (List GrantRecord) → Type 0
    Later r = IsLater l r.0

    go :
        (rows : List GrantRecord)
        → IsLater l (revoke_selected db now by value reason actor l rows).0
    go [] = if_intro Later (not db.writes) (λ _. same-IsLater l) (λ _. same-IsLater l)
    go (g ∷ gs) =
        if_intro Later (is_empty actor.event) (λ _. same-IsLater l)
          (λ _.
            if_intro Later (not db.writes) (λ _. same-IsLater l)
              (λ _. record {
                added = _;
                appended = refl;
                lasting = λ id h. revoked_in-update id _ now reason l.grants h;
              }))

create_session-IsLater :
    (db : Database) (now : ℕ) (r : SessionRecord) (e : AuditEvent) (l : Ledger)
    → IsLater l (create_session db now r e l).0
unfolding create_session
create_session-IsLater db now r e l =
    if_intro (λ (x : Ledger × Option StoreError). IsLater l x.0)
      (has (first (is_session r.session_id) l.sessions)) (λ _. same-IsLater l)
      (λ _.
        if_intro (λ (x : Ledger × Option StoreError). IsLater l x.0)
          (has (first (has_token r.token_hash) l.sessions)) (λ _. same-IsLater l)
          (λ _. commit-IsLater db now e l _ refl (λ id h. h)))

revoke_session-IsLater :
    (db : Database) (now : ℕ) (session_id reason : Bytes) (actor : AuditEvent) (l : Ledger)
    → IsLater l (revoke_session db now session_id reason actor l).0
unfolding revoke_session
revoke_session-IsLater db now session_id reason actor l = go (lookup_session_by_id db session_id l)
  where
    go :
        (o : Except StoreError SessionRecord)
        → IsLater l (revoke_read_session db now session_id reason actor l o).0
    go (err e) = same-IsLater l
    go (ok r) =
        if_intro (λ (x : Ledger × Except StoreError SessionRecord). IsLater l x.0)
          (is_set r.revoked_at) (λ _. same-IsLater l)
          (λ _. committed-IsLater _ db now _ l _ refl (λ id h. h))

append_audit-IsLater :
    (db : Database) (now : ℕ) (e : AuditEvent) (l : Ledger) → IsLater l (append_audit db now e l).0
unfolding append_audit
append_audit-IsLater db now e l =
    if_intro (λ (x : Ledger × Option StoreError). IsLater l x.0) (is_empty e.event)
      (λ _. same-IsLater l)
      (λ _.
        if_intro (λ (x : Ledger × Option StoreError). IsLater l x.0) (not db.writes)
          (λ _. same-IsLater l) (λ _. record { added = _; appended = refl; lasting = λ id h. h }))

-- The calls that change the tables, with all that they are given.
pub data Event : Type 0 where
  records : Database → ℕ → GrantRecord → AuditEvent → Event
  revokes : Database → ℕ → Bytes → Bytes → AuditEvent → Event
  revokes_where : Database → ℕ → GrantScope → Bytes → Bytes → AuditEvent → Event
  creates : Database → ℕ → SessionRecord → AuditEvent → Event
  ends : Database → ℕ → Bytes → Bytes → AuditEvent → Event
  appends : Database → ℕ → AuditEvent → Event

unfoldable pub step : Event → Ledger → Ledger
step (records db now g e) l = (record_grant db now g e l).0
step (revokes db now id reason actor) l = (revoke_grant db now id reason actor l).0
step (revokes_where db now by value reason actor) l =
    (revoke_grants_where db now by value reason actor l).0
step (creates db now r e) l = (create_session db now r e l).0
step (ends db now id reason actor) l = (revoke_session db now id reason actor l).0
step (appends db now e) l = (append_audit db now e l).0

unfoldable pub run : List Event → Ledger → Ledger
unfolding step
run [] l = l
run (e ∷ es) l = run es (step e l)

step-IsLater : (e : Event) (l : Ledger) → IsLater l (step e l)
unfolding step
step-IsLater (records db now g e) l = record_grant-IsLater db now g e l
step-IsLater (revokes db now id reason actor) l = revoke_grant-IsLater db now id reason actor l
step-IsLater (revokes_where db now by value reason actor) l =
    revoke_grants_where-IsLater db now by value reason actor l
step-IsLater (creates db now r e) l = create_session-IsLater db now r e l
step-IsLater (ends db now id reason actor) l = revoke_session-IsLater db now id reason actor l
step-IsLater (appends db now e) l = append_audit-IsLater db now e l

pub run-IsLater : (es : List Event) (l : Ledger) → IsLater l (run es l)
unfolding run
run-IsLater [] l = same-IsLater l
run-IsLater (e ∷ es) l =
    then-IsLater l (step e l) (run es (step e l)) (step-IsLater e l) (run-IsLater es (step e l))
