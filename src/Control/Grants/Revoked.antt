-- ===== src/Control/Grants/Revoked.antt =====
-- A revoked grant opens no stream again (internal/control/grants, internal/storage/grants.go,
-- internal/relay/relay.go).
use mathlib.Core.List.Memᴰ.{Memᴰ}
use secure_access_relay.Common.{
  ℕ, not, ◌&&◌, Bool, true, false, if_intro, Bytes, List, Option, none, some, ◌≡◌, refl, sym, ◌∙◌,
}
use secure_access_relay.Common.Except.{Except, ok, ok_injective}
use secure_access_relay.Proto.Grant.{Ed25519, SignedGrant, decode_grant}
use secure_access_relay.Relay.Joining.{Opened, Config, opens, standing, join_stream}
use secure_access_relay.Relay.Joining.Authorized.{join_stream-IsJoinable}
use secure_access_relay.Storage.{Database, StoreError, is_set}
use secure_access_relay.Storage.Ledger.{GrantRecord, AuditEvent, Ledger, first, update, is_grant}
use secure_access_relay.Storage.Ledger.Grants.{
  lookup_grant, read_grant, revoke_read, revoke_grant, revoked_row,
}
use secure_access_relay.Storage.Ledger.Lasting.{is_revoked, revoked_in, Event, run, run-IsLater}
use secure_access_relay.Storage.Ledger.Rows.{
  first-holds, returned-none, commit_with-none, first-update,
}
use secure_access_relay.Control.Grants.{state_read, state_of}

updated-revoked :
    (id reason : Bytes) (now : ℕ) (rows : List GrantRecord) (r : GrantRecord)
    → first (is_grant id) rows ≡ some r
    → is_set r.revoked_at ≡ false
    → revoked_in id
        (update (λ x. is_grant id x && not (is_set x.revoked_at)) (revoked_row now reason) rows)
      ≡ true
unfolding revoked_in
updated-revoked id reason now rows r e k =
    let q : GrantRecord → Bool = λ x. is_grant id x && not (is_set x.revoked_at) in
    rw
      (
        first-update (is_grant id) q (revoked_row now reason) rows (λ x. refl),
        e,
        first-holds (is_grant id) rows r e,
        k,
      )
      refl

module _ (db : Database) (now : ℕ) (id reason : Bytes) (actor : AuditEvent) (l : Ledger)
    (g : GrantRecord) where
  -- What the answer to a revocation says of the table.
  abbrev Recorded : Except StoreError GrantRecord → Type 0
  Recorded o =
      (revoke_read db now id reason actor l o).1 ≡ ok g
      → revoked_in id (revoke_read db now id reason actor l o).0.grants ≡ true

  row-revokes : (r : GrantRecord) → first (is_grant id) l.grants ≡ some r → Recorded (ok r)
  unfolding revoked_in
  row-revokes r e =
      if_intro
        (λ (x : Ledger × Except StoreError GrantRecord).
          x.1 ≡ ok g → revoked_in id x.0.grants ≡ true)
        (is_set r.revoked_at) (λ k h. rw e k)
        (λ k h.
          let (c, same, answered) = returned-none _ g _ h in
          rw same (
            rw ((commit_with-none db now _ l _ c).0)
              (updated-revoked id reason now l.grants r e k)))

  -- The revocation of a grant that was answered has been recorded.
  revoke_grant-revokes :
      (revoke_grant db now id reason actor l).1 ≡ ok g
      → revoked_in id (revoke_grant db now id reason actor l).0.grants ≡ true
  unfolding revoke_grant lookup_grant
  revoke_grant-revokes =
      if_intro Recorded (not db.reads) (λ _ h. absurd (cc h))
        (λ _. go (first (is_grant id) l.grants) refl)
    where
      go : (o : Option GrantRecord) → first (is_grant id) l.grants ≡ o → Recorded (read_grant o)
      go none e h = absurd (cc h)
      go (some r) e h = row-revokes r e h

revoked-standing :
    (db : Database) (id : Bytes) (l : Ledger)
    → db.reads ≡ true
    → revoked_in id l.grants ≡ true
    → standing (some (state_of db l id)) ≡ none
unfolding standing state_of lookup_grant revoked_in
revoked-standing db id l y h =
    if_intro (λ x. standing (some (state_read x)) ≡ none) (not db.reads) (λ n. absurd (cc (y, n)))
      (λ _. go (first (is_grant id) l.grants) h)
  where
    go :
        (o : Option GrantRecord)
        → is_revoked o ≡ true
        → standing (some (state_read (read_grant o))) ≡ none
    go none k = absurd (cc k)
    go (some r) k = rw k refl

-- Once the revocation of a grant has been answered, a relay that asks this store opens no stream with
-- the grant, whatever the store is asked to do in between, as long as the store answers the relay.
pub revoked_never_joined :
    (db : Database) (now : ℕ) (reason : Bytes) (actor : AuditEvent) (l : Ledger) (g : GrantRecord)
    (es : List Event) (db' : Database) (ed : Ed25519) (cfg : Config) (device_id user_id : Bytes)
    (at : ℕ) (answer : Opened) (broken : Bool) (payload p : Bytes) (s : SignedGrant)
    → decode_grant payload ≡ ok s
    → (revoke_grant db now s.grant.grant_id reason actor l).1 ≡ ok g
    → db'.reads ≡ true
    → ¬ Memᴰ (opens p) (
        join_stream ed
          (record cfg {
            grants =
                some
                  (state_of db' (run es (revoke_grant db now s.grant.grant_id reason actor l).0));
          })
          device_id
          user_id
          at
          answer
          broken
          payload)
revoked_never_joined db now reason actor l g es db' ed cfg device_id user_id at answer broken
      payload p s e h y m =
    let l' = (revoke_grant db now s.grant.grant_id reason actor l).0 in
    let j =
      join_stream-IsJoinable ed (record cfg { grants = some (state_of db' (run es l')) }) device_id
        user_id at answer broken payload p m in
    let same : j.signed ≡ s = ok_injective (sym j.decoded ∙ e) in
    let lasting =
      (run-IsLater es l').lasting s.grant.grant_id
        (revoke_grant-revokes db now s.grant.grant_id reason actor l g h) in
    j.not_revoked (rw same (revoked-standing db' s.grant.grant_id (run es l') y lasting))
