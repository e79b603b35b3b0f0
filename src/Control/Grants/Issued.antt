-- ===== src/Control/Grants/Issued.antt =====
-- What stands behind a grant that was issued (internal/control/grants/grants.go, `Issue`).
use secure_access_relay.Common.{
  ℕ, ◌+◌, ◌-◌, ◌≤◌, not, ◌&&◌, true, false, Bool-cases, Bytes, bytes_eq_refl, List, Option, none,
  some, ◌≡◌, refl, ◌∙◌, ap, subst, ◌⊎◌, inl, inr, arith,
}
use secure_access_relay.Common.Except.{Except, ok, err, ok_injective}
use secure_access_relay.Proto.Grant.{
  Ed25519, SignedGrant, GrantError, sign, verify, is_empty, max_grant_ttl, truncate_second,
  clock_skew_tolerance,
}
use secure_access_relay.Proto.Grant.Verifying.{sign-of_ok, verify-sign}
use secure_access_relay.Control.Policy.{Duration, nanoseconds, negative, Rule, Decision, evaluate}
use secure_access_relay.Storage.{Database, StoreError}
use secure_access_relay.Storage.Ledger.{
  GrantRecord, AuditEvent, Ledger, first, has, is_grant, is_session,
}
use secure_access_relay.Storage.Ledger.Grants.{grant_row, record_grant}
use secure_access_relay.Storage.Ledger.Rows.{commit_with-none, has-none, first-added}
use secure_access_relay.Control.Grants.{
  Issuer, Request, granted_ttl, grant_of, record_of, created_event, recorded, after_sign,
  after_random, issue,
}

-- A lifetime within what was asked for, if anything was.
abbrev pub Asked : Duration → ℕ → Type 0
Asked (negative n) t = Unit
Asked (nanoseconds n) t = (n ≡ 0) ⊎ (t ≤ n)

granted_ttl-bounds :
    (d : Duration) (most : ℕ)
    → (granted_ttl d most ≤ most)
      × (granted_ttl d most ≤ max_grant_ttl)
      × Asked d (granted_ttl d most)
unfolding granted_ttl
granted_ttl-bounds (negative n) most = ground arith
granted_ttl-bounds (nanoseconds n) most = ground arith

-- The row that a new grant has in the table.
pub record IsRecorded (g : GrantRecord) (l l' : Ledger) : Type 0 where
  pub unknown : first (is_grant g.grant_id) l.grants ≡ none
  pub found : first (is_grant g.grant_id) l'.grants ≡ some (grant_row g)

-- A grant whose record was accepted is in the table, and its id was not before.
record_grant-IsRecorded :
    (db : Database) (now : ℕ) (g : GrantRecord) (e : AuditEvent) (l : Ledger)
    → (record_grant db now g e l).1 ≡ none
    → IsRecorded g l (record_grant db now g e l).0
unfolding record_grant
record_grant-IsRecorded db now g e l h =
    elim (Bool-cases (has (first (is_grant g.grant_id) l.grants))) [
      | inl k ↦ absurd (cc (rw k at h))
      | inr k ↦
          elim (Bool-cases (
            not (is_empty g.session_id)
            && not (has (first (is_session g.session_id) l.sessions)))) [
              | inl j ↦ absurd (cc (rw (k, j) at h))
              | inr j ↦
                  let u = has-none (first (is_grant g.grant_id) l.grants) k in
                  rw (k, j)
                    (record {
                      unknown = u;
                      found =
                          ap (first (is_grant g.grant_id))
                            ((commit_with-none db now e l _ (rw (k, j) at h)).0)
                          ∙ first-added (is_grant g.grant_id) l.grants (grant_row g) u
                              (bytes_eq_refl g.grant_id);
                    })
            ]
    ]

recorded-none :
    (s s' : SignedGrant) (r : Ledger × Option StoreError)
    → (recorded s r).1 ≡ ok s'
    → (s ≡ s') × (r.1 ≡ none) × ((recorded s r).0 ≡ r.0)
recorded-none s s' (l, none) h = (ok_injective h, refl, refl)
recorded-none s s' (l, some e) h = absurd (cc h)

-- A grant that was issued: the policy allowed it, it names what was asked for, it lives no longer than
-- was asked for, than the policy allows and than any grant may, every holder of the issuer's key
-- accepts it from its first second to its last, and it was recorded first, if there is a store.
pub record IsIssued (ed : Ed25519) (issuer : Issuer) (rules : List Rule) (req : Request)
    (l l' : Ledger) (s : SignedGrant) : Type 0 where
  pub allowed : (evaluate rules req.user_id req.device_id req.resource_id).allowed ≡ true
  pub user : s.grant.user_id ≡ req.user_id
  pub device : s.grant.device_id ≡ req.device_id
  pub resource : s.grant.resource_id ≡ req.resource_id
  pub within_policy :
      s.grant.expires_at - s.grant.issued_at
      ≤ (evaluate rules req.user_id req.device_id req.resource_id).max_ttl
  pub within_ceiling : s.grant.expires_at - s.grant.issued_at ≤ max_grant_ttl
  pub within_request : Asked req.requested_ttl (s.grant.expires_at - s.grant.issued_at)
  pub verifies :
      (at : ℕ)
      → s.grant.issued_at ≤ at + clock_skew_tolerance
      → at ≤ s.grant.expires_at + clock_skew_tolerance
      → verify ed s (ed.public issuer.key) at req.device_id ≡ none
  pub recorded :
      (issuer.recording ≡ false)
      ⊎ IsRecorded
          (record_of req (evaluate rules req.user_id req.device_id req.resource_id) s.grant)
          l
          l'

module _ (ed : Ed25519) (issuer : Issuer) (db : Database) (now : ℕ) (rules : List Rule)
    (req : Request) (l : Ledger) where
  abbrev d : Decision
  d = evaluate rules req.user_id req.device_id req.resource_id

  stored-IsIssued :
      (s s' : SignedGrant)
      → (after_sign issuer db now req d l (ok s)).1 ≡ ok s'
      → (s ≡ s')
        × ((issuer.recording ≡ false)
            ⊎ IsRecorded (record_of req d s.grant) l (after_sign issuer db now req d l (ok s)).0)
  stored-IsIssued s s' h = elim (Bool-cases issuer.recording) [
    | inr n ↦ (ok_injective (rw n at h), inl n)
    | inl y ↦
        let r = record_grant db now (record_of req d s.grant) (created_event req d s.grant) l in
        let (e, k, same) = recorded-none s s' r (rw y at h) in
        (e, inr (rw (y, same) (record_grant-IsRecorded db now (record_of req d s.grant) _ l k)))
  ]

  -- Whole seconds do not lengthen a lifetime that starts on a second.
  shorter :
      (now ttl : ℕ)
      → truncate_second (truncate_second now + ttl) - truncate_second (truncate_second now) ≤ ttl
  shorter now ttl = omega arith

  Asked-shorter : (a : Duration) (t u : ℕ) → u ≤ t → Asked a t → Asked a u
  Asked-shorter (negative n) t u le h = tt
  Asked-shorter (nanoseconds n) t u le (inl z) = inl z
  Asked-shorter (nanoseconds n) t u le (inr k) = inr (omega (arith, k, le))

  signed-IsIssued :
      (grant_id : Bytes) (o : Except GrantError SignedGrant) (s : SignedGrant)
      → d.allowed ≡ true
      → sign ed (grant_of issuer req d now grant_id) issuer.key ≡ o
      → (after_sign issuer db now req d l o).1 ≡ ok s
      → IsIssued ed issuer rules req l (after_sign issuer db now req d l o).0 s
  signed-IsIssued grant_id (err e) s a q h = absurd (cc h)
  signed-IsIssued grant_id (ok made) s a q h =
      let (same, kept) = stored-IsIssued made s h in
      let (life, e) = sign-of_ok ed (grant_of issuer req d now grant_id) issuer.key made refl q in
      let (most, ceiling, asked) = granted_ttl-bounds req.requested_ttl d.max_ttl in
      let short : made.grant.expires_at - made.grant.issued_at
          ≤ granted_ttl req.requested_ttl d.max_ttl =
        rw e (shorter now (granted_ttl req.requested_ttl d.max_ttl)) in
      rw⁻¹ same (record {
        allowed = a;
        user = ap (λ g. g.user_id) e;
        device = ap (λ g. g.device_id) e;
        resource = ap (λ g. g.resource_id) e;
        within_policy = omega (arith, short, most);
        within_ceiling = omega (arith, short, ceiling);
        within_request = Asked-shorter req.requested_ttl _ _ short asked;
        verifies = λ at b c.
            verify-sign ed (grant_of issuer req d now grant_id) issuer.key made at req.device_id q
              (subst (λ g. g.issued_at ≤ at + clock_skew_tolerance) e b)
              (subst (λ g. at ≤ g.expires_at + clock_skew_tolerance) e c) (inr refl);
        recorded = kept;
      })

  -- Whenever a grant is issued, it is one that the policy allows, for the user, device and resource
  -- of the request, with a lifetime within the request, the policy and the ceiling; the agent accepts
  -- it throughout that lifetime; and if there is a store, it was recorded there before it was
  -- returned.
  pub issue-IsIssued :
      (grant_id : Option Bytes) (s : SignedGrant)
      → (issue ed issuer db now grant_id rules req l).1 ≡ ok s
      → IsIssued ed issuer rules req l (issue ed issuer db now grant_id rules req l).0 s
  unfolding issue
  issue-IsIssued grant_id s h = elim (Bool-cases d.allowed) [
    | inr n ↦ absurd (cc (rw n at h))
    | inl a ↦ rw a (go a grant_id (rw a at h))
  ]
    where
      go :
          d.allowed ≡ true
          → (o : Option Bytes) → (after_random ed issuer db now req d l o).1 ≡ ok s
          → IsIssued ed issuer rules req l (after_random ed issuer db now req d l o).0 s
      go a none k = absurd (cc k)
      go a (some id) k = signed-IsIssued id _ s a refl k
