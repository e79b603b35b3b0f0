-- ===== src/Control/Http/Granting/Granted.antt =====
-- What stands behind a grant that was answered (internal/control/httpapi/grants.go).
use secure_access_relay.Common.{ℕ, Bytes, [], Option, none, some, ◌≡◌, refl, sym}
use secure_access_relay.Common.Except.{Except, ok, err}
use secure_access_relay.Proto.Grant.{Ed25519, SignedGrant, encode_grant}
use secure_access_relay.Control.Policy.{Decision}
use secure_access_relay.Storage.Ledger.{SessionRecord, Ledger}
use secure_access_relay.Control.Enrollment.{Identity}
use secure_access_relay.Control.Grants.{Issuer, IssueError, denied, issue, event_grant_denied}
use secure_access_relay.Control.Grants.Issued.{IsIssued, issue-IsIssued}
use secure_access_relay.Control.Http.{
  Server, Plane, Request, Refusal, Checks, bearer_token, authenticate_operator, require_session,
}
use secure_access_relay.Control.Http.Callers.{
  IsOperator, authenticate_operator-IsOperator, IsOwn, require_session-IsOwn,
}
use secure_access_relay.Control.Http.Granting.{
  GrantAsk, GrantAnswer, Issuance, request_of, decision_on, granted, for_ask, in_session,
  for_operator, with_issuer, handle_grant,
}

-- Without sessions a grant names none.
abbrev pub UnderSession :
    (Bytes → Bytes) → Checks → Bytes → Bytes → Bytes → Ledger → Option ℕ → Type 0
UnderSession hash_token w token user_id session_id l none = session_id ≡ []
UnderSession hash_token w token user_id session_id l (some ttl) =
    IsOwn hash_token w.resolved_at token user_id session_id l

module _ (ed : Ed25519) (hash_token : Bytes → Bytes) (s : Server) (w : Checks) (v : Issuance)
    (r : Request GrantAsk) where
  -- A grant that was answered: the caller is an operator, who holds the session that it was issued
  -- under if sessions are configured, it was issued to that operator for the device and the resource
  -- of the request, and the answer tells what was issued.
  pub record IsGranted (p p' : Plane) (a : GrantAnswer) : Type 0 where
    pub operator : Identity
    pub known : Plane
    pub authenticated : IsOperator w.verify_db r.certificate p known operator
    pub session :
        UnderSession hash_token w
          (bearer_token r.authorization)
          operator.id
          a.session_id
          p.ledger
          s.session_lifetime
    pub ask : GrantAsk
    pub asked : r.body ≡ some ask
    pub issuer : Issuer
    pub configured : s.issuer ≡ some issuer
    pub signed : SignedGrant
    pub issued :
        IsIssued ed issuer s.rules (request_of operator a.session_id ask) p.ledger p'.ledger signed
    pub answered : a.grant ≡ encode_grant signed
    pub named : a.grant_id ≡ signed.grant.grant_id
    pub until : a.expires_at ≡ signed.grant.expires_at

  granted-ok :
      (d : Decision) (session_id : Bytes) (p : Plane) (x : Ledger × Except IssueError SignedGrant)
      (a : GrantAnswer)
      → (granted d session_id p x).1 ≡ ok a
      → (g : SignedGrant) × (x.1 ≡ ok g)
        × ((granted d session_id p x).0.ledger ≡ x.0)
        × (a ≡ record {
          grant = encode_grant g;
          grant_id = g.grant.grant_id;
          expires_at = g.grant.expires_at;
          policy_id = d.policy_id;
          session_id = session_id;
        })
  granted-ok d session_id p (l, ok g) a h = (g, refl, refl, cc)
  granted-ok d session_id p (l, err denied) a h = absurd (cc h)
  granted-ok d session_id p (l, err e) a h = absurd (cc h)

  module _ (p known : Plane) (id : Identity) (a : GrantAnswer)
      (auth : IsOperator w.verify_db r.certificate p known id) (issuer : Issuer)
      (configured : s.issuer ≡ some issuer) where
    -- An answer to a request whose caller and session have been checked.
    for_ask-IsGranted :
        (session_id : Bytes) (body : Option GrantAsk)
        → r.body ≡ body
        → UnderSession hash_token w
            (bearer_token r.authorization)
            id.id
            session_id
            p.ledger
            s.session_lifetime
        → (for_ask ed hash_token s w v r issuer id session_id known body).1 ≡ ok a
        → IsGranted p (for_ask ed hash_token s w v r issuer id session_id known body).0 a
    for_ask-IsGranted session_id none e under h = absurd (cc h)
    for_ask-IsGranted session_id (some ask) e under h =
        let req = request_of id session_id ask in
        let x = issue ed issuer v.issue_db v.issued_at v.drawn s.rules req known.ledger in
        let (g, made, kept, same) = granted-ok (decision_on s id ask) session_id known x a h in
        let ledger : known.ledger ≡ p.ledger = rw auth.promoted refl in
        rw same (record {
          operator = id;
          known = known;
          authenticated = auth;
          session = under;
          ask = ask;
          asked = e;
          issuer = issuer;
          configured = configured;
          signed = g;
          issued =
              rw (kept, sym ledger)
                (issue-IsIssued ed issuer v.issue_db v.issued_at s.rules req known.ledger v.drawn g
                  made);
          answered = refl;
          named = refl;
          until = refl;
        })

    -- With sessions, the one of the caller.
    in_session-IsGranted :
        (ttl : ℕ)
        → s.session_lifetime ≡ some ttl
        → (o : Except Refusal SessionRecord)
        → require_session hash_token w (bearer_token r.authorization) id known.ledger ≡ o
        → (in_session ed hash_token s w v r issuer id known o).1 ≡ ok a
        → IsGranted p (in_session ed hash_token s w v r issuer id known o).0 a
    in_session-IsGranted ttl e (err x) q h = absurd (cc h)
    in_session-IsGranted ttl e (ok rec) q h =
        let ledger : known.ledger ≡ p.ledger = rw auth.promoted refl in
        for_ask-IsGranted rec.session_id r.body refl
          (rw e (
            rw ledger at (
              require_session-IsOwn hash_token w (bearer_token r.authorization) id known.ledger rec
                q)))
          h

  module _ (p : Plane) (a : GrantAnswer) (issuer : Issuer)
      (configured : s.issuer ≡ some issuer) where
    for_operator-IsGranted :
        (o : Option ℕ)
        → s.session_lifetime ≡ o
        → (x : Plane × Except Refusal Identity)
        → ((id : Identity) → x.1 ≡ ok id → IsOperator w.verify_db r.certificate p x.0 id)
        → (for_operator ed hash_token s w v r issuer o x).1 ≡ ok a
        → IsGranted p (for_operator ed hash_token s w v r issuer o x).0 a
    for_operator-IsGranted none e (known, err y) f h = absurd (cc h)
    for_operator-IsGranted (some ttl) e (known, err y) f h = absurd (cc h)
    for_operator-IsGranted none e (known, ok id) f h =
        for_ask-IsGranted p known id a (f id refl) issuer configured [] r.body refl (rw e refl) h
    for_operator-IsGranted (some ttl) e (known, ok id) f h =
        in_session-IsGranted p known id a (f id refl) issuer configured ttl e _ refl h

  -- A grant that is answered was issued, as the rules allow it, to the operator whose accepted
  -- certificate the request showed, for the device and the resource that the request names, and, if
  -- sessions are configured, under a session of that very operator that is not over.
  pub handle_grant-IsGranted :
      (p : Plane) (a : GrantAnswer)
      → (handle_grant ed hash_token s w v r p).1 ≡ ok a
      → IsGranted p (handle_grant ed hash_token s w v r p).0 a
  unfolding handle_grant
  handle_grant-IsGranted p a = go s.issuer refl
    where
      go :
          (o : Option Issuer)
          → s.issuer ≡ o
          → (with_issuer ed hash_token s w v r p o).1 ≡ ok a
          → IsGranted p (with_issuer ed hash_token s w v r p o).0 a
      go none e h = absurd (cc h)
      go (some issuer) e h =
          for_operator-IsGranted p a issuer e s.session_lifetime refl
            (authenticate_operator s w event_grant_denied r p)
            (authenticate_operator-IsOperator s w event_grant_denied r p) h
