-- ===== src/Control/Http/Granting.antt =====
-- internal/control/httpapi/grants.go, `handleGrant`: a grant for the operator who asks.
pub mod Granted
use secure_access_relay.Common.{
  ℕ, ◌*◌, ◌%◌, ◌/◌, ltb, ◌==◌, not, ◌||◌, if◌then◌else◌, Bytes, codes, List, [], Option, none, some,
}
use secure_access_relay.Common.Except.{Except, ok, err}
use secure_access_relay.Proto.Grant.{
  Ed25519, SignedGrant, second, max_grant_ttl, u64_mod, encode_grant,
}
use secure_access_relay.Control.Policy.{Duration, nanoseconds, Decision, evaluate}
use secure_access_relay.Storage.{Database}
use secure_access_relay.Storage.Ledger.{SessionRecord, Ledger}
use secure_access_relay.Control.Audit.{event_enroll_denied}
use secure_access_relay.Control.Enrollment.{Identity}
use secure_access_relay.Control.Grants as Grants
use secure_access_relay.Control.Grants.{Issuer, IssueError, denied, issue, event_grant_denied}
use secure_access_relay.Control.Http.{
  Server, Plane, Request, Refusal, refused, Checks, with_ledger, bearer_token,
  authenticate_operator, require_session,
}

-- `grantRequest`; the seconds are the 64 bits of an `int`.
pub record GrantAsk : Type 0 where
  pub device_id : Bytes
  pub resource_id : Bytes
  pub ttl_seconds : ℕ

-- `grantResponse`, before its grant is put in base 64 and its time in text.
pub record GrantAnswer : Type 0 where
  pub grant : Bytes
  pub grant_id : Bytes
  pub expires_at : ℕ
  pub policy_id : Bytes
  pub session_id : Bytes

-- The store, the clock and the identifier that was drawn, if one was, when a grant is issued.
pub record Issuance : Type 0 where
  pub issue_db : Database
  pub issued_at : ℕ
  pub drawn : Option Bytes

-- `time.Duration(seconds) * time.Second`, which wraps, and the longest lifetime if it is not above 0.
unfoldable pub asked_ttl : ℕ → Duration
asked_ttl seconds =
    let t = seconds * second % u64_mod in
    if t == 0 || not (ltb t (u64_mod / 2)) then nanoseconds max_grant_ttl else nanoseconds t

abbrev pub request_of : Identity → Bytes → GrantAsk → Grants.Request
request_of id session_id ask = record {
  org_id = [];
  user_id = id.id;
  device_id = ask.device_id;
  resource_id = ask.resource_id;
  requested_ttl = asked_ttl ask.ttl_seconds;
  max_bytes = 0;
  session_id = session_id;
}

abbrev pub decision_on : Server → Identity → GrantAsk → Decision
decision_on s id ask = evaluate s.rules id.id ask.device_id ask.resource_id

abbrev pub granted :
    Decision
    → Bytes
    → Plane
    → Ledger × Except IssueError SignedGrant
    → Plane × Except Refusal GrantAnswer
granted d session_id p (l, ok g) = (
  with_ledger p l,
  ok (record {
    grant = encode_grant g;
    grant_id = g.grant.grant_id;
    expires_at = g.grant.expires_at;
    policy_id = d.policy_id;
    session_id = session_id;
  }),
)
granted d session_id p (l, err denied) = (with_ledger p l, refused 403 (codes "policy_denied"))
granted d session_id p (l, err _) = (with_ledger p l, refused 500 (codes "could not issue a grant"))

module _ (ed : Ed25519) (hash_token : Bytes → Bytes) (s : Server) (w : Checks) (v : Issuance)
    (r : Request GrantAsk) where
  abbrev pub for_ask :
      Issuer → Identity → Bytes → Plane → Option GrantAsk → Plane × Except Refusal GrantAnswer
  for_ask issuer id session_id p none = (p, refused 400 (codes "malformed request"))
  for_ask issuer id session_id p (some ask) = granted (decision_on s id ask) session_id p (
      issue ed issuer v.issue_db v.issued_at v.drawn s.rules (request_of id session_id ask)
        p.ledger)

  abbrev pub in_session :
      Issuer → Identity → Plane → Except Refusal SessionRecord → Plane × Except Refusal GrantAnswer
  in_session issuer id p (err e) = (p, err e)
  in_session issuer id p (ok rec) = for_ask issuer id rec.session_id p r.body

  -- A session is asked for if sessions are configured.
  abbrev pub for_operator :
      Issuer → Option ℕ → Plane × Except Refusal Identity → Plane × Except Refusal GrantAnswer
  for_operator issuer sessions (p, err e) = (p, err e)
  for_operator issuer none (p, ok id) = for_ask issuer id [] p r.body
  for_operator issuer (some ttl) (p, ok id) =
      in_session issuer id p
        (require_session hash_token w (bearer_token r.authorization) id p.ledger)

  abbrev pub with_issuer : Plane → Option Issuer → Plane × Except Refusal GrantAnswer
  with_issuer p none = (p, refused 501 (codes "grants are not configured"))
  with_issuer p (some issuer) =
      for_operator issuer s.session_lifetime (authenticate_operator s w event_grant_denied r p)

  -- `handleGrant`.
  unfoldable pub handle_grant : Plane → Plane × Except Refusal GrantAnswer
  unfolding authenticate_operator require_session issue asked_ttl encode_grant
  handle_grant p = with_issuer p s.issuer
