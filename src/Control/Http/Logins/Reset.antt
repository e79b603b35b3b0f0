-- ===== src/Control/Http/Logins/Reset.antt =====
-- The streams that a logout resets (internal/control/httpapi/login.go).
use secure_access_relay.Common.{true, Bytes, List, [], ◌∷◌, ◌++◌, ◌≡◌, ◌≢◌, ap, inl, inr, subst}
use mathlib.Core.List.Memᴰ.{Memᴰ}
use secure_access_relay.Proto.Reason.{Reason}
use secure_access_relay.Relay.Live.{LiveStreams, Pair, pairs, streams_of, terminate, count_for}
use secure_access_relay.Relay.Live.Revocation.{terminate-IsRevoked}
use secure_access_relay.Common.Except.{ok}
use secure_access_relay.Storage.{Database}
use secure_access_relay.Storage.Ledger.{GrantRecord}
use secure_access_relay.Control.Login.{Ending}
use secure_access_relay.Control.Http.{Server, Plane, Request, Checks, bearer_token}
use secure_access_relay.Control.Http.Logins.Told.{under}
use secure_access_relay.Control.Http.Logins.{LogoutAnswer, grant_ids, handle_logout}
use secure_access_relay.Control.Http.Logins.Closed.{
  IsDropped, told_of, Closed, handle_logout-IsLoggedOut,
}

Memᴰ-grant_ids :
    (g : GrantRecord) (gs : List GrantRecord) → Memᴰ g gs → Memᴰ g.grant_id (grant_ids gs)
unfolding grant_ids
Memᴰ-grant_ids g [] m = elim m [ ]
Memᴰ-grant_ids g (h ∷ gs) (Memᴰ.head e) = Memᴰ.head (ap (λ z. z.grant_id) e)
Memᴰ-grant_ids g (h ∷ gs) (Memᴰ.tail m) = Memᴰ.tail (Memᴰ-grant_ids g gs m)

-- Where the relay can be told, a logout that has ended a session has every stream reset, at both ends,
-- that runs under a grant which was issued under the session and has time left.
pub handle_logout-terminate :
    (hash_token : Bytes → Bytes) (s : Server) (w : Checks) (db : Database) (e : Ending)
    (r : Request (Unit {0})) (p : Plane) (a : LogoutAnswer) (g : GrantRecord) (reason : Reason)
    (l : LiveStreams) (x : Pair)
    → (handle_logout hash_token s w db e r p).1 ≡ ok a
    → a.session_id ≢ []
    → s.terminates ≡ true
    → Memᴰ g (under e a.session_id p.ledger)
    → Memᴰ x (pairs (streams_of g.grant_id l))
    → (ids : List Bytes) × ((handle_logout hash_token s w db e r p).0.terminated
        ≡ p.terminated ++ ids ∷ [])
      × Memᴰ (x.operator, reason) (terminate ids reason l).calls
      × Memᴰ (x.agent, reason) (terminate ids reason l).calls
      × (count_for g.grant_id (terminate ids reason l).live ≡ 0)
handle_logout-terminate hash_token s w db e r p a g reason l x h some_session can m n =
    go (handle_logout-IsLoggedOut hash_token s w db e r p a h).closed
  where
    p' : Plane
    p' = (handle_logout hash_token s w db e r p).0

    go :
        Closed hash_token w s
          (bearer_token r.authorization)
          (handle_logout-IsLoggedOut hash_token s w db e r p a h).operator.id
          e
          p
          p'
          a
        → (ids : List Bytes) × (p'.terminated ≡ p.terminated ++ ids ∷ [])
          × Memᴰ (x.operator, reason) (terminate ids reason l).calls
          × Memᴰ (x.agent, reason) (terminate ids reason l).calls
          × (count_for g.grant_id (terminate ids reason l).live ≡ 0)
    go (inl c) = absurd (some_session c.0)
    go (inr c) =
        let ids = grant_ids (under e a.session_id p.ledger) in
        let m' = Memᴰ-grant_ids g (under e a.session_id p.ledger) m in
        let t = terminate-IsRevoked ids reason l in
        let (op, ag) = t.reset g.grant_id x m' n in
        (
          ids,
          told_of c.revoked ids g.grant_id p.terminated p'.terminated c.complete m'
              (subst (λ b. IsDropped b c.revoked p.terminated p'.terminated) can c.dropped),
          op,
          ag,
          t.none_left g.grant_id m',
        )
