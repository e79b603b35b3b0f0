-- ===== src/Operator/Forwarding/Carried.antt =====
-- What stands behind a connection that is carried (internal/operator/forward.go, `handle`).
use mathlib.Core.List.Memᴰ.{Memᴰ}
use secure_access_relay.Common.{
  ℕ, ◌≤◌, ◌⊎◌, Bool-cases, Bytes, List, [], ◌∷◌, Option, none, some, ◌≡◌, refl, inl, inr, ap,
}
use secure_access_relay.Common.Except.{Except, ok, err}
use secure_access_relay.Proto.Grant.{Ed25519}
use secure_access_relay.Control.Enrollment.{Identity}
use secure_access_relay.Backoff.{Floats, Random}
use secure_access_relay.E2ee.{InnerError, inner_session, IsPeer, inner_session-IsPeer}
use secure_access_relay.Operator.Grants.{
  is_fresh, Forward, GrantCache, empty_cache, RequestError, Attempt, current_grant,
}
use secure_access_relay.Operator.Grants.Fresh.{
  used_at, Usable, UsableAt, Cached, Cached-later, current_grant-IsCall,
}
use secure_access_relay.Operator.Forwarding.{
  Link, relay_session, Deed, closes_local, joins, opens, Journey, after_secure, expected,
  after_grant, after_session, handle_local,
}

-- The connection was carried over a stream that was opened with this grant and nothing else, and the
-- other end has shown a certificate of the device.
pub record IsCarried (device_id : Bytes) (w : Journey) (r : Except RequestError Bytes)
    (deeds : List Deed) : Type 0 where
  pub session : ℕ
  pub encoded : Bytes
  pub granted : r ≡ ok encoded
  pub done : deeds ≡ opens session encoded ∷ joins ∷ []
  pub device : IsPeer (expected device_id) w.exchange

secured :
    (device_id : Bytes) (w : Journey) (o : Except InnerError Identity)
    → inner_session (expected device_id) w.exchange ≡ o
    → Memᴰ joins (after_secure o)
    → (after_secure o ≡ joins ∷ []) × IsPeer (expected device_id) w.exchange
secured device_id w (err e) q (Memᴰ.head h) = absurd (cc h)
secured device_id w (err e) q (Memᴰ.tail (Memᴰ.head h)) = absurd (cc h)
secured device_id w (err e) q (Memᴰ.tail (Memᴰ.tail m)) = elim m [ ]
secured device_id w (ok peer) q m =
    (refl, (inner_session-IsPeer (expected device_id) peer w.exchange q).1)

after_grant-IsCarried :
    (device_id : Bytes) (w : Journey) (s : ℕ) (r : Except RequestError Bytes)
    → Memᴰ joins (after_grant device_id w s r)
    → IsCarried device_id w r (after_grant device_id w s r)
after_grant-IsCarried device_id w s (err e) (Memᴰ.head h) = absurd (cc h)
after_grant-IsCarried device_id w s (err e) (Memᴰ.tail m) = elim m [ ]
after_grant-IsCarried device_id w s (ok encoded) (Memᴰ.head h) = absurd (cc h)
after_grant-IsCarried device_id w s (ok encoded) (Memᴰ.tail m) = elim (Bool-cases w.opens_stream) [
  | inr f ↦ absurd (refused (rw f at m))
  | inl t ↦
      let (e, d) = secured device_id w _ refl (rw t at m) in
      rw t (record {
        session = s;
        encoded = encoded;
        granted = refl;
        done = ap (λ z. opens s encoded ∷ z) e;
        device = d;
      })
]
  where
    refused : ¬ Memᴰ joins (closes_local ∷ [])
    refused (Memᴰ.head h) = cc h
    refused (Memᴰ.tail k) = elim k [ ]

-- Each call reads the clock after the one before it.
abbrev pub InOrder : ℕ → List Journey → Type 0
InOrder t [] = Unit {0}
InOrder t (w ∷ ws) =
    (t ≤ w.attempt.now) × (w.attempt.now ≤ w.attempt.verified_at) × InOrder w.attempt.verified_at ws

-- A grant that is good at one of the two readings of the clock.
abbrev pub GoodFor : Ed25519 → Forward → Attempt → Bytes → Type 0
GoodFor ed f w encoded =
    Usable ed f.grant_key w.now encoded ⊎ Usable ed f.grant_key w.verified_at encoded

-- A connection that was carried, with a grant that was good.
pub record IsSound (ed : Ed25519) (f : Forward) (device_id : Bytes) (w : Journey)
    (deeds : List Deed) : Type 0 where
  pub session : ℕ
  pub encoded : Bytes
  pub done : deeds ≡ opens session encoded ∷ joins ∷ []
  pub device : IsPeer (expected device_id) w.exchange
  pub good : GoodFor ed f w.attempt encoded

module _ {F : Type 0} (ed : Ed25519) (floats : Floats F) (random : Random) (f : Forward)
    (device_id : Bytes) where
  -- The connections of a forward, one after another, with what was done for each.
  unfoldable pub handle_all : List Journey → Link F × GrantCache → List (Journey × List Deed)
  unfolding handle_local
  handle_all [] x = []
  handle_all (w ∷ ws) x =
      let (x', deeds) = handle_local ed floats random f device_id w x in
      (w, deeds) ∷ handle_all ws x'

  good_at :
      (w : Attempt) (c : GrantCache) (encoded : Bytes)
      → UsableAt ed f.grant_key (used_at w c, encoded)
      → GoodFor ed f w encoded
  good_at w c encoded u = elim (Bool-cases (is_fresh w.now c.grant)) [
    | inl e ↦ inl (rw e at u)
    | inr e ↦ inr (rw e at u)
  ]

  module _ (t : ℕ) (w : Journey) (c : GrantCache) (before : t ≤ w.attempt.now)
      (after : w.attempt.now ≤ w.attempt.verified_at)
      (k : Cached ed f.grant_key t c.encoded c.grant) where
    abbrev call : GrantCache × Except RequestError Bytes
    call = current_grant ed f w.attempt c

    after_session-IsSound :
        (x : Link F × Option ℕ)
        → Memᴰ joins (after_session ed floats random f device_id w c x).1
        → IsSound ed f device_id w (after_session ed floats random f device_id w c x).1
    after_session-IsSound (l, none) (Memᴰ.head h) = absurd (cc h)
    after_session-IsSound (l, none) (Memᴰ.tail m) = elim m [ ]
    after_session-IsSound (l, some s) m =
        let i = after_grant-IsCarried device_id w s call.1 m in
        let g = (current_grant-IsCall ed f t w.attempt c before after k).good in
        record {
          session = i.session;
          encoded = i.encoded;
          done = i.done;
          device = i.device;
          good = good_at w.attempt c i.encoded (rw i.granted at g).0;
        }

    after_session-Cached :
        (x : Link F × Option ℕ)
        → (let c' = (after_session ed floats random f device_id w c x).0.1 in
            Cached ed f.grant_key w.attempt.verified_at c'.encoded c'.grant)
    after_session-Cached (l, none) =
        Cached-later ed f t w.attempt c before after c.encoded c.grant k
    after_session-Cached (l, some s) =
        (current_grant-IsCall ed f t w.attempt c before after k).cached

  handle_from-IsSound :
      (t : ℕ) (ws : List Journey) (x : Link F × GrantCache) (w : Journey) (deeds : List Deed)
      → InOrder t ws
      → Cached ed f.grant_key t x.1.encoded x.1.grant
      → Memᴰ (w, deeds) (handle_all ws x)
      → Memᴰ joins deeds
      → IsSound ed f device_id w deeds
  unfolding handle_all handle_local
  handle_from-IsSound t [] x w deeds o k m j = elim m [ ]
  handle_from-IsSound t (v ∷ ws) (l, c) w deeds (b, a, o) k (Memᴰ.head e) j =
      let y = relay_session floats random v.meeting l in
      let same : w ≡ v = ap (λ z. z.0) e in
      let done : deeds ≡ (after_session ed floats random f device_id v c y).1 = ap (λ z. z.1) e in
      rw (same, done) (after_session-IsSound t v c b a k y (rw done at j))
  handle_from-IsSound t (v ∷ ws) (l, c) w deeds (b, a, o) k (Memᴰ.tail m) j =
      let y = relay_session floats random v.meeting l in
      handle_from-IsSound v.attempt.verified_at ws
        (after_session ed floats random f device_id v c y).0 w deeds o
        (after_session-Cached t v c b a k y) m j

  -- Whatever the control plane, the relay and the other end answer, as long as the clock does not go
  -- back, a connection is carried only over a stream that was opened with a grant that was good when it
  -- was used, and only to an end that has shown a certificate of the very device that was asked for.
  pub handle_all-IsSound :
      (t : ℕ) (ws : List Journey) (l : Link F) (w : Journey) (deeds : List Deed)
      → InOrder t ws
      → Memᴰ (w, deeds) (handle_all ws (l, empty_cache))
      → Memᴰ joins deeds
      → IsSound ed f device_id w deeds
  unfolding empty_cache Cached
  handle_all-IsSound t ws l w deeds o m j =
      handle_from-IsSound t ws (l, empty_cache) w deeds o tt m j
