-- ===== src/Operator/Grants/Fresh.antt =====
-- Every grant that a forward uses is good when it uses it (internal/operator/grant.go).
use secure_access_relay.Common.{
  if◌then◌else◌, ℕ, ◌-◌, ◌≤◌, not, ◌==◌, true, Bool-cases, Bytes, List, [], ◌∷◌, ◌++◌, Option, none,
  some, ◌≡◌, refl, inl, inr, All, All-append, arith, ltb→lt, if_intro,
}
use secure_access_relay.Common.Except.{Except, ok, err}
use secure_access_relay.Proto.Grant.{
  Ed25519, SignedGrant, GrantError, is_empty, decode_grant, verify,
}
use secure_access_relay.Proto.Grant.Verifying.{verify_iff}
use secure_access_relay.Agent.{remaining}
use secure_access_relay.Operator.Sessions.{Sent}
use secure_access_relay.Operator.Grants.{
  grant_refresh_margin, Forward, GrantCache, empty_cache, GrantReply, RequestError, Attempt,
  checked, verified_with, decoded, with_encoding, read_grant, with_session, request_grant, is_fresh,
  renewed, current_grant,
}

-- When the grant of a call is used, and which.
abbrev pub used : ℕ → Except RequestError Bytes → List (ℕ × Bytes)
used now (err e) = []
used now (ok encoded) = (now, encoded) ∷ []

-- A grant from the cache is used at the first reading of the clock, another at the second.
abbrev pub used_at : Attempt → GrantCache → ℕ
used_at w c = if is_fresh w.now c.grant then w.now else w.verified_at

-- Each call reads the clock after the one before it.
abbrev pub Ordered : ℕ → List Attempt → Type 0
Ordered t [] = Unit {0}
Ordered t (w ∷ ws) = (t ≤ w.now) × (w.now ≤ w.verified_at) × Ordered w.verified_at ws

module _ (ed : Ed25519) where
  -- The grants that calls of `grant` are answered with, one after another.
  unfoldable pub run_grants : Forward → List Attempt → GrantCache → List (ℕ × Bytes)
  unfolding current_grant
  run_grants f [] c = []
  run_grants f (w ∷ ws) c =
      let (c', r) = current_grant ed f w c in used (used_at w c) r ++ run_grants f ws c'

  abbrev pub Verified : Option Bytes → ℕ → SignedGrant → Type 0
  Verified none now s = Unit {0}
  Verified (some key) now s = verify ed s key now s.grant.device_id ≡ none

  -- The encoding of a signed grant, which `Verify` accepts at the time, if there is a key.
  abbrev pub Usable : Option Bytes → ℕ → Bytes → Type 0
  Usable key now encoded = (s : SignedGrant) × (decode_grant encoded ≡ ok s) × Verified key now s

  unfoldable pub Cached : Option Bytes → ℕ → Bytes → Option SignedGrant → Type 0
  Cached key now encoded none = Unit {0}
  Cached key now encoded (some s) =
      (decode_grant encoded ≡ ok s) × ((t : ℕ) × (t ≤ now) × Verified key t s)

  -- A grant that was verified before and has time left still verifies.
  Verified-later :
      (key : Option Bytes) (t now : ℕ) (s : SignedGrant)
      → t ≤ now
      → now ≤ s.grant.expires_at
      → Verified key t s
      → Verified key now s
  Verified-later none t now s h k v = tt
  Verified-later (some key) t now s h k v =
      let good = (verify_iff ed s key t s.grant.device_id).0 v in
      (verify_iff ed s key now s.grant.device_id).1 (record {
        version = good.version;
        size = good.size;
        signed = good.signed;
        lifetime = good.lifetime;
        started = omega (arith, good.started);
        running = omega arith;
        device = good.device;
      })

  module _ (f : Forward) (now : ℕ) where
    Answered : Except RequestError (Bytes × SignedGrant) → Type 0
    Answered (err e) = Unit {0}
    Answered (ok (encoded, s)) = (decode_grant encoded ≡ ok s) × Verified f.grant_key now s

    verified_with-Answered :
        (key : Option Bytes) (encoded : Bytes) (s : SignedGrant)
        → f.grant_key ≡ key
        → decode_grant encoded ≡ ok s
        → Answered (verified_with ed key now encoded s)
    unfolding Answered
    verified_with-Answered none encoded s e d = (d, rw e tt)
    verified_with-Answered (some key) encoded s e d = go _ refl
      where
        go :
            (o : Option GrantError)
            → verify ed s key now s.grant.device_id ≡ o
            → Answered (checked ed encoded s o)
        go none q = (d, rw e q)
        go (some x) q = tt

    with_encoding-Answered : (o : Option Bytes) → Answered (with_encoding ed f now o)
    unfolding Answered
    with_encoding-Answered none = tt
    with_encoding-Answered (some encoded) = go _ refl
      where
        go :
            (o : Except GrantError SignedGrant)
            → decode_grant encoded ≡ o
            → Answered (decoded ed f now encoded o)
        go (err e) q = tt
        go (ok s) q = verified_with-Answered f.grant_key encoded s refl q

    read_grant-Answered : (o : Option GrantReply) → Answered (read_grant ed f now o)
    unfolding Answered
    read_grant-Answered none = tt
    read_grant-Answered (some r) =
        if_intro Answered (not r.decodes) (λ _. tt)
          (λ _.
            if_intro Answered (not (r.status == 200))
              (λ _. if_intro Answered (is_empty r.message) (λ _. tt) (λ _. tt))
              (λ _. with_encoding-Answered r.grant))

  -- What is answered to a request decodes and verifies.
  request_grant-Answered :
      (f : Forward) (w : Attempt) → Answered f w.verified_at (request_grant ed f w).1
  unfolding Answered request_grant
  request_grant-Answered f w =
      if_intro
        (λ (x : List Sent × Except RequestError (Bytes × SignedGrant)).
          Answered f w.verified_at x.1)
        (is_empty f.control_addr) (λ _. tt) (λ _. go w.session)
    where
      go : (o : Option (Option Bytes)) → Answered f w.verified_at (with_session ed f w o).1
      go none = read_grant-Answered f w.verified_at w.reply
      go (some none) = tt
      go (some (some token)) = read_grant-Answered f w.verified_at w.reply

  abbrev pub UsableAt : Option Bytes → (ℕ × Bytes) → Type 0
  UsableAt key (now, encoded) = Usable key now encoded

  pub record IsCall (f : Forward) (w : Attempt) (at : ℕ)
      (x : GrantCache × Except RequestError Bytes) : Type 0 where
    pub cached : Cached f.grant_key w.verified_at x.0.encoded x.0.grant
    pub good : All (UsableAt f.grant_key) (used at x.1)

  module _ (f : Forward) (t : ℕ) (w : Attempt) (c : GrantCache) (before : t ≤ w.now)
      (after : w.now ≤ w.verified_at) where
    -- The cached grant is kept for later.
    pub Cached-later :
        (e : Bytes) (g : Option SignedGrant)
        → Cached f.grant_key t e g
        → Cached f.grant_key w.verified_at e g
    unfolding Cached
    Cached-later e none k = tt
    Cached-later e (some s) (d, (u, le, v)) = (d, (u, omega arith, v))

    reused :
        (e : Bytes) (g : Option SignedGrant)
        → is_fresh w.now g ≡ true
        → Cached f.grant_key t e g
        → Usable f.grant_key w.now e
    unfolding Cached remaining
    reused e none h k = absurd (cc h)
    reused e (some s) h (d, (u, le, v)) = (
      s,
      d,
      Verified-later f.grant_key u w.now s (omega arith)
          (omega (arith, ltb→lt grant_refresh_margin (s.grant.expires_at - w.now) h)) v,
    )

    replaced :
        (x : List Sent × Except RequestError (Bytes × SignedGrant))
        → Cached f.grant_key t c.encoded c.grant
        → Answered f w.verified_at x.1
        → IsCall f w w.verified_at (renewed c x)
    unfolding Answered Cached
    replaced (log, err e) k a = record { cached = Cached-later c.encoded c.grant k; good = tt }
    replaced (log, ok (encoded, s)) k (d, v) = record {
      cached = (d, (w.verified_at, omega arith, v));
      good = ((s, d, v), tt);
    }

    pub current_grant-IsCall :
        Cached f.grant_key t c.encoded c.grant → IsCall f w (used_at w c) (current_grant ed f w c)
    unfolding current_grant
    current_grant-IsCall k = elim (Bool-cases (is_fresh w.now c.grant)) [
      | inl e ↦ rw e (record {
        cached = Cached-later c.encoded c.grant k;
        good = (reused c.encoded c.grant e k, tt);
      })
      | inr e ↦ rw e (replaced (request_grant ed f w) k (request_grant-Answered f w))
    ]

  run_grants-Usable :
      (f : Forward) (t : ℕ) (ws : List Attempt) (c : GrantCache)
      → Ordered t ws
      → Cached f.grant_key t c.encoded c.grant
      → All (UsableAt f.grant_key) (run_grants f ws c)
  unfolding run_grants
  run_grants-Usable f t [] c o k = tt
  run_grants-Usable f t (w ∷ ws) c (b, a, o) k =
      let i = current_grant-IsCall f t w c b a k in
      All-append (UsableAt f.grant_key) (used (used_at w c) (current_grant ed f w c).1) _ i.good
        (run_grants-Usable f w.verified_at ws (current_grant ed f w c).0 o i.cached)

  -- Whatever the control plane answers, as long as the clock does not go back, every grant that a
  -- forward uses, from its cache or just answered, is the encoding of a signed grant, and with a grant
  -- key one that `Verify` accepts at the very time it is used.
  pub grants_are_usable :
      (f : Forward) (t : ℕ) (ws : List Attempt)
      → Ordered t ws
      → All (UsableAt f.grant_key) (run_grants f ws empty_cache)
  unfolding empty_cache Cached
  grants_are_usable f t ws o = run_grants-Usable f t ws empty_cache o tt
