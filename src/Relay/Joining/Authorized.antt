-- ===== src/Relay/Joining/Authorized.antt =====
-- The relay opens a stream to an agent only for a grant it has checked (internal/relay/relay.go).
use mathlib.Core.List.Memᴰ
use mathlib.Core.List.Memᴰ.{Memᴰ}
use secure_access_relay.Common.{
  ℕ, not, Bool, true, false, if_intro, if◌then◌else◌, Bytes, bytes_eq, bytes_eq→eq, List, [], ◌∷◌,
  ◌++◌, All, All-append, Option, none, some, ◌≡◌, ◌≢◌, refl, sym, ◌∙◌, ap, subst,
}
use secure_access_relay.Common.Except.{Except, ok, err, ok_injective}
use secure_access_relay.Proto.Reason.{Reason}
use secure_access_relay.Proto.Grant.{Ed25519, SignedGrant, GrantError, decode_grant, verify}
use secure_access_relay.Agent
use secure_access_relay.Agent.{Net, Agent, Surroundings, handle_stream}
use secure_access_relay.Agent.Enforcement.{IsAuthorized, handle_stream-IsAuthorized}
use secure_access_relay.Relay.Joining.{
  Opened, opened, Config, Action, resets, opens, audited, standing, check_of, after_open,
  after_check, after_verify, after_decode, join_stream,
}

-- An action that opens no stream.
abbrev Quiet : Action → Type 0
Quiet (opens p) = ⊥
Quiet _ = Unit

Quiet-absent : (p : Bytes) (acts : List Action) → All Quiet acts → ¬ Memᴰ (opens p) acts
Quiet-absent p [] q m = Memᴰ.not-nil m
Quiet-absent p (a ∷ acts) (q, qs) (Memᴰ.head e) = subst Quiet (sym e) q
Quiet-absent p (a ∷ acts) (q, qs) (Memᴰ.tail m) = Quiet-absent p acts qs m

Quiet-audited : (cfg : Config) (a : Action) → Quiet a → All Quiet (audited cfg a)
Quiet-audited cfg a q = if_intro (All Quiet) cfg.audit (λ _. (q, tt)) (λ _. tt)

Quiet-then :
    (cfg : Config) (a : Action) (acts : List Action)
    → Quiet a
    → All Quiet acts
    → All Quiet (audited cfg a ++ acts)
Quiet-then cfg a acts q qs = All-append Quiet (audited cfg a) acts (Quiet-audited cfg a q) qs

-- Which branch of a test an action stands in.
mem_if :
    (p : Bytes) (b : Bool) (xs ys : List Action)
    → Memᴰ (opens p) (if not b then xs else ys)
    → All Quiet xs
    → (b ≡ true) × Memᴰ (opens p) ys
mem_if p true xs ys m q = (refl, m)
mem_if p false xs ys m q = absurd (Quiet-absent p xs q m)

-- What the relay knows when it opens a stream to an agent: the grant that the operator presented, as
-- it came, genuine, unexpired, of this operator for this device, and of no revocation.
pub record IsJoinable (ed : Ed25519) (cfg : Config) (device_id user_id : Bytes) (now : ℕ)
    (payload sent_on : Bytes) : Type 0 where
  pub signed : SignedGrant
  pub decoded : decode_grant payload ≡ ok signed
  pub good : verify ed signed cfg.grant_key now signed.grant.device_id ≡ none
  pub user : signed.grant.user_id ≡ user_id
  pub device : signed.grant.device_id ≡ device_id
  pub not_revoked : standing (check_of cfg signed.grant.grant_id) ≢ none
  pub unchanged : sent_on ≡ payload

module _ (ed : Ed25519) (cfg : Config) (device_id user_id : Bytes) (now : ℕ) (answer : Opened)
    (broken : Bool) where
  Quiet-open :
      (s : SignedGrant) (session_id : Bytes) (o : Opened)
      → All Quiet (after_open ed cfg device_id user_id now answer broken s session_id o)
  Quiet-open s i opened = (tt, Quiet-then cfg _ _ tt (tt, Quiet-then cfg _ _ tt (tt, tt)))
  Quiet-open s i _ = Quiet-then cfg _ _ tt (tt, tt)

  was_checked :
      (s : SignedGrant) (payload p : Bytes) (o : Option Bytes)
      → Memᴰ (opens p) (after_check ed cfg device_id user_id now answer broken s payload o)
      → (o ≢ none) × (p ≡ payload)
  was_checked s payload p none m = absurd (Quiet-absent p _ (Quiet-then cfg _ _ tt (tt, tt)) m)
  was_checked s payload p (some i) (Memᴰ.head e) = (λ h. cc, cc)
  was_checked s payload p (some i) (Memᴰ.tail m) =
      absurd (Quiet-absent p _ (Quiet-open s i answer) m)

  matched :
      (s : SignedGrant) (payload p : Bytes) (o : Option GrantError)
      → Memᴰ (opens p) (after_verify ed cfg device_id user_id now answer broken s payload o)
      → (o ≡ none)
        × (s.grant.user_id ≡ user_id)
        × (s.grant.device_id ≡ device_id)
        × Memᴰ (opens p) (
            after_check ed cfg device_id user_id now answer broken s payload
              (standing (check_of cfg s.grant.grant_id)))
  matched s payload p (some e) m = absurd (Quiet-absent p _ (tt, tt) m)
  matched s payload p none m =
      let (u, m₁) =
        mem_if p (bytes_eq s.grant.user_id user_id) (resets Reason.policy_denied ∷ []) _ m
          (tt, tt) in
      let (d, m₂) =
        mem_if p (bytes_eq s.grant.device_id device_id) (resets Reason.grant_device_mismatch ∷ []) _
          m₁ (tt, tt) in
      (refl, bytes_eq→eq s.grant.user_id user_id u, bytes_eq→eq s.grant.device_id device_id d, m₂)

  decoded :
      (payload p : Bytes) (o : Except GrantError SignedGrant)
      → decode_grant payload ≡ o
      → Memᴰ (opens p) (after_decode ed cfg device_id user_id now answer broken payload o)
      → IsJoinable ed cfg device_id user_id now payload p
  decoded payload p (err e) h m = absurd (Quiet-absent p _ (tt, tt) m)
  decoded payload p (ok s) h m =
      let (v, u, d, m₁) = matched s payload p _ m in
      let (r, c) = was_checked s payload p _ m₁ in
      record {
        signed = s;
        decoded = h;
        good = v;
        user = u;
        device = d;
        not_revoked = r;
        unchanged = c;
      }

  -- Whatever an operator presents, the relay opens a stream to the agent only with the very bytes
  -- that were presented, and only if they are a grant that verifies, of this operator and for this
  -- device, which the control plane does not report as revoked.
  pub join_stream-IsJoinable :
      (payload p : Bytes)
      → Memᴰ (opens p) (join_stream ed cfg device_id user_id now answer broken payload)
      → IsJoinable ed cfg device_id user_id now payload p
  unfolding join_stream
  join_stream-IsJoinable [] p m = absurd (Quiet-absent p _ (tt, tt) m)
  join_stream-IsJoinable (b ∷ payload) p m = decoded (b ∷ payload) p _ refl m

  -- What the relay and the agent agree on: one grant, of this operator, for the device that the
  -- relay asked for.
  pub record IsOneGrant (net : Net) (agent : Agent) (w : Surroundings)
      (payload sent_on target : Bytes) : Type 0 where
    pub at_relay : IsJoinable ed cfg device_id user_id now payload sent_on
    pub at_agent : IsAuthorized ed net agent w sent_on target
    pub same : at_agent.signed ≡ at_relay.signed
    pub user : at_agent.signed.grant.user_id ≡ user_id
    pub device : at_agent.signed.grant.device_id ≡ device_id

  -- From the operator to the local service: if the relay opened a stream to an agent with some bytes
  -- and that agent dialled a target for them, then both read one and the same grant, of this operator,
  -- whose device is the one the relay asked for, and the agent has verified it with its own key for its
  -- own device and found the target, a loopback address, in its own list.
  pub end_to_end :
      (net : Net) (agent : Agent) (w : Surroundings) (payload p target : Bytes)
      → Memᴰ (opens p) (join_stream ed cfg device_id user_id now answer broken payload)
      → Memᴰ (Agent.dials target) (handle_stream ed net agent w p)
      → IsOneGrant net agent w payload p target
  end_to_end net agent w payload p target m n =
      let j = join_stream-IsJoinable payload p m in
      let a = handle_stream-IsAuthorized ed net agent w p target n in
      let same : a.signed ≡ j.signed =
        ok_injective (sym a.decoded ∙ (ap decode_grant j.unchanged ∙ j.decoded)) in
      record {
        at_relay = j;
        at_agent = a;
        same = same;
        user = ap (λ z. z.grant.user_id) same ∙ j.user;
        device = ap (λ z. z.grant.device_id) same ∙ j.device;
      }
