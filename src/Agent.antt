-- ===== src/Agent.antt =====
-- internal/agent: what an agent does with a stream that the relay opens (agent.go, resources.go).
pub mod Enforcement
pub mod Allowlist
use secure_access_relay.Common.{
  ℕ, ◌+◌, ◌-◌, ltb, ◌==◌, not, ◌||◌, ◌&&◌, Bool, true, false, if◌then◌else◌, Bytes, List, [], ◌∷◌,
  Option, none, some,
}
use secure_access_relay.Common.Except.{Except, ok, err}
use secure_access_relay.Common.Named.{Named, find}
use secure_access_relay.Proto.Reason
use secure_access_relay.Proto.Reason.{Reason}
use secure_access_relay.Proto.Grant.{
  Ed25519, Grant, SignedGrant, GrantError, is_empty, decode_grant, verify, reason_for_grant,
}

-- Package net: addresses and their parts.
pub record Net : Type 0 where
  pub split_host_port : Bytes → Option (Bytes × Bytes)
  pub parse_ip : Bytes → Option Bytes
  pub is_loopback : Bytes → Bool

-- `MaxDuration` is not negative after `validateResource`; 0 is no limit, as for `MaxBytes`.
pub record Resource : Type 0 where
  pub resource_id : Bytes
  pub target : Bytes
  pub max_bytes : ℕ
  pub max_duration : ℕ

pub data LookupError : Type 0 where
  resource_unknown target_not_loopback : LookupError

-- The agent's identity and its resources.
pub record Agent : Type 0 where
  pub grant_key : Bytes
  pub device_id : Bytes
  pub resources : Named Resource

pub data Dial : Type 0 where
  connected refused timed_out : Dial

-- What the agent meets: its clock at each reading, the inner session and the dial.
pub record Surroundings : Type 0 where
  pub verified_at : ℕ
  pub based_at : ℕ
  pub remaining_at : ℕ
  pub tested_at : ℕ
  pub capped_at : ℕ
  pub inner_session : Bool
  pub dial : Dial

pub data Action : Type 0 where
  resets : Reason → Action
  handshakes : Bytes → Action
  dials : Bytes → Action
  -- The two ends are joined, with a byte budget, until a deadline.
  joins : ℕ → ℕ → Action

unfoldable pub smaller_limit : ℕ → ℕ → ℕ
smaller_limit a b = if a == 0 then b else if b == 0 then a else if ltb a b then a else b

-- `ExpiresAt` less the time, and nothing below 0.
unfoldable pub remaining : SignedGrant → ℕ → ℕ
remaining s now = s.grant.expires_at - now

unfoldable pub deadline : Surroundings → SignedGrant → Resource → ℕ
unfolding remaining
deadline w s r =
    let until = w.based_at + remaining s w.remaining_at in
    if ltb 0 r.max_duration && ltb (w.tested_at + r.max_duration) until
    then w.capped_at + r.max_duration
    else until

module _ (net : Net) where
  abbrev pub is_target : Option Bytes → Bool
  is_target none = false
  is_target (some ip) = net.is_loopback ip

  abbrev pub has_target : Option (Bytes × Bytes) → Bool
  has_target none = false
  has_target (some (host, port)) = if is_empty port then false else is_target (net.parse_ip host)

  -- Whether `ValidateTarget` accepts the address.
  unfoldable pub validate_target : Bytes → Bool
  validate_target addr = has_target (net.split_host_port addr)

  abbrev pub checked : Option Resource → Except LookupError Resource
  checked none = err resource_unknown
  checked (some r) = if validate_target r.target then ok r else err target_not_loopback

  unfoldable pub lookup_resource : Bytes → Named Resource → Except LookupError Resource
  lookup_resource resource_id list = checked (find resource_id list)

abbrev pub after_dial : Surroundings → SignedGrant → Resource → Dial → List Action
after_dial w s r connected =
    joins (smaller_limit s.grant.max_bytes r.max_bytes) (deadline w s r) ∷ []
after_dial w s r refused = resets Reason.target_connection_refused ∷ []
after_dial w s r timed_out = resets Reason.target_timeout ∷ []

-- The inner session before the dial.
abbrev pub after_lookup : Surroundings → SignedGrant → Except LookupError Resource → List Action
after_lookup w s (ok r) =
    handshakes s.grant.user_id
    ∷ (if w.inner_session
        then dials r.target ∷ after_dial w s r w.dial
        else resets Reason.auth_failed ∷ [])
after_lookup w s (err resource_unknown) = resets Reason.resource_unknown ∷ []
after_lookup w s (err target_not_loopback) = resets Reason.resource_target_not_loopback ∷ []

module _ (ed : Ed25519) (net : Net) (a : Agent) (w : Surroundings) where
  abbrev pub after_verify : SignedGrant → Option GrantError → List Action
  after_verify s (some e) = resets (reason_for_grant (some e)) ∷ []
  after_verify s none = after_lookup w s (lookup_resource net s.grant.resource_id a.resources)

  abbrev pub after_decode : Except GrantError SignedGrant → List Action
  after_decode (err e) = resets (reason_for_grant (some e)) ∷ []
  after_decode (ok s) = after_verify s (verify ed s a.grant_key w.verified_at a.device_id)

  -- `handleStream` on the payload of the stream, up to the join of its two ends.
  unfoldable pub handle_stream : Bytes → List Action
  handle_stream [] = resets Reason.policy_denied ∷ []
  handle_stream (b ∷ payload) = after_decode (decode_grant (b ∷ payload))
