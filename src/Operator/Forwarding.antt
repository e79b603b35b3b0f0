-- ===== src/Operator/Forwarding.antt =====
-- internal/operator/forward.go: a forward, its session with the relay, and its connections.
pub mod Carried
use secure_access_relay.Common.{
  ℕ, ◌+◌, ltb, not, Bool, true, false, if◌then◌else◌, Bytes, List, [], ◌∷◌, Option, none, some,
}
use secure_access_relay.Common.Except.{Except, ok, err}
use secure_access_relay.Proto.Reason
use secure_access_relay.Proto.Reason.{Reason}
use secure_access_relay.Proto.Grant.{Ed25519, is_empty, max_grant_ttl}
use secure_access_relay.Control.Policy.{Duration, nanoseconds, negative}
use secure_access_relay.Control.Enrollment.{Identity, role_device}
use secure_access_relay.Agent.{Net, is_target}
use secure_access_relay.Backoff.{Floats, Pace, Random, next, reset}
use secure_access_relay.E2ee.{InnerError, Exchange, inner_session}
use secure_access_relay.Operator.Grants.{Forward, GrantCache, RequestError, Attempt, current_grant}

-- `Config`, without what only names, times or logs.
pub record Config : Type 0 where
  pub listen_addr : Bytes
  pub enrolled : Bool
  pub device_id : Bytes
  pub resource : Bytes
  pub grant_ttl : Duration

pub data ConfigError : Type 0 where
  not_enrolled no_device no_resource not_loopback : ConfigError

module _ (net : Net) where
  abbrev pub is_listenable : Option (Bytes × Bytes) → Bool
  is_listenable none = false
  is_listenable (some (host, port)) =
      if is_empty port
      then false
      else if is_empty host
      then false
      else is_target net (net.parse_ip host)

  -- Whether `validateListenAddr` accepts the address.
  unfoldable pub validate_listen_addr : Bytes → Bool
  validate_listen_addr addr = is_listenable (net.split_host_port addr)

  abbrev pub ttl_or_max : Duration → ℕ
  ttl_or_max (negative n) = max_grant_ttl
  ttl_or_max (nanoseconds n) = if ltb 0 n then n else max_grant_ttl

  -- `New`, with the lifetime that grants are asked for.
  unfoldable pub new_forwarder : Config → Except ConfigError ℕ
  unfolding validate_listen_addr
  new_forwarder c =
      if not c.enrolled
      then err not_enrolled
      else if is_empty c.device_id
      then err no_device
      else if is_empty c.resource
      then err no_resource
      else if not (validate_listen_addr c.listen_addr)
      then err not_loopback
      else ok (ttl_or_max c.grant_ttl)

-- The session with the relay, if there is one, and when it may be dialled again.
pub record Link (F : Type 0) : Type 0 where
  pub session : Option ℕ
  pub pace : Pace F
  pub not_before : ℕ

-- What a call of `session` meets: whether the session has ended, the clock, the session that a dial and
-- its handshake give, if they succeed, and the clock when they have failed.
pub record Meeting : Type 0 where
  pub ended : Bool
  pub now : ℕ
  pub dials : Option ℕ
  pub failed_at : ℕ

module _ {F : Type 0} (floats : Floats F) (random : Random) where
  -- `failed`.
  unfoldable pub postponed : ℕ → Link F → Link F
  unfolding next
  postponed failed_at l =
      let (pace, delay) = next floats random l.pace in
      record { session = none; pace = pace; not_before = failed_at + delay }

  abbrev pub dialled : Meeting → Link F → Option ℕ → Link F × Option ℕ
  dialled w l (some s) = (record { session = some s; pace = reset l.pace; not_before = 0 }, some s)
  dialled w l none = (postponed w.failed_at l, none)

  -- Nothing is dialled before the time is up.
  abbrev pub redial : Meeting → Link F → Link F × Option ℕ
  redial w l = if ltb w.now l.not_before then (l, none) else dialled w l w.dials

  abbrev pub with_live : Meeting → Link F → Option ℕ → Link F × Option ℕ
  with_live w l none = redial w l
  with_live w l (some s) = if w.ended then redial w (record l { session = none }) else (l, some s)

  -- `session`.
  unfoldable pub relay_session : Meeting → Link F → Link F × Option ℕ
  unfolding postponed reset
  relay_session w l = with_live w l l.session

pub data Deed : Type 0 where
  closes_local joins : Deed
  opens : ℕ → Bytes → Deed
  resets : Reason → Deed

-- What a connection meets: on the way to the session and to the grant, whether the stream opens, and the
-- inner session over it.
pub record Journey : Type 0 where
  pub meeting : Meeting
  pub attempt : Attempt
  pub opens_stream : Bool
  pub exchange : Exchange

abbrev pub after_secure : Except InnerError Identity → List Deed
after_secure (err e) = resets Reason.auth_failed ∷ closes_local ∷ []
after_secure (ok peer) = joins ∷ []

abbrev pub expected : Bytes → Identity
expected device_id = record { role = role_device; id = device_id }

abbrev pub after_grant : Bytes → Journey → ℕ → Except RequestError Bytes → List Deed
after_grant device_id w s (err e) = closes_local ∷ []
after_grant device_id w s (ok encoded) =
    opens s encoded
    ∷ (if not w.opens_stream
        then closes_local ∷ []
        else after_secure (inner_session (expected device_id) w.exchange))

module _ {F : Type 0} (ed : Ed25519) (floats : Floats F) (random : Random) (f : Forward)
    (device_id : Bytes) where
  abbrev pub after_session :
      Journey → GrantCache → Link F × Option ℕ → (Link F × GrantCache) × List Deed
  after_session w c (l, none) = ((l, c), closes_local ∷ [])
  after_session w c (l, some s) =
      let (c', r) = current_grant ed f w.attempt c in ((l, c'), after_grant device_id w s r)

  -- `handle`, up to the join of the two ends.
  unfoldable pub handle_local : Journey → Link F × GrantCache → (Link F × GrantCache) × List Deed
  unfolding relay_session current_grant inner_session
  handle_local w (l, c) = after_session w c (relay_session floats random w.meeting l)
