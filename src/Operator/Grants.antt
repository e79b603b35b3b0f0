-- ===== src/Operator/Grants.antt =====
-- internal/operator/grant.go: the grant that a forward holds, and how it comes by another.
pub mod Fresh
use secure_access_relay.Common.{
  ℕ, ◌+◌, ◌*◌, ltb, ◌==◌, not, Bool, true, false, if◌then◌else◌, Bytes, List, [], ◌∷◌, ◌++◌, Option,
  none, some,
}
use secure_access_relay.Common.Except.{Except, ok, err}
use secure_access_relay.Proto.Grant.{
  Ed25519, SignedGrant, GrantError, is_empty, second, decode_grant, verify,
}
use secure_access_relay.Agent.{remaining}
use secure_access_relay.Operator.Sessions.{Sent}

abbrev pub grant_refresh_margin : ℕ
grant_refresh_margin = 60 * second

-- What of the `Config` concerns grants; `GrantKey` may be absent.
pub record Forward : Type 0 where
  pub control_addr : Bytes
  pub grant_key : Option Bytes

-- `grantCache`.
pub record GrantCache : Type 0 where
  pub encoded : Bytes
  pub grant : Option SignedGrant

unfoldable pub empty_cache : GrantCache
empty_cache = record { encoded = []; grant = none }

-- An answer to the request for a grant: its status, and its body if it could be decoded, which is the
-- grant, if base 64 could be read, and the error.
pub record GrantReply : Type 0 where
  pub status : ℕ
  pub decodes : Bool
  pub grant : Option Bytes
  pub message : Bytes

pub data RequestError : Type 0 where
  no_control_addr no_session unreachable undecodable bad_encoding : RequestError
  refused_saying : Bytes → RequestError
  refused_with : ℕ → RequestError
  unusable unverified : GrantError → RequestError

-- What a call of `grant` meets: the clock, the token if sessions are in use and one could be had, the
-- answer if there is one, and the clock again.
pub record Attempt : Type 0 where
  pub now : ℕ
  pub session : Option (Option Bytes)
  pub reply : Option GrantReply
  pub verified_at : ℕ

abbrev pub is_fresh : ℕ → Option SignedGrant → Bool
is_fresh now none = false
is_fresh now (some s) = ltb grant_refresh_margin (remaining s now)

abbrev pub renewed :
    GrantCache
    → List Sent × Except RequestError (Bytes × SignedGrant)
    → GrantCache × Except RequestError Bytes
renewed c (log, err e) = (c, err e)
renewed c (log, ok (encoded, s)) = (record { encoded = encoded; grant = some s }, ok encoded)

module _ (ed : Ed25519) where
  abbrev pub checked :
      Bytes → SignedGrant → Option GrantError → Except RequestError (Bytes × SignedGrant)
  checked encoded s none = ok (encoded, s)
  checked encoded s (some e) = err (unverified e)

  -- Without a key there is nothing to verify with.
  abbrev pub verified_with :
      Option Bytes → ℕ → Bytes → SignedGrant → Except RequestError (Bytes × SignedGrant)
  verified_with none now encoded s = ok (encoded, s)
  verified_with (some key) now encoded s = checked encoded s (verify ed s key now s.grant.device_id)

  abbrev pub decoded :
      Forward
      → ℕ
      → Bytes
      → Except GrantError SignedGrant
      → Except RequestError (Bytes × SignedGrant)
  decoded f now encoded (err e) = err (unusable e)
  decoded f now encoded (ok s) = verified_with f.grant_key now encoded s

  abbrev pub with_encoding : Forward → ℕ → Option Bytes → Except RequestError (Bytes × SignedGrant)
  with_encoding f now none = err bad_encoding
  with_encoding f now (some encoded) = decoded f now encoded (decode_grant encoded)

  abbrev pub read_grant :
      Forward → ℕ → Option GrantReply → Except RequestError (Bytes × SignedGrant)
  read_grant f now none = err unreachable
  read_grant f now (some r) =
      if not r.decodes
      then err undecodable
      else if not (r.status == 200)
      then (if is_empty r.message
          then err (refused_with r.status)
          else err (refused_saying r.message))
      else with_encoding f now r.grant

  -- The request is sent once its token, if one is wanted, is at hand.
  abbrev pub with_session :
      Forward
      → Attempt
      → Option (Option Bytes)
      → List Sent × Except RequestError (Bytes × SignedGrant)
  with_session f w (some none) = ([], err no_session)
  with_session f w (some (some token)) =
      (record { address = f.control_addr; token = token } ∷ [], read_grant f w.verified_at w.reply)
  with_session f w none =
      (record { address = f.control_addr; token = [] } ∷ [], read_grant f w.verified_at w.reply)

  -- `requestGrant`, with the request that it sends.
  unfoldable pub request_grant :
      Forward → Attempt → List Sent × Except RequestError (Bytes × SignedGrant)
  unfolding decode_grant verify
  request_grant f w =
      if is_empty f.control_addr then ([], err no_control_addr) else with_session f w w.session

  -- `grant`.
  unfoldable pub current_grant :
      Forward → Attempt → GrantCache → GrantCache × Except RequestError Bytes
  unfolding request_grant remaining
  current_grant f w c =
      if is_fresh w.now c.grant then (c, ok c.encoded) else renewed c (request_grant f w)
