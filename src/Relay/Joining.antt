-- ===== src/Relay/Joining.antt =====
-- internal/relay/relay.go, `joinStream`: what the relay does with a stream that an operator opens.
pub mod Authorized
use secure_access_relay.Common.{
  ℕ, not, Bool, true, false, if◌then◌else◌, Bytes, bytes_eq, List, [], ◌∷◌, ◌++◌, Option, none,
  some,
}
use secure_access_relay.Common.Except.{Except, ok, err}
use secure_access_relay.Proto.Reason
use secure_access_relay.Proto.Reason.{Reason}
use secure_access_relay.Proto.Grant.{
  Ed25519, Grant, SignedGrant, GrantError, decode_grant, verify, reason_for_grant,
}

-- internal/relay/authorization, `GrantState`, without the user that only the log names.
pub record GrantState : Type 0 where
  pub is_known : Bool
  pub is_revoked : Bool
  pub session_id : Bytes

-- How `CheckGrant` answers.
pub data Check : Type 0 where
  failed : Check
  state : GrantState → Check

-- How the agent's session answers `Open`.
pub data Opened : Type 0 where
  opened : Opened
  too_many_streams stream_refused other_error : Opened

-- The relay's key, whether it audits, and how it asks for the state of a grant, if it does.
pub record Config : Type 0 where
  pub grant_key : Bytes
  pub audit : Bool
  pub grants : Option (Bytes → Check)

-- What the relay does, in order. `releases` is the function that `Add` returned.
pub data Action : Type 0 where
  resets : Reason → Action
  opens : Bytes → Action
  adds : Bytes → Action
  joins : Action
  releases : Bytes → Action
  audits_denied : Bytes → Reason → Action
  audits_opened : Bytes → Bytes → Action
  audits_closed : Bytes → Reason → Action

abbrev pub audited : Config → Action → List Action
audited cfg a = if cfg.audit then a ∷ [] else []

-- The reason for which no stream could be opened to the agent.
unfoldable pub open_reason : Opened → Reason
open_reason too_many_streams = Reason.limit_streams_exceeded
open_reason stream_refused = Reason.limit_streams_exceeded
open_reason _ = Reason.no_agent

-- The session that the records name, or the revocation of the grant.
unfoldable pub standing : Option Check → Option Bytes
standing none = some []
standing (some failed) = some []
standing (some (state s)) =
    if not s.is_known then some [] else if s.is_revoked then none else some s.session_id

abbrev pub check_of : Config → Bytes → Option Check
check_of cfg grant_id = elim cfg.grants [ none ↦ none | some f ↦ some (f grant_id) ]

abbrev pub closing_reason : Bool → Reason
closing_reason broken = if broken then Reason.shutdown else Reason.ok

module _ (ed : Ed25519) (cfg : Config) (device_id user_id : Bytes) (now : ℕ) (answer : Opened)
    (broken : Bool) where
  -- Both ends are registered before any byte moves, and released when the join has ended.
  abbrev pub after_open : SignedGrant → Bytes → Opened → List Action
  after_open s session_id opened =
      adds s.grant.grant_id
      ∷ (audited cfg (audits_opened s.grant.grant_id session_id)
          ++ joins
            ∷ (audited cfg (audits_closed s.grant.grant_id (closing_reason broken))
                ++ releases s.grant.grant_id ∷ []))
  after_open s session_id o =
      audited cfg (audits_denied s.grant.grant_id (open_reason o)) ++ resets (open_reason o) ∷ []

  abbrev pub after_check : SignedGrant → Bytes → Option Bytes → List Action
  after_check s payload none =
      audited cfg (audits_denied s.grant.grant_id Reason.grant_revoked)
      ++ resets Reason.grant_revoked ∷ []
  after_check s payload (some session_id) = opens payload ∷ after_open s session_id answer

  abbrev pub after_verify : SignedGrant → Bytes → Option GrantError → List Action
  after_verify s payload (some e) = resets (reason_for_grant (some e)) ∷ []
  after_verify s payload none =
      if not (bytes_eq s.grant.user_id user_id)
      then resets Reason.policy_denied ∷ []
      else if not (bytes_eq s.grant.device_id device_id)
      then resets Reason.grant_device_mismatch ∷ []
      else after_check s payload (standing (check_of cfg s.grant.grant_id))

  abbrev pub after_decode : Bytes → Except GrantError SignedGrant → List Action
  after_decode payload (err e) = resets (reason_for_grant (some e)) ∷ []
  after_decode payload (ok s) =
      after_verify s payload (verify ed s cfg.grant_key now s.grant.device_id)

  unfoldable pub join_stream : Bytes → List Action
  join_stream [] = resets Reason.policy_denied ∷ []
  join_stream (b ∷ payload) = after_decode (b ∷ payload) (decode_grant (b ∷ payload))
