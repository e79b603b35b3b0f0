-- ===== src/Proto/Reason.antt =====
-- internal/proto/reason.go: the reason codes, which are strings on the wire.
use secure_access_relay.Common.{
  Bytes, bytes_eq, bytes_eq→eq, codes, if◌then◌else◌, List, [], ◌∷◌, ◌≡◌, refl, inl, inr,
  Bool-cases, Bool, true, false,
}

-- `other` is a string that is none of the codes; `other []` is the empty string.
pub data Reason : Type 0 where
  ok grant_invalid_signature grant_expired grant_not_yet_valid grant_device_mismatch : Reason
  grant_revoked resource_unknown resource_target_not_loopback policy_denied : Reason
  limit_streams_exceeded limit_bytes_exceeded limit_frame_too_large : Reason
  target_connection_refused target_timeout protocol_version_unsupported : Reason
  protocol_malformed_frame flow_control_violation auth_failed session_replaced : Reason
  idle_timeout shutdown no_agent : Reason
  other : Bytes → Reason

-- `string(r)`, what a frame carries.
unfoldable pub reason_bytes : Reason → Bytes
reason_bytes ok = codes "ok"
reason_bytes grant_invalid_signature = codes "grant_invalid_signature"
reason_bytes grant_expired = codes "grant_expired"
reason_bytes grant_not_yet_valid = codes "grant_not_yet_valid"
reason_bytes grant_device_mismatch = codes "grant_device_mismatch"
reason_bytes grant_revoked = codes "grant_revoked"
reason_bytes resource_unknown = codes "resource_unknown"
reason_bytes resource_target_not_loopback = codes "resource_target_not_loopback"
reason_bytes policy_denied = codes "policy_denied"
reason_bytes limit_streams_exceeded = codes "limit_streams_exceeded"
reason_bytes limit_bytes_exceeded = codes "limit_bytes_exceeded"
reason_bytes limit_frame_too_large = codes "limit_frame_too_large"
reason_bytes target_connection_refused = codes "target_connection_refused"
reason_bytes target_timeout = codes "target_timeout"
reason_bytes protocol_version_unsupported = codes "protocol_version_unsupported"
reason_bytes protocol_malformed_frame = codes "protocol_malformed_frame"
reason_bytes flow_control_violation = codes "flow_control_violation"
reason_bytes auth_failed = codes "auth_failed"
reason_bytes session_replaced = codes "session_replaced"
reason_bytes idle_timeout = codes "idle_timeout"
reason_bytes shutdown = codes "shutdown"
reason_bytes no_agent = codes "no_agent"
reason_bytes (other s) = s

-- The codes that have a name.
abbrev known_reasons : List Reason
known_reasons =
    ok ∷ grant_invalid_signature ∷ grant_expired ∷ grant_not_yet_valid ∷ grant_device_mismatch
    ∷ grant_revoked ∷ resource_unknown ∷ resource_target_not_loopback ∷ policy_denied
    ∷ limit_streams_exceeded ∷ limit_bytes_exceeded ∷ limit_frame_too_large
    ∷ target_connection_refused ∷ target_timeout ∷ protocol_version_unsupported
    ∷ protocol_malformed_frame ∷ flow_control_violation ∷ auth_failed ∷ session_replaced
    ∷ idle_timeout ∷ shutdown ∷ no_agent ∷ []

find_reason : Bytes → List Reason → Reason
find_reason s [] = other s
find_reason s (r ∷ rs) = if bytes_eq (reason_bytes r) s then r else find_reason s rs

-- The conversion `Reason(payload)`.
unfoldable pub reason_of_bytes : Bytes → Reason
unfolding find_reason reason_bytes bytes_eq
reason_of_bytes s = find_reason s known_reasons

find_reason-bytes : (s : Bytes) (rs : List Reason) → reason_bytes (find_reason s rs) ≡ s
unfolding find_reason reason_bytes
find_reason-bytes s [] = refl
find_reason-bytes s (r ∷ rs) = elim (Bool-cases (bytes_eq (reason_bytes r) s)) [
  | inl e ↦ rw e (bytes_eq→eq (reason_bytes r) s e)
  | inr e ↦ rw e (find_reason-bytes s rs)
]

-- No byte is lost when a payload is read as a reason.
pub reason_bytes-reason_of_bytes : (s : Bytes) → reason_bytes (reason_of_bytes s) ≡ s
unfolding reason_of_bytes
reason_bytes-reason_of_bytes s = find_reason-bytes s known_reasons

-- A known code is read back as itself.
abbrev IsKnown : Reason → Type 0
IsKnown (other s) = ⊥
IsKnown _ = Unit

pub reason_of_bytes-reason_bytes : (r : Reason) → IsKnown r → reason_of_bytes (reason_bytes r) ≡ r
unfolding reason_of_bytes
reason_of_bytes-reason_bytes (other s) h = absurd h
reason_of_bytes-reason_bytes _ h = refl

-- `reason == ReasonOK`.
abbrev pub is_ok_reason : Reason → Bool
is_ok_reason ok = true
is_ok_reason _ = false
