-- ===== src/Proto/Grant/Wire.antt =====
-- The fields of a grant that was encoded are read back (`Canonical`, internal/proto/grant.go).
use secure_access_relay.Common.{ℕ, ◌/◌, ◌%◌, ◌<◌, ◌≤◌, Bytes, length, ◌++◌, ◌≡◌, refl, arith}
use secure_access_relay.Common.Except.{ok}
use secure_access_relay.Proto.Handshake.{max_identity_len}
use secure_access_relay.Proto.Handshake.Auths.{prefixed, take_string-prefixed}
use secure_access_relay.Proto.Grant.{
  Grant, canonical, unix, second, u64_mod, of_be64, take_field, decode_tail, decode_fields,
  decode_body, grant_version,
}
use secure_access_relay.Proto.Grant.Canonical.{
  IsEncodable, tail_bytes, field_bytes, canonical_lem, of_unix-unix, unix-lt,
}

-- What the decoder accepts: strings within the limit, times in whole seconds, this version.
pub record IsWireGrant (g : Grant) : Type 0 where
  pub version : g.version ≡ grant_version
  pub key_id : length g.key_id ≤ max_identity_len
  pub grant_id : length g.grant_id ≤ max_identity_len
  pub org_id : length g.org_id ≤ max_identity_len
  pub user_id : length g.user_id ≤ max_identity_len
  pub device_id : length g.device_id ≤ max_identity_len
  pub resource_id : length g.resource_id ≤ max_identity_len
  pub issued_at : g.issued_at % second ≡ 0
  pub issued_at_lt : g.issued_at / second < u64_mod
  pub expires_at : g.expires_at % second ≡ 0
  pub expires_at_lt : g.expires_at / second < u64_mod
  pub max_bytes : g.max_bytes < u64_mod

pub IsWireGrant-IsEncodable : {g : Grant} → IsWireGrant g → IsEncodable g
IsWireGrant-IsEncodable w = omega arith

take_field-prefixed :
    (s rest : Bytes) → length s ≤ max_identity_len → take_field (prefixed s ++ rest) ≡ ok (s, rest)
take_field-prefixed s rest h = rw (take_string-prefixed s rest h, take_field) refl

be64-of_be64 :
    (n : ℕ)
    → n < u64_mod
    → of_be64
        (n / 4294967296 / 16777216 % 256)
        (n / 4294967296 / 65536 % 256)
        (n / 4294967296 / 256 % 256)
        (n / 4294967296 % 256)
        (n / 16777216 % 256)
        (n / 65536 % 256)
        (n / 256 % 256)
        (n % 256)
      ≡ n
be64-of_be64 n h = omega arith

decode-tail_bytes :
    (g : Grant)
    → IsWireGrant g
    → decode_tail (tail_bytes g)
      ≡ ok (record { issued_at = g.issued_at; expires_at = g.expires_at; max_bytes = g.max_bytes })
unfolding decode_tail
decode-tail_bytes g w = ground (
  arith,
  be64-of_be64 (unix g.issued_at) (unix-lt g.issued_at),
  be64-of_be64 (unix g.expires_at) (unix-lt g.expires_at),
  be64-of_be64 g.max_bytes w.max_bytes,
  of_unix-unix g.issued_at,
  of_unix-unix g.expires_at,
)

decode_fields-field_bytes :
    (g : Grant) → IsWireGrant g → decode_fields g.version (field_bytes g) ≡ ok g
unfolding decode_fields
decode_fields-field_bytes g w =
    rw (take_field-prefixed g.key_id _ w.key_id, decode_fields)
      (rw (take_field-prefixed g.grant_id _ w.grant_id) (
        rw (take_field-prefixed g.org_id _ w.org_id) (
          rw (take_field-prefixed g.user_id _ w.user_id) (
            rw (take_field-prefixed g.device_id _ w.device_id) (
              rw (take_field-prefixed g.resource_id (tail_bytes g) w.resource_id)
                (rw (decode-tail_bytes g w) refl))))))

pub decode_body-canonical : (g : Grant) → IsWireGrant g → decode_body (canonical g) ≡ ok g
unfolding decode_body
decode_body-canonical g w =
    rw (canonical_lem g, decode_body) (ground (arith, decode_fields-field_bytes g w))
