-- ===== src/Proto/Grant.antt =====
-- internal/proto/grant.go: signed grants, their canonical bytes and their verification.
pub mod Canonical
pub mod Wire
pub mod Parsed
pub mod Decoding
pub mod Verifying
use secure_access_relay.Common.{
  ℕ, ◌+◌, ◌-◌, ◌*◌, ◌/◌, ◌%◌, Bytes, ltb, leb, ◌==◌, not, ◌||◌, ◌&&◌, Bool, true, false,
  if◌then◌else◌, bytes_eq, be64, of_be32, take, drop, length, List, [], ◌∷◌, ◌++◌, ◌≡◌, Option,
  none, some,
}
use secure_access_relay.Common.Except.{Except, ok, err, ◌>>=◌}
use secure_access_relay.Proto.Reason
use secure_access_relay.Proto.Reason.{Reason}
use secure_access_relay.Proto.Handshake.{append_string, take_string}

-- crypto/ed25519, with its documented behaviour.
pub record Ed25519 : Type 0 where
  pub public : Bytes → Bytes
  pub sign : Bytes → Bytes → Bytes
  pub verify : Bytes → Bytes → Bytes → Bool
  pub sign_size : (key message : Bytes) → length (sign key message) ≡ 64
  pub sign_verifies : (key message : Bytes) → verify (public key) message (sign key message) ≡ true

abbrev pub grant_version : ℕ
grant_version = 1

abbrev pub second : ℕ
second = 1_000_000_000

abbrev pub max_grant_ttl : ℕ
max_grant_ttl = 30 * 60 * second

abbrev pub clock_skew_tolerance : ℕ
clock_skew_tolerance = 30 * second

abbrev pub signature_size : ℕ
signature_size = 64

-- A time is the nanoseconds since the least time that `time.Time` can hold: its seconds are the
-- `int64` that the package keeps, plus 2^63.
abbrev pub u64_mod : ℕ
u64_mod = 18_446_744_073_709_551_616

-- The year 1 to 1970 in seconds, plus 2^63.
abbrev pub unix_origin : ℕ
unix_origin = 62_135_596_800 + 9_223_372_036_854_775_808

-- `uint64(t.Unix())` and `time.Unix(int64(u), 0)`, which both wrap.
abbrev pub unix : ℕ → ℕ
unix t = (t / second + u64_mod - unix_origin) % u64_mod

abbrev pub of_unix : ℕ → ℕ
of_unix u = (u + unix_origin) % u64_mod * second

-- `t.Truncate(time.Second)`.
abbrev pub truncate_second : ℕ → ℕ
truncate_second t = t / second * second

pub record Grant : Type 0 where
  pub version : ℕ
  pub key_id : Bytes
  pub grant_id : Bytes
  pub org_id : Bytes
  pub user_id : Bytes
  pub device_id : Bytes
  pub resource_id : Bytes
  pub issued_at : ℕ
  pub expires_at : ℕ
  pub max_bytes : ℕ

pub record SignedGrant : Type 0 where
  pub grant : Grant
  pub signature : Bytes

pub data GrantError : Type 0 where
  grant_malformed grant_version_unsupported grant_signature grant_expired : GrantError
  grant_not_yet_valid grant_device_mismatch grant_ttl_too_long : GrantError

-- `ReasonForGrant`; `none` is a nil error.
unfoldable pub reason_for_grant : Option GrantError → Reason
reason_for_grant none = Reason.ok
reason_for_grant (some grant_expired) = Reason.grant_expired
reason_for_grant (some grant_not_yet_valid) = Reason.grant_not_yet_valid
reason_for_grant (some grant_device_mismatch) = Reason.grant_device_mismatch
reason_for_grant (some _) = Reason.grant_invalid_signature

unfoldable pub canonical : Grant → Bytes
unfolding append_string
canonical g =
    let b₁ = append_string (g.version ∷ []) g.key_id in
    let b₂ = append_string b₁ g.grant_id in
    let b₃ = append_string b₂ g.org_id in
    let b₄ = append_string b₃ g.user_id in
    let b₅ = append_string b₄ g.device_id in
    let b₆ = append_string b₅ g.resource_id in
    ((b₆ ++ be64 (unix g.issued_at)) ++ be64 (unix g.expires_at)) ++ be64 g.max_bytes

abbrev pub is_empty : Bytes → Bool
is_empty [] = true
is_empty (x ∷ xs) = false

module _ (ed : Ed25519) where
  -- `Sign` after the version has been filled in.
  sign_versioned : Grant → Bytes → Except GrantError SignedGrant
  unfolding canonical
  sign_versioned g key =
      if not (g.version == grant_version)
      then err grant_version_unsupported
      else if ltb max_grant_ttl (g.expires_at - g.issued_at)
      then err grant_ttl_too_long
      else if is_empty g.device_id || is_empty g.resource_id || is_empty g.grant_id
      then err grant_malformed
      else let t = record g {
        issued_at = truncate_second g.issued_at;
        expires_at = truncate_second g.expires_at;
      } in
        ok (record { grant = t; signature = ed.sign key (canonical t) })

  unfoldable pub sign : Grant → Bytes → Except GrantError SignedGrant
  unfolding sign_versioned
  sign g key =
      sign_versioned (if g.version == 0 then record g { version = grant_version } else g) key

  -- `Verify` at the time `now`, for the device named, or for any if the name is empty.
  unfoldable pub verify : SignedGrant → Bytes → ℕ → Bytes → Option GrantError
  unfolding canonical
  verify s pub_key now device_id =
      if not (s.grant.version == grant_version)
      then some grant_version_unsupported
      else if not (length s.signature == signature_size)
      then some grant_signature
      else if not (ed.verify pub_key (canonical s.grant) s.signature)
      then some grant_signature
      else if ltb max_grant_ttl (s.grant.expires_at - s.grant.issued_at)
      then some grant_ttl_too_long
      else if ltb (now + clock_skew_tolerance) s.grant.issued_at
      then some grant_not_yet_valid
      else if ltb s.grant.expires_at (now - clock_skew_tolerance)
      then some grant_expired
      else if not (is_empty device_id) && not (bytes_eq s.grant.device_id device_id)
      then some grant_device_mismatch
      else none

unfoldable pub encode_grant : SignedGrant → Bytes
unfolding canonical
encode_grant s = canonical s.grant ++ s.signature

-- A string field of a grant.
abbrev pub take_field : Bytes → Except GrantError (Bytes × Bytes)
take_field b = elim (take_string b) [ ok r ↦ ok r | err e ↦ err grant_malformed ]

abbrev pub of_be64 : ℕ → ℕ → ℕ → ℕ → ℕ → ℕ → ℕ → ℕ → ℕ
of_be64 a b c d e f g h = of_be32 a b c d * 4294967296 + of_be32 e f g h

pub record Tail : Type 0 where
  pub issued_at : ℕ
  pub expires_at : ℕ
  pub max_bytes : ℕ

-- The last 24 bytes: two times and the byte limit.
unfoldable pub decode_tail : Bytes → Except GrantError Tail
decode_tail
      (a₁ ∷ a₂ ∷ a₃ ∷ a₄ ∷ a₅ ∷ a₆ ∷ a₇ ∷ a₈ ∷ b₁ ∷ b₂ ∷ b₃ ∷ b₄ ∷ b₅ ∷ b₆ ∷ b₇ ∷ b₈ ∷ c₁ ∷ c₂ ∷ c₃
        ∷ c₄ ∷ c₅ ∷ c₆ ∷ c₇ ∷ c₈ ∷ []) =
    ok (record {
      issued_at = of_unix (of_be64 a₁ a₂ a₃ a₄ a₅ a₆ a₇ a₈);
      expires_at = of_unix (of_be64 b₁ b₂ b₃ b₄ b₅ b₆ b₇ b₈);
      max_bytes = of_be64 c₁ c₂ c₃ c₄ c₅ c₆ c₇ c₈;
    })
decode_tail _ = err grant_malformed

-- The fields after the version.
unfoldable pub decode_fields : ℕ → Bytes → Except GrantError Grant
decode_fields version r = do
  (key_id, r₁) ← take_field r
  (grant_id, r₂) ← take_field r₁
  (org_id, r₃) ← take_field r₂
  (user_id, r₄) ← take_field r₃
  (device_id, r₅) ← take_field r₄
  (resource_id, r₆) ← take_field r₅
  tail ← decode_tail r₆
  ok (record {
    version = version;
    key_id = key_id;
    grant_id = grant_id;
    org_id = org_id;
    user_id = user_id;
    device_id = device_id;
    resource_id = resource_id;
    issued_at = tail.issued_at;
    expires_at = tail.expires_at;
    max_bytes = tail.max_bytes;
  })

pub decode_body : Bytes → Except GrantError Grant
unfolding decode_fields
decode_body [] = err grant_malformed
decode_body (v ∷ rest) =
    if not (v == grant_version) then err grant_version_unsupported else decode_fields v rest

unfoldable pub decode_grant : Bytes → Except GrantError SignedGrant
unfolding decode_body
decode_grant b =
    if ltb (length b) (signature_size + 1)
    then err grant_malformed
    else let n = length b - signature_size in
      (do g ← decode_body (take n b); ok (record { grant = g; signature = drop n b }))
