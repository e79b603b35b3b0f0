-- ===== src/Tests/Grants.antt =====
-- Grants that are signed, sent, verified and enforced (internal/proto/grant.go, internal/agent).
use mathlib.Core.List.Memᴰ.{Memᴰ}
use secure_access_relay.Common.{
  true, ℕ, zero, suc, ◌+◌, ◌*◌, ◌%◌, Bytes, IsBytes, codes, bytes_eq, bytes_eq_refl, length, [],
  ◌∷◌, ◌≡◌, refl, arith, none, some,
}
use secure_access_relay.Common.Except.{ok}
use secure_access_relay.Proto.Grant.{
  decode_tail, Ed25519, Grant, SignedGrant, GrantError, canonical, sign, verify, encode_grant,
  decode_grant, second, unix_origin,
}
use secure_access_relay.Common.Named.{find, put, erase}
use secure_access_relay.Control.Policy.{nanoseconds}
use secure_access_relay.Agent.Allowlist.{Declared, protocol_tcp, load_allowlist}
use secure_access_relay.Agent.{
  Net, Resource, Agent, connected, Surroundings, dials, validate_target, lookup_resource,
  handle_stream,
}
use secure_access_relay.Proto.Handshake.{take_string}
use secure_access_relay.Proto.Grant.Canonical.{IsEncodable, canonical_injective}
use secure_access_relay.Proto.Grant.Wire.{IsWireGrant}
use secure_access_relay.Proto.Grant.Decoding.{decode_grant_iff}
use secure_access_relay.Proto.Grant.Verifying.{IsGood, verify_iff}

abbrev zeros : ℕ → Bytes
zeros zero = []
zeros (suc n) = 0 ∷ zeros n

abbrev total : Bytes → ℕ
total [] = 0
total (b ∷ bs) = b + total bs

-- A signature that is a checksum of the key and the message.
abbrev checksum : Bytes → Bytes → Bytes
checksum key message = ((total key + total message) % 256) ∷ zeros 63

abbrev pub toy : Ed25519
toy = record {
  public = λ key. key;
  sign = checksum;
  verify = λ key message signature. bytes_eq (checksum key message) signature;
  sign_size = λ key message. refl;
  sign_verifies = λ key message. bytes_eq_refl (checksum key message);
}

abbrev pub key : Bytes
key = 7 ∷ []

-- 2025-01-01 00:00:00 UTC.
abbrev pub noon : ℕ
noon = (unix_origin + 1_735_689_600) * second

abbrev asked : Grant
asked = record {
  version = 0;
  key_id = codes "k1";
  grant_id = codes "g1";
  org_id = codes "o";
  user_id = codes "alice";
  device_id = codes "dev";
  resource_id = codes "ssh";
  issued_at = noon + 5;
  expires_at = noon + 600 * second;
  max_bytes = 0;
}

abbrev granted : Grant
granted = record asked { version = 1; issued_at = noon }

abbrev pub issued : SignedGrant
issued = record { grant = granted; signature = checksum key (canonical granted) }

sign_run : sign toy asked key ≡ ok issued
unfolding sign
sign_run = refl

verify_run : verify toy issued key noon (codes "dev") ≡ none
unfolding verify canonical bytes_eq
verify_run = refl

verify_late :
    verify toy issued key (noon + 631 * second) (codes "dev") ≡ some GrantError.grant_expired
unfolding verify canonical bytes_eq
verify_late = refl

verify_iff_example : IsGood toy issued key noon (codes "dev")
verify_iff_example = (verify_iff toy issued key noon (codes "dev")).0 verify_run

verify_later : verify toy issued key (noon + 630 * second) [] ≡ none
unfolding verify canonical bytes_eq
verify_later = refl

verify_early : verify toy issued key noon [] ≡ none
unfolding verify canonical bytes_eq
verify_early = refl

granted-IsEncodable : IsEncodable granted
granted-IsEncodable = omega arith

canonical_injective_example : granted ≡ granted
canonical_injective_example =
    canonical_injective granted granted granted-IsEncodable granted-IsEncodable refl

issued-IsBytes : IsBytes (encode_grant issued)
unfolding encode_grant canonical
issued-IsBytes = ground arith

decode_run : decode_grant (encode_grant issued) ≡ ok issued
unfolding decode_grant encode_grant canonical take_string decode_tail
decode_run = refl

decode_grant_iff_example :
    (encode_grant issued ≡ encode_grant issued)
    × IsWireGrant granted
    × (length issued.signature ≡ 64)
decode_grant_iff_example =
    (decode_grant_iff (encode_grant issued) issued issued-IsBytes).0 decode_run

-- Every address is "127.0.0.1" with its port.
abbrev pub local : Net
local = record {
  split_host_port = λ addr. some (codes "127.0.0.1", addr);
  parse_ip = λ host. some host;
  is_loopback = λ ip. bytes_eq ip (codes "127.0.0.1");
}

abbrev ssh : Resource
ssh = record { resource_id = codes "ssh"; target = codes "22"; max_bytes = 0; max_duration = 0 }

abbrev pub endpoint : Agent
endpoint = record { grant_key = key; device_id = codes "dev"; resources = (codes "ssh", ssh) ∷ [] }

abbrev pub quiet : Surroundings
quiet = record {
  verified_at = noon;
  based_at = noon;
  remaining_at = noon;
  tested_at = noon;
  capped_at = noon;
  inner_session = true;
  dial = connected;
}

dialled_run :
    Memᴰ (dials (codes "22")) (handle_stream toy local endpoint quiet (encode_grant issued))
unfolding handle_stream decode_grant encode_grant canonical take_string decode_tail verify bytes_eq
    lookup_resource validate_target find
dialled_run = Memᴰ.tail (Memᴰ.head refl)

-- What a file declares, and the list that it gives.
abbrev declared : Declared
declared = record {
  resource_id = codes "ssh";
  protocol = codes "tcp";
  target = codes "22";
  max_bytes = 0;
  max_duration = nanoseconds 0;
}

load_run : load_allowlist local (declared ∷ []) ≡ ok ((codes "ssh", ssh) ∷ [])
unfolding load_allowlist validate_target protocol_tcp find put erase bytes_eq
load_run = refl
