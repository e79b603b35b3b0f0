-- ===== src/Proto/Frame/Headers.antt =====
-- What the header codec of internal/proto/frame.go keeps.
use secure_access_relay.Common.{
  ℕ, ◌≤◌, ◌<◌, ◌/◌, ◌%◌, Bytes, IsBytes, ◌∷◌, ◌++◌, ◌≡◌, refl, some, arith, u32_mod, Option-cases,
  of_be32,
}
use secure_access_relay.Common.Except.{ok}
use secure_access_relay.Proto.Frame.{
  FrameType, type_code, known, Header, encode_header, decode_header, check_header, version,
}

pub known-type_code : (t : FrameType) → known (type_code t) ≡ some t
unfolding known type_code
known-type_code FrameType.hello = refl
known-type_code _ = refl

pub type_code-known : (c : ℕ) (t : FrameType) → known c ≡ some t → type_code t ≡ c
unfolding known type_code
type_code-known c t h = ground arith

pub type_code-lt : (t : FrameType) → type_code t < 256
unfolding type_code
type_code-lt FrameType.hello = omega arith
type_code-lt _ = omega arith

pub of_be32-be32 :
    (n : ℕ)
    → n < u32_mod
    → of_be32 (n / 16777216 % 256) (n / 65536 % 256) (n / 256 % 256) (n % 256) ≡ n
of_be32-be32 n h = omega arith

check_header-eq-ok :
    (max v c id len : ℕ) (t : FrameType)
    → v ≡ version
    → known c ≡ some t
    → len ≤ max
    → check_header max v c id len ≡ ok (record { type = t; stream_id = id; len = len })
unfolding check_header
check_header-eq-ok max v c id len t hv hc h = rw (hv, hc, check_header) (ground arith)

check_header-of_ok :
    (max v c id len : ℕ) (h : Header)
    → check_header max v c id len ≡ ok h
    → (v ≡ version) × (known c ≡ some h.type) × (id ≡ h.stream_id) × (len ≡ h.len) × (len ≤ max)
unfolding check_header
check_header-of_ok max v c id len h e = ground (arith, Option-cases (known c))

-- A header is read back as it was written.
pub decode-encode :
    (t : FrameType) (id len max : ℕ) (rest : Bytes)
    → id < u32_mod
    → len < u32_mod
    → len ≤ max
    → decode_header (encode_header t id len ++ rest) max
      ≡ ok (record { type = t; stream_id = id; len = len })
unfolding decode_header encode_header
decode-encode t id len max rest hi hl hm = ground (
  arith,
  of_be32-be32 id hi,
  of_be32-be32 len hl,
  known-type_code t,
  check_header-eq-ok max version (type_code t) id len t,
)

-- A header that is accepted is the encoding of what it was read as.
pub encode-decode :
    (src : Bytes) (max : ℕ) (h : Header)
    → IsBytes src
    → decode_header src max ≡ ok h
    → (rest : Bytes) × (src ≡ encode_header h.type h.stream_id h.len ++ rest)
      × (h.len ≤ max)
      × (h.stream_id < u32_mod)
unfolding decode_header encode_header
encode-decode (v ∷ t ∷ a ∷ b ∷ c ∷ d ∷ e ∷ f ∷ g ∷ k ∷ rest) max h w p =
    let q = check_header-of_ok max v t (of_be32 a b c d) (of_be32 e f g k) h p in
    let r = type_code-known t h.type q.1 in (rest, ground arith, omega arith, omega arith)
encode-decode _ max h w p = cc
