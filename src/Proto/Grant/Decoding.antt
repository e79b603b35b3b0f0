-- ===== src/Proto/Grant/Decoding.antt =====
-- `Encode` and `DecodeGrant` of internal/proto/grant.go are inverse to one another.
use secure_access_relay.Common.{
  ℕ, ◌+◌, ◌-◌, ◌<◌, Bytes, IsBytes, length, ◌++◌, ◌≡◌, refl, ap, sym, ◌∙◌, arith, inl, inr, ltb,
  length-append, take, drop, take-length, drop-length, length-drop, take-append-drop, All-split,
  ◌↔◌, Bool-cases, false, ltb→le, length-take,
}
use secure_access_relay.Common.Except.{ok, >>=-eq-ok, ok_injective}
use secure_access_relay.Proto.Grant.{
  Grant, SignedGrant, canonical, decode_body, decode_grant, encode_grant, signature_size,
}
use secure_access_relay.Proto.Grant.Canonical.{canonical_lem}
use secure_access_relay.Proto.Grant.Wire.{IsWireGrant, decode_body-canonical}
use secure_access_relay.Proto.Grant.Parsed.{canonical-decode_body}

take_back :
    (xs ys : Bytes) (n : ℕ) → length xs ≡ n → (take n (xs ++ ys) ≡ xs) × (drop n (xs ++ ys) ≡ ys)
take_back xs ys n e = rw (← e) (take-length xs ys, drop-length xs ys)

canonical_pos : (g : Grant) → 0 < length (canonical g)
canonical_pos g = rw (canonical_lem g) (omega arith)

-- A signed grant is read back from the wire as it was sent.
decode-encode_grant :
    (s : SignedGrant)
    → IsWireGrant s.grant
    → length s.signature ≡ signature_size
    → decode_grant (encode_grant s) ≡ ok s
unfolding decode_grant encode_grant
decode-encode_grant s w l =
    let len = length-append (canonical s.grant) s.signature in
    let halves =
      take_back (canonical s.grant) s.signature
        (length (canonical s.grant ++ s.signature) - signature_size) (omega (arith, len)) in
    let long : ltb (length (canonical s.grant ++ s.signature)) (signature_size + 1) ≡ false =
      ground (arith, len, canonical_pos s.grant) in
    rw (long, halves.0, halves.1, decode_grant) (rw (decode_body-canonical s.grant w) refl)

encode-decode_grant :
    (b : Bytes) (s : SignedGrant)
    → IsBytes b
    → decode_grant b ≡ ok s
    → (encode_grant s ≡ b) × IsWireGrant s.grant × (length s.signature ≡ signature_size)
unfolding decode_grant encode_grant
encode-decode_grant b s w e = elim (Bool-cases (ltb (length b) (signature_size + 1))) [
  | inl h ↦ absurd (ground arith)
  | inr h ↦
      let n = length b - signature_size in
      let cut = take-append-drop n b in
      let (g, p, q) = >>=-eq-ok (decode_body (take n b)) _ (rw h at e) in
      let halves = All-split _ (take n b) (drop n b) (rw (← cut) at w) in
      let body = canonical-decode_body (take n b) g halves.0 p in
      let size : length (drop n b) ≡ signature_size =
        omega (arith, length-drop n b, length-take n b, ltb→le _ _ h) in
      rw (← ok_injective q) (ap (λ t. t ++ drop n b) body.0 ∙ cut, body.1, size)
]

-- A signed grant is what its bytes decode to exactly when the bytes are its encoding, its fields
-- are within the limits and its signature has 64 bytes: there is one encoding of each grant, and
-- no byte that the value read does not account for.
pub decode_grant_iff :
    (b : Bytes) (s : SignedGrant)
    → IsBytes b
    → (decode_grant b ≡ ok s)
      ↔ ((encode_grant s ≡ b) × IsWireGrant s.grant × (length s.signature ≡ signature_size))
decode_grant_iff b s w =
    (encode-decode_grant b s w, λ (e, v, l). ap decode_grant (sym e) ∙ decode-encode_grant s v l)
