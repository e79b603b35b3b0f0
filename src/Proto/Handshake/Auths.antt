-- ===== src/Proto/Handshake/Auths.antt =====
-- AUTH payloads of internal/proto/handshake.go: three strings, each with its length before it.
use secure_access_relay.Common.{
  ◌≤◌, Bytes, IsBytes, All-split, be16, length, [], ◌∷◌, ◌++◌, ◌≡◌, refl, ap, sym, ◌∙◌,
  append_assoc, append-nil, ◌↔◌,
}
use secure_access_relay.Common.Except.{ok, >>=-eq-ok}
use secure_access_relay.Proto.Handshake.{
  take_string, Auth, encode_auth, decode_auth, at_end, max_identity_len,
}
use secure_access_relay.Proto.Handshake.RoundTrip.{take_string-append, take_string-of_ok}

-- One string as it stands on the wire.
abbrev pub prefixed : Bytes → Bytes
prefixed s = be16 (length s) ++ s

pub take_string-prefixed :
    (s rest : Bytes) → length s ≤ max_identity_len → take_string (prefixed s ++ rest) ≡ ok (s, rest)
take_string-prefixed s rest h = take_string-append s rest h

encode_auth_lem :
    (a : Auth)
    → encode_auth a ≡ prefixed a.device_id ++ (prefixed a.user_id ++ (prefixed a.resource ++ []))
unfolding encode_auth
encode_auth_lem a = simp (append_assoc, append-nil)

pub record IsAuth (a : Auth) : Type 0 where
  pub device_id : length a.device_id ≤ max_identity_len
  pub user_id : length a.user_id ≤ max_identity_len
  pub resource : length a.resource ≤ max_identity_len

-- An AUTH payload is read back as it was written.
pub decode-encode_auth : (a : Auth) → IsAuth a → decode_auth (encode_auth a) ≡ ok a
unfolding decode_auth
decode-encode_auth a v =
    rw
      (
        encode_auth_lem a,
        take_string-prefixed a.device_id (prefixed a.user_id ++ (prefixed a.resource ++ []))
            v.device_id,
        decode_auth,
      )
      (rw (take_string-prefixed a.user_id (prefixed a.resource ++ []) v.user_id)
        (rw (take_string-prefixed a.resource [] v.resource) refl))

at_end-of_ok {ℓ} :
    {A : Type ℓ} (a b : A) (rest : Bytes) → at_end a rest ≡ ok b → (a ≡ b) × (rest ≡ [])
at_end-of_ok a b [] e = (cc, refl)
at_end-of_ok a b (x ∷ xs) e = (cc, cc)

-- One string taken off the front.
pub take_string-prefix :
    (b s rest : Bytes)
    → IsBytes b
    → take_string b ≡ ok (s, rest)
    → (b ≡ prefixed s ++ rest) × (length s ≤ max_identity_len) × IsBytes rest
take_string-prefix b s rest w e =
    let t = take_string-of_ok b s rest w e in
    (t.0, t.1, (All-split _ (prefixed s) rest (rw t.0 at w)).1)

auth_join :
    (a : Auth) (b b₁ b₂ b₃ s₁ s₂ s₃ : Bytes)
    → b ≡ prefixed s₁ ++ b₁
    → b₁ ≡ prefixed s₂ ++ b₂
    → b₂ ≡ prefixed s₃ ++ b₃
    → b₃ ≡ []
    → record { device_id = s₁; user_id = s₂; resource = s₃ } ≡ a
    → encode_auth a ≡ b
auth_join a b b₁ b₂ b₃ s₁ s₂ s₃ e₁ e₂ e₃ e₄ e = rw (← e) (encode_auth_lem _ ∙ cc)

-- What is read as an AUTH payload is what writing it gives, so no byte is ignored.
encode-decode_auth :
    (b : Bytes) (a : Auth) → IsBytes b → decode_auth b ≡ ok a → (encode_auth a ≡ b) × IsAuth a
unfolding decode_auth
encode-decode_auth b a w e =
    let ((s₁, b₁), p₁, e₁) = >>=-eq-ok (take_string b) _ e in
    let ((s₂, b₂), p₂, e₂) = >>=-eq-ok (take_string b₁) _ e₁ in
    let ((s₃, b₃), p₃, e₃) = >>=-eq-ok (take_string b₂) _ e₂ in
    let t₁ = take_string-prefix b s₁ b₁ w p₁ in
    let t₂ = take_string-prefix b₁ s₂ b₂ t₁.2 p₂ in
    let t₃ = take_string-prefix b₂ s₃ b₃ t₂.2 p₃ in
    let fin = at_end-of_ok (record { device_id = s₁; user_id = s₂; resource = s₃ }) a b₃ e₃ in
    (
      auth_join a b b₁ b₂ b₃ s₁ s₂ s₃ t₁.0 t₂.0 t₃.0 fin.1 fin.0,
      rw (← fin.0) (record { device_id = t₁.1; user_id = t₂.1; resource = t₃.1 }),
    )

-- The three strings of an AUTH payload are recovered exactly when each is within the limit, and
-- the bytes that decode to them are their encoding alone.
pub decode_auth_iff :
    (a : Auth) (b : Bytes) → IsBytes b → (decode_auth b ≡ ok a) ↔ ((encode_auth a ≡ b) × IsAuth a)
decode_auth_iff a b w =
    (encode-decode_auth b a w, λ (e, v). ap decode_auth (sym e) ∙ decode-encode_auth a v)
