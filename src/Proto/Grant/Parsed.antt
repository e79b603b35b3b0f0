-- ===== src/Proto/Grant/Parsed.antt =====
-- The fields that `DecodeGrant` of internal/proto/grant.go reads are the bytes that were there.
use secure_access_relay.Common.{
  ℕ, ◌/◌, ◌%◌, ◌<◌, ◌≤◌, Bytes, IsBytes, be64, length, [], ◌∷◌, ◌++◌, ◌≡◌, refl, sym, ◌∙◌, arith,
  inl, inr, ◌==◌, Bool-cases, ==_iff,
}
use secure_access_relay.Common.Except.{ok, >>=-eq-ok, Except-cases, ok_injective}
use secure_access_relay.Proto.Handshake.{take_string, max_identity_len}
use secure_access_relay.Proto.Handshake.Auths.{prefixed, take_string-prefix}
use secure_access_relay.Proto.Grant.{
  Grant, Tail, canonical, unix, of_unix, second, u64_mod, of_be64, take_field, decode_tail,
  decode_fields, decode_body, grant_version,
}
use secure_access_relay.Proto.Grant.Canonical.{tail_bytes, field_bytes, canonical_lem}
use secure_access_relay.Proto.Grant.Wire.{IsWireGrant}

take_field-of_ok :
    (b s rest : Bytes)
    → IsBytes b
    → take_field b ≡ ok (s, rest)
    → (b ≡ prefixed s ++ rest) × (length s ≤ max_identity_len) × IsBytes rest
take_field-of_ok b s rest w e = elim (Except-cases (take_string b)) [
  | inl (r, p) ↦ take_string-prefix b s rest w (p ∙ ground (arith, (rw (p, take_field) at e)))
  | inr (x, p) ↦ absurd (ground arith)
]

abbrev InWholeSeconds : Tail → Type 0
InWholeSeconds t =
    (t.issued_at % second ≡ 0)
    × (t.issued_at / second < u64_mod)
    × (t.expires_at % second ≡ 0)
    × (t.expires_at / second < u64_mod)
    × (t.max_bytes < u64_mod)

unix-of_unix :
    (u : ℕ)
    → u < u64_mod
    → (unix (of_unix u) ≡ u) × (of_unix u % second ≡ 0) × (of_unix u / second < u64_mod)
unix-of_unix u h = (omega arith, omega arith, omega arith)

be64-of_bytes :
    (a b c d e f g h : ℕ)
    → IsBytes (a ∷ b ∷ c ∷ d ∷ e ∷ f ∷ g ∷ h ∷ [])
    → (be64 (of_be64 a b c d e f g h) ≡ a ∷ b ∷ c ∷ d ∷ e ∷ f ∷ g ∷ h ∷ [])
      × (of_be64 a b c d e f g h < u64_mod)
be64-of_bytes a b c d e f g h w = (ground arith, omega arith)

-- The tail read from three words is written as these words.
tail_of_words :
    (i x m : ℕ)
    → i < u64_mod
    → x < u64_mod
    → m < u64_mod
    → let t : Tail = record { issued_at = of_unix i; expires_at = of_unix x; max_bytes = m } in
      (be64 i ++ (be64 x ++ be64 m)
        ≡ be64 (unix t.issued_at) ++ (be64 (unix t.expires_at) ++ be64 t.max_bytes))
      × InWholeSeconds t
tail_of_words i x m hi hx hm =
    let p = unix-of_unix i hi in
    let q = unix-of_unix x hx in (rw (p.0, q.0) refl, (p.1, p.2, q.1, q.2, hm))

joined : {a a' b b' c c' : Bytes} → a ≡ a' → b ≡ b' → c ≡ c' → a ++ (b ++ c) ≡ a' ++ (b' ++ c')
joined p q r = λ i. p i ++ (q i ++ r i)

decode_tail-of_ok :
    (b : Bytes) (t : Tail)
    → IsBytes b
    → decode_tail b ≡ ok t
    → (b ≡ be64 (unix t.issued_at) ++ (be64 (unix t.expires_at) ++ be64 t.max_bytes))
      × InWholeSeconds t
unfolding decode_tail
decode_tail-of_ok
      (a₁ ∷ a₂ ∷ a₃ ∷ a₄ ∷ a₅ ∷ a₆ ∷ a₇ ∷ a₈ ∷ b₁ ∷ b₂ ∷ b₃ ∷ b₄ ∷ b₅ ∷ b₆ ∷ b₇ ∷ b₈ ∷ c₁ ∷ c₂ ∷ c₃
        ∷ c₄ ∷ c₅ ∷ c₆ ∷ c₇ ∷ c₈ ∷ [])
      t w e =
    let p = be64-of_bytes a₁ a₂ a₃ a₄ a₅ a₆ a₇ a₈ (omega arith) in
    let q = be64-of_bytes b₁ b₂ b₃ b₄ b₅ b₆ b₇ b₈ (omega arith) in
    let r = be64-of_bytes c₁ c₂ c₃ c₄ c₅ c₆ c₇ c₈ (omega arith) in
    let words =
      tail_of_words (of_be64 a₁ a₂ a₃ a₄ a₅ a₆ a₇ a₈) (of_be64 b₁ b₂ b₃ b₄ b₅ b₆ b₇ b₈)
        (of_be64 c₁ c₂ c₃ c₄ c₅ c₆ c₇ c₈) p.1 q.1 r.1 in
    rw (← ok_injective e) (joined (sym p.0) (sym q.0) (sym r.0) ∙ words.0, words.1)
decode_tail-of_ok _ t w e = cc

fields_join :
    (g : Grant) (b r₁ r₂ r₃ r₄ r₅ r₆ : Bytes)
    → b ≡ prefixed g.key_id ++ r₁
    → r₁ ≡ prefixed g.grant_id ++ r₂
    → r₂ ≡ prefixed g.org_id ++ r₃
    → r₃ ≡ prefixed g.user_id ++ r₄
    → r₄ ≡ prefixed g.device_id ++ r₅
    → r₅ ≡ prefixed g.resource_id ++ r₆
    → r₆ ≡ tail_bytes g
    → b ≡ field_bytes g
fields_join g b r₁ r₂ r₃ r₄ r₅ r₆ e₁ e₂ e₃ e₄ e₅ e₆ e₇ = cc

-- The fields that are read are the bytes that were there.
field_bytes-decode_fields :
    (v : ℕ) (b : Bytes) (g : Grant)
    → IsBytes b
    → v ≡ grant_version
    → decode_fields v b ≡ ok g
    → (b ≡ field_bytes g) × (g.version ≡ v) × IsWireGrant g
unfolding decode_fields
field_bytes-decode_fields v b g w hv e =
    let ((s₁, r₁), p₁, e₁) = >>=-eq-ok (take_field b) _ e in
    let ((s₂, r₂), p₂, e₂) = >>=-eq-ok (take_field r₁) _ e₁ in
    let ((s₃, r₃), p₃, e₃) = >>=-eq-ok (take_field r₂) _ e₂ in
    let ((s₄, r₄), p₄, e₄) = >>=-eq-ok (take_field r₃) _ e₃ in
    let ((s₅, r₅), p₅, e₅) = >>=-eq-ok (take_field r₄) _ e₄ in
    let ((s₆, r₆), p₆, e₆) = >>=-eq-ok (take_field r₅) _ e₅ in
    let (t, p₇, e₇) = >>=-eq-ok (decode_tail r₆) _ e₆ in
    let f₁ = take_field-of_ok b s₁ r₁ w p₁ in
    let f₂ = take_field-of_ok r₁ s₂ r₂ f₁.2 p₂ in
    let f₃ = take_field-of_ok r₂ s₃ r₃ f₂.2 p₃ in
    let f₄ = take_field-of_ok r₃ s₄ r₄ f₃.2 p₄ in
    let f₅ = take_field-of_ok r₄ s₅ r₅ f₄.2 p₅ in
    let f₆ = take_field-of_ok r₅ s₆ r₆ f₅.2 p₆ in
    let f₇ = decode_tail-of_ok r₆ t f₆.2 p₇ in
    let read : Grant = record {
      version = v;
      key_id = s₁;
      grant_id = s₂;
      org_id = s₃;
      user_id = s₄;
      device_id = s₅;
      resource_id = s₆;
      issued_at = t.issued_at;
      expires_at = t.expires_at;
      max_bytes = t.max_bytes;
    } in
    rw (← ok_injective e₇) (
      fields_join read b r₁ r₂ r₃ r₄ r₅ r₆ f₁.0 f₂.0 f₃.0 f₄.0 f₅.0 f₆.0 f₇.0,
      refl,
      record {
        version = hv;
        key_id = f₁.1;
        grant_id = f₂.1;
        org_id = f₃.1;
        user_id = f₄.1;
        device_id = f₅.1;
        resource_id = f₆.1;
        issued_at = f₇.1.0;
        issued_at_lt = f₇.1.1;
        expires_at = f₇.1.2;
        expires_at_lt = f₇.1.3;
        max_bytes = f₇.1.4;
      },
    )

pub canonical-decode_body :
    (b : Bytes) (g : Grant) → IsBytes b → decode_body b ≡ ok g → (canonical g ≡ b) × IsWireGrant g
unfolding decode_body
canonical-decode_body [] g w e = cc
canonical-decode_body (v ∷ rest) g w e = elim (Bool-cases (v == grant_version)) [
  | inl h ↦
      let r = field_bytes-decode_fields v rest g w.1 (==_iff v grant_version h) (rw h at e) in
      (canonical_lem g ∙ cc, r.2)
  | inr h ↦ absurd (ground arith)
]
