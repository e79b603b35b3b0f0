-- ===== src/Proto/Grant/Canonical.antt =====
-- The canonical bytes of a grant (internal/proto/grant.go, `canonical`) determine the grant.
use secure_access_relay.Common.{
  ℕ, ◌/◌, ◌%◌, ◌<◌, Bytes, be64, length, [], ◌∷◌, ◌++◌, ◌≡◌, refl, ap, sym, ◌∙◌, append_assoc,
  arith,
}
use secure_access_relay.Proto.Handshake.{append_string}
use secure_access_relay.Proto.Handshake.Auths.{prefixed}
use secure_access_relay.Proto.Grant.{Grant, canonical, unix, of_unix, second, u64_mod}

-- The fixed-width end of the canonical bytes.
abbrev pub tail_bytes : Grant → Bytes
tail_bytes g = be64 (unix g.issued_at) ++ (be64 (unix g.expires_at) ++ be64 g.max_bytes)

abbrev pub field_bytes : Grant → Bytes
field_bytes g =
    prefixed g.key_id
    ++ (prefixed g.grant_id
        ++ (prefixed g.org_id
            ++ (prefixed g.user_id
                ++ (prefixed g.device_id ++ (prefixed g.resource_id ++ tail_bytes g)))))

pub canonical_lem : (g : Grant) → canonical g ≡ g.version ∷ field_bytes g
unfolding canonical append_string
canonical_lem g = simp append_assoc

-- What the encoding can hold: times in whole seconds, lengths in 16 bits, the limit in 64.
pub record IsEncodable (g : Grant) : Type 0 where
  pub key_id : length g.key_id < 65536
  pub grant_id : length g.grant_id < 65536
  pub org_id : length g.org_id < 65536
  pub user_id : length g.user_id < 65536
  pub device_id : length g.device_id < 65536
  pub resource_id : length g.resource_id < 65536
  pub issued_at : g.issued_at % second ≡ 0
  pub issued_at_lt : g.issued_at / second < u64_mod
  pub expires_at : g.expires_at % second ≡ 0
  pub expires_at_lt : g.expires_at / second < u64_mod
  pub max_bytes : g.max_bytes < u64_mod

append_injective : (s t u v : Bytes) → length s ≡ length t → s ++ u ≡ t ++ v → (s ≡ t) × (u ≡ v)
append_injective [] [] u v l e = (refl, e)
append_injective [] (y ∷ t) u v l e = absurd (omega arith)
append_injective (x ∷ s) [] u v l e = absurd (omega arith)
append_injective (x ∷ s) (y ∷ t) u v l e =
    let r = append_injective s t u v (omega arith) (ground arith) in (ground arith, r.1)

pub prefixed_injective :
    (s t u v : Bytes)
    → length s < 65536
    → length t < 65536
    → prefixed s ++ u ≡ prefixed t ++ v
    → (s ≡ t) × (u ≡ v)
prefixed_injective s t u v hs ht e = append_injective s t u v (ground arith) (ground arith)

pub of_unix-unix : (t : ℕ) → t % second ≡ 0 → t / second < u64_mod → of_unix (unix t) ≡ t
of_unix-unix t h l = omega arith

pub unix-lt : (t : ℕ) → unix t < u64_mod
unix-lt t = omega arith

be64_injective :
    (m n : ℕ) (u v : Bytes)
    → m < u64_mod
    → n < u64_mod
    → be64 m ++ u ≡ be64 n ++ v
    → (m ≡ n) × (u ≡ v)
be64_injective m n u v hm hn e = (ground arith, ground arith)

tail_injective :
    (g h : Grant)
    → IsEncodable g
    → IsEncodable h
    → tail_bytes g ≡ tail_bytes h
    → (g.issued_at ≡ h.issued_at) × (g.expires_at ≡ h.expires_at) × (g.max_bytes ≡ h.max_bytes)
tail_injective g h a b e =
    let (i, r) =
      be64_injective (unix g.issued_at) (unix h.issued_at) _ _ (unix-lt _) (unix-lt _) e in
    let (x, q) =
      be64_injective (unix g.expires_at) (unix h.expires_at) _ _ (unix-lt _) (unix-lt _) r in
    let m =
      be64_injective g.max_bytes h.max_bytes [] [] a.max_bytes b.max_bytes (ap (λ t. t ++ []) q) in
    (
      sym (of_unix-unix g.issued_at a.issued_at a.issued_at_lt)
          ∙ ap of_unix i
          ∙ of_unix-unix h.issued_at b.issued_at b.issued_at_lt,
      sym (of_unix-unix g.expires_at a.expires_at a.expires_at_lt)
          ∙ ap of_unix x
          ∙ of_unix-unix h.expires_at b.expires_at b.expires_at_lt,
      m.0,
    )

same_fields :
    (g h : Grant)
    → g.version ≡ h.version
    → g.key_id ≡ h.key_id
    → g.grant_id ≡ h.grant_id
    → g.org_id ≡ h.org_id
    → g.user_id ≡ h.user_id
    → g.device_id ≡ h.device_id
    → g.resource_id ≡ h.resource_id
    → g.issued_at ≡ h.issued_at
    → g.expires_at ≡ h.expires_at
    → g.max_bytes ≡ h.max_bytes
    → g ≡ h
same_fields g h e₀ e₁ e₂ e₃ e₄ e₅ e₆ e₇ e₈ e₉ = λ i. record {
  version = e₀ i;
  key_id = e₁ i;
  grant_id = e₂ i;
  org_id = e₃ i;
  user_id = e₄ i;
  device_id = e₅ i;
  resource_id = e₆ i;
  issued_at = e₇ i;
  expires_at = e₈ i;
  max_bytes = e₉ i;
}

-- Two grants that the encoding can hold and that have the same canonical bytes are one grant, so a
-- signature over the bytes is a signature over the grant.
pub canonical_injective :
    (g h : Grant) → IsEncodable g → IsEncodable h → canonical g ≡ canonical h → g ≡ h
canonical_injective g h a b e =
    let f : g.version ∷ field_bytes g ≡ h.version ∷ field_bytes h =
      sym (canonical_lem g) ∙ e ∙ canonical_lem h in
    let v : g.version ≡ h.version = ground arith in
    let body : field_bytes g ≡ field_bytes h = ground arith in
    let (k₁, r₁) = prefixed_injective g.key_id h.key_id _ _ a.key_id b.key_id body in
    let (k₂, r₂) = prefixed_injective g.grant_id h.grant_id _ _ a.grant_id b.grant_id r₁ in
    let (k₃, r₃) = prefixed_injective g.org_id h.org_id _ _ a.org_id b.org_id r₂ in
    let (k₄, r₄) = prefixed_injective g.user_id h.user_id _ _ a.user_id b.user_id r₃ in
    let (k₅, r₅) = prefixed_injective g.device_id h.device_id _ _ a.device_id b.device_id r₄ in
    let (k₆, r₆) =
      prefixed_injective g.resource_id h.resource_id _ _ a.resource_id b.resource_id r₅ in
    let t = tail_injective g h a b r₆ in same_fields g h v k₁ k₂ k₃ k₄ k₅ k₆ t.0 t.1 t.2
