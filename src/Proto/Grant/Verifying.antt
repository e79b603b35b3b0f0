-- ===== src/Proto/Grant/Verifying.antt =====
-- `Sign` and `Verify` of internal/proto/grant.go.
use secure_access_relay.Common.{
  ℕ, ◌+◌, ◌-◌, ◌*◌, ◌≤◌, Bytes, length, [], ◌∷◌, ◌≡◌, refl, ap, arith, inl, inr, ◌⊎◌, ◌==◌, ◌↔◌,
  true, false, Bool-cases, none, bytes_eq, bytes_eq→eq, bytes_eq_refl, not, ◌&&◌,
}
use secure_access_relay.Common.Except.{ok}
use secure_access_relay.Proto.Grant.{
  Ed25519, Grant, SignedGrant, canonical, grant_version, signature_size, max_grant_ttl,
  clock_skew_tolerance, sign, sign_versioned, verify, is_empty, truncate_second,
}

-- The device that presents a grant, where an empty name stands for any.
abbrev pub IsFor : Bytes → Bytes → Type 0
IsFor device_id grant_device = (device_id ≡ []) ⊎ (grant_device ≡ device_id)

module _ (ed : Ed25519) where
  -- What makes a grant good at a time and a device.
  pub record IsGood (s : SignedGrant) (key : Bytes) (now : ℕ) (device_id : Bytes) : Type 0 where
    pub version : s.grant.version ≡ grant_version
    pub size : length s.signature ≡ signature_size
    pub signed : ed.verify key (canonical s.grant) s.signature ≡ true
    pub lifetime : s.grant.expires_at - s.grant.issued_at ≤ max_grant_ttl
    pub started : s.grant.issued_at ≤ now + clock_skew_tolerance
    pub running : now ≤ s.grant.expires_at + clock_skew_tolerance
    pub device : IsFor device_id s.grant.device_id

  IsFor-device : (g d : Bytes) → not (is_empty d) && not (bytes_eq g d) ≡ false → IsFor d g
  IsFor-device g [] h = inl refl
  IsFor-device g (x ∷ d) h = inr (bytes_eq→eq g (x ∷ d) (ground arith))

  device_test : (g d : Bytes) → IsFor d g → not (is_empty d) && not (bytes_eq g d) ≡ false
  device_test g [] h = refl
  device_test g (x ∷ d) (inl e) = cc
  device_test g (x ∷ d) (inr e) = rw e (rw (bytes_eq_refl (x ∷ d)) refl)

  -- `Verify` accepts exactly the good grants: the signature is genuine, the lifetime is within the
  -- ceiling, the time is within the window with its tolerance, and the device is the one named.
  pub verify_iff :
      (s : SignedGrant) (key : Bytes) (now : ℕ) (device_id : Bytes)
      → (verify ed s key now device_id ≡ none) ↔ IsGood s key now device_id
  unfolding verify
  verify_iff s key now device_id = (
    λ h. ground (arith, IsFor-device s.grant.device_id device_id),
    λ v. ground (arith, device_test s.grant.device_id device_id v.device),
  )

  -- A grant is never accepted at two times further apart than the longest lifetime and twice the
  -- tolerance, whatever its signer wrote into it.
  pub verify_window :
      (s : SignedGrant) (key : Bytes) (t u : ℕ) (d : Bytes)
      → verify ed s key t d ≡ none
      → verify ed s key u d ≡ none
      → u ≤ t + (max_grant_ttl + 2 * clock_skew_tolerance)
  verify_window s key t u d h k =
      omega (arith, (verify_iff s key t d).0 h, (verify_iff s key u d).0 k)

  -- What `Sign` issues: the grant asked for, in whole seconds.
  sign_versioned-of_ok :
      (g : Grant) (key : Bytes) (s : SignedGrant)
      → sign_versioned ed g key ≡ ok s
      → (g.version ≡ grant_version)
        × (g.expires_at - g.issued_at ≤ max_grant_ttl)
        × (s ≡ record {
          grant = record g {
            issued_at = truncate_second g.issued_at;
            expires_at = truncate_second g.expires_at;
          };
          signature = ed.sign key (
              canonical (record g {
                issued_at = truncate_second g.issued_at;
                expires_at = truncate_second g.expires_at;
              }));
        })
  unfolding sign_versioned
  sign_versioned-of_ok g key s h = ground arith

  -- Rounding down to seconds does not carry a lifetime over the ceiling.
  truncated_ttl :
      (i e : ℕ) → e - i ≤ max_grant_ttl → truncate_second e - truncate_second i ≤ max_grant_ttl
  truncated_ttl i e h = omega arith

  versioned-signs :
      (g : Grant) (key : Bytes) (s : SignedGrant) (now : ℕ) (device_id : Bytes)
      → sign_versioned ed g key ≡ ok s
      → truncate_second g.issued_at ≤ now + clock_skew_tolerance
      → now ≤ truncate_second g.expires_at + clock_skew_tolerance
      → IsFor device_id g.device_id
      → verify ed s (ed.public key) now device_id ≡ none
  versioned-signs g key s now device_id h started running device =
      let (v, l, e) = sign_versioned-of_ok g key s h in
      rw e (
        (verify_iff _ (ed.public key) now device_id).1 (record {
          version = v;
          size = ed.sign_size key _;
          signed = ed.sign_verifies key _;
          lifetime = truncated_ttl g.issued_at g.expires_at l;
          started = started;
          running = running;
          device = device;
        }))

  -- A grant that was signed is accepted with the signer's key, at its device, from its first second
  -- to its last, with the tolerance on both sides.
  pub verify-sign :
      (g : Grant) (key : Bytes) (s : SignedGrant) (now : ℕ) (device_id : Bytes)
      → sign ed g key ≡ ok s
      → truncate_second g.issued_at ≤ now + clock_skew_tolerance
      → now ≤ truncate_second g.expires_at + clock_skew_tolerance
      → IsFor device_id g.device_id
      → verify ed s (ed.public key) now device_id ≡ none
  unfolding sign
  verify-sign g key s now device_id h started running device = elim (Bool-cases (g.version == 0)) [
    | inl z ↦
        versioned-signs (record g { version = grant_version }) key s now device_id (rw z at h)
          started running device
    | inr z ↦ versioned-signs g key s now device_id (rw z at h) started running device
  ]

  -- What is signed of a grant whose version was left to the code.
  pub sign-of_ok :
      (g : Grant) (key : Bytes) (s : SignedGrant)
      → g.version ≡ 0
      → sign ed g key ≡ ok s
      → (g.expires_at - g.issued_at ≤ max_grant_ttl)
        × (s.grant ≡ record g {
          version = grant_version;
          issued_at = truncate_second g.issued_at;
          expires_at = truncate_second g.expires_at;
        })
  unfolding sign
  sign-of_ok g key s z h =
      let (v, l, e) =
        sign_versioned-of_ok (record g { version = grant_version }) key s (rw z at h) in
      (l, ap (λ x. x.grant) e)
