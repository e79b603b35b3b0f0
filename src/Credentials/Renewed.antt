-- ===== src/Credentials/Renewed.antt =====
-- What a renewal leaves in the state directory (internal/identity/renew.go).
use secure_access_relay.Common.{
  true, false, Bool-cases, Bytes, Option, none, some, ◌≡◌, refl, sym, inl, inr, ap,
}
use secure_access_relay.Common.Except.{Except, ok, err, ok_injective}
use secure_access_relay.Control.Enrollment.{Identity, Certificate, EnrollError, identity_of}
use secure_access_relay.Credentials.{
  Pki, File, absent, locked, holds, Disk, Holder, key_mismatch, required, with_identity, with_leaf,
  with_files, load,
}

module _ (pki : Pki) where
  -- The key and the certificate that a directory holds are a pair.
  pub record IsLoaded (d : Disk) (h : Holder) : Type 0 where
    pub key : d.key ≡ holds h.key
    pub certificate : d.certificate ≡ holds h.certificate
    pub authority : d.authority ≡ holds h.authority
    pub pair : pki.key_pair h.certificate h.key ≡ true

  with_files-ok :
      (d : Disk) (key cert authority : Bytes) (h : Holder)
      → with_files pki d key cert authority ≡ ok h
      → (h.key ≡ key)
        × (h.certificate ≡ cert)
        × (h.authority ≡ authority)
        × (pki.key_pair cert key ≡ true)
  with_files-ok d key cert authority h e = elim (Bool-cases (pki.key_pair cert key)) [
    | inr f ↦ absurd (cc (rw f at e))
    | inl t ↦ let (k, c, a) = go (pki.leaf cert) (rw t at e) in (k, c, a, t)
  ]
    where
      named :
          (o : Except EnrollError Identity)
          → with_identity pki d key cert authority o ≡ ok h
          → (h.key ≡ key) × (h.certificate ≡ cert) × (h.authority ≡ authority)
      named (err x) q = absurd (cc q)
      named (ok id) q = elim (Bool-cases (pki.has_certificates authority)) [
        | inr f ↦ absurd (cc (rw f at q))
        | inl t ↦
            let same = ok_injective (rw t at q) in
            (
              ap (λ z. z.key) (sym same),
              ap (λ z. z.certificate) (sym same),
              ap (λ z. z.authority) (sym same),
            )
      ]

      go :
          (o : Option Certificate)
          → with_leaf pki d key cert authority o ≡ ok h
          → (h.key ≡ key) × (h.certificate ≡ cert) × (h.authority ≡ authority)
      go none q = absurd (cc q)
      go (some c) q = named (identity_of c) q

  pub load-IsLoaded : (d : Disk) (h : Holder) → load pki d ≡ ok h → IsLoaded d h
  unfolding load
  load-IsLoaded d h = go d.key refl
    where
      with_all :
          (key cert : Bytes) (f : File)
          → d.key ≡ holds key
          → d.certificate ≡ holds cert
          → d.authority ≡ f
          → required f (with_files pki d key cert) ≡ ok h
          → IsLoaded d h
      with_all key cert absent a b z q = absurd (cc q)
      with_all key cert locked a b z q = absurd (cc q)
      with_all key cert (holds authority) a b z q =
          let (k, c, y, t) = with_files-ok d key cert authority h q in
          record { key = rw k a; certificate = rw c b; authority = rw y z; pair = rw (k, c) t }

      with_cert :
          (key : Bytes) (f : File)
          → d.key ≡ holds key
          → d.certificate ≡ f
          → required f (λ cert. required d.authority (with_files pki d key cert)) ≡ ok h
          → IsLoaded d h
      with_cert key absent a b q = absurd (cc q)
      with_cert key locked a b q = absurd (cc q)
      with_cert key (holds cert) a b q = with_all key cert d.authority a b refl q

      go :
          (f : File)
          → d.key ≡ f
          → required f (λ key.
            required d.certificate (λ cert. required d.authority (with_files pki d key cert)))
            ≡ ok h
          → IsLoaded d h
      go absent a q = absurd (cc q)
      go locked a q = absurd (cc q)
      go (holds key) a q = with_cert key d.certificate a refl q

  -- A directory whose key and certificate are not a pair cannot be loaded.
  pub mismatched :
      (d : Disk) (key cert authority : Bytes)
      → d.key ≡ holds key
      → d.certificate ≡ holds cert
      → d.authority ≡ holds authority
      → pki.key_pair cert key ≡ false
      → load pki d ≡ err key_mismatch
  unfolding load
  mismatched d key cert authority a b c f = rw (a, b, c, f) refl
