-- ===== src/Credentials/Interrupted.antt =====
-- What becomes of a peer whose renewal is interrupted (internal/identity/renew.go).
use secure_access_relay.Common.{
  ℕ, not, true, false, if_intro, Bytes, List, [], ◌∷◌, Option, none, some, ◌≡◌, refl, ap, ◌||◌,
}
use secure_access_relay.Common.Except.{Except, ok, err, ok_injective}
use secure_access_relay.Proto.Grant.{is_empty}
use secure_access_relay.Credentials.{
  Pki, File, holds, Disk, Holder, LoadFault, key_mismatch, load, is_due, Renewal, RenewError,
  unwritten, post_renew, Chance, loaded, write_grant_key, write_authority, write_certificate,
  write_key, with_key, renew_holder, or_current, renew_if_due,
}
use secure_access_relay.Credentials.Renewed.{load-IsLoaded, mismatched}

-- One round of the agent: its control plane, its directory, the clock twice, and what a renewal meets.
pub record Round : Type 0 where
  pub control_addr : Bytes
  pub state_dir : Bytes
  pub now : ℕ
  pub later : ℕ
  pub chance : Chance

module _ (pki : Pki) where
  abbrev Loads : Disk × Except RenewError Holder → Type 0
  Loads x = (h : Holder) → x.1 ≡ ok h → load pki x.0 ≡ ok h

  loaded-ok : (o : Except LoadFault Holder) (h : Holder) → loaded o ≡ ok h → o ≡ ok h
  loaded-ok (err e) h q = absurd (cc q)
  loaded-ok (ok g) h q = ap ok (ok_injective q)

  write_grant_key-Loads :
      (b : Bytes) (left : Option File) (d : Disk) → Loads (write_grant_key pki b left d)
  write_grant_key-Loads b left d =
      if_intro Loads (is_empty b) (λ _ h q. loaded-ok (load pki d) h q) (λ _. go left)
    where
      go :
          (o : Option File)
          → Loads (elim o [
            | some f ↦ (record d { grant_key = f }, err unwritten)
            | none ↦ let d' = record d { grant_key = holds b } in (d', loaded (load pki d'))
          ])
      go none h q = loaded-ok (load pki (record d { grant_key = holds b })) h q
      go (some f) h q = absurd (cc q)

  write_authority-Loads : (r : Renewal) (w : Chance) (d : Disk) → Loads (write_authority pki r w d)
  write_authority-Loads r w d =
      if_intro Loads (is_empty r.authority)
        (λ _. write_grant_key-Loads r.grant_key w.grant_key_left d) (λ _. go w.authority_left)
    where
      go :
          (o : Option File)
          → Loads (elim o [
            | some f ↦ (record d { authority = f }, err unwritten)
            | none ↦
                write_grant_key pki r.grant_key w.grant_key_left
                  (record d { authority = holds r.authority })
          ])
      go none h q =
          write_grant_key-Loads r.grant_key w.grant_key_left
            (record d { authority = holds r.authority }) h q
      go (some f) h q = absurd (cc q)

  renew_holder-Loads : (w : Chance) (d : Disk) → Loads (renew_holder pki w d)
  unfolding renew_holder
  renew_holder-Loads w d = go w.new_key
    where
      go'' :
          (r : Renewal) (key : Bytes) (o : Option File)
          → Loads (write_certificate pki r w o (record d { key = holds key }))
      go'' r key none h q = write_authority-Loads r w _ h q
      go'' r key (some f) h q = absurd (cc q)

      go' : (key : Bytes) (o : Except RenewError Renewal) → Loads (write_key pki w key d o)
      go' key (err e) h q = absurd (cc q)
      go' key (ok r) h q =
          if_intro Loads (not (pki.key_pair r.certificate key)) (λ _ h q. absurd (cc q))
            (λ _.
              if_intro Loads (not w.has_directory) (λ _ h q. absurd (cc q))
                (λ _.
                  if_intro Loads (not w.key_saved) (λ _ h q. absurd (cc q))
                    (λ _. go'' r key w.certificate_left)))
            h q

      go : (o : Option Bytes) → Loads (with_key pki w d o)
      go none h q = absurd (cc q)
      go (some key) h q = go' key (post_renew w.reply) h q

  unfoldable pub rounds : List Round → Disk × Holder → Disk × Holder
  rounds [] x = x
  rounds (w ∷ ws) (d, h) =
      rounds ws (renew_if_due pki w.control_addr w.state_dir w.now w.later w.chance h d)

  abbrev IsPair : Disk × Holder → Type 0
  IsPair x = pki.key_pair x.1.certificate x.1.key ≡ true

  or_current-IsPair :
      (h : Holder) (x : Disk × Except RenewError Holder)
      → pki.key_pair h.certificate h.key ≡ true
      → Loads x
      → IsPair (or_current pki h x)
  or_current-IsPair h (d, err e) k l = k
  or_current-IsPair h (d, ok renewed) k l = (load-IsLoaded pki d renewed (l renewed refl)).pair

  round-IsPair :
      (w : Round) (d : Disk) (h : Holder)
      → pki.key_pair h.certificate h.key ≡ true
      → IsPair (renew_if_due pki w.control_addr w.state_dir w.now w.later w.chance h d)
  unfolding renew_if_due
  round-IsPair w d h k =
      if_intro IsPair (is_empty w.control_addr || is_empty w.state_dir) (λ _. k)
        (λ _.
          if_intro IsPair (not (is_due h.not_after w.now)) (λ _. k)
            (λ _.
              if_intro IsPair (not (is_due h.not_after w.later)) (λ _. k)
                (λ _.
                  or_current-IsPair h (renew_holder pki w.chance d) k
                    (renew_holder-Loads w.chance d))))

  -- An agent goes on with a certificate and its own key, whatever becomes of its renewals.
  pub rounds-IsPair :
      (ws : List Round) (d : Disk) (h : Holder)
      → pki.key_pair h.certificate h.key ≡ true
      → pki.key_pair (rounds ws (d, h)).1.certificate (rounds ws (d, h)).1.key ≡ true
  unfolding rounds
  rounds-IsPair [] d h k = k
  rounds-IsPair (w ∷ ws) d h k =
      let x = renew_if_due pki w.control_addr w.state_dir w.now w.later w.chance h d in
      rounds-IsPair ws x.0 x.1 (round-IsPair w d h k)

  -- A renewal that is interrupted once the new key is stored, before the certificate is, leaves a
  -- directory that cannot be loaded, though it could be before: the control plane still accepts the old
  -- certificate, whose key is gone.
  pub load-renew_holder :
      (w : Chance) (d : Disk) (h : Holder) (key : Bytes) (r : Renewal)
      → load pki d ≡ ok h
      → w.new_key ≡ some key
      → post_renew w.reply ≡ ok r
      → pki.key_pair r.certificate key ≡ true
      → pki.key_pair h.certificate key ≡ false
      → w.has_directory ≡ true
      → w.key_saved ≡ true
      → w.certificate_left ≡ some d.certificate
      → load pki (renew_holder pki w d).0 ≡ err key_mismatch
  unfolding renew_holder
  load-renew_holder w d h key r l a b c f e g i =
      let k = load-IsLoaded pki d h l in
      rw (a, b, c, e, g, i)
        (mismatched pki (record d { key = holds key }) key h.certificate h.authority refl
          k.certificate k.authority f)
