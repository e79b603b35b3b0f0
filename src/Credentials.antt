-- ===== src/Credentials.antt =====
-- internal/identity: the key and the certificate that a peer keeps, and their renewal.
pub mod Renewed
pub mod Interrupted
use secure_access_relay.Common.{
  ℕ, ◌-◌, ◌*◌, ltb, leb, ◌==◌, not, ◌||◌, Bool, true, false, if◌then◌else◌, Bytes, List, [], ◌∷◌,
  Option, none, some,
}
use secure_access_relay.Common.Except.{Except, ok, err}
use secure_access_relay.Proto.Grant.{is_empty, second}
use secure_access_relay.Storage.Ledger.Grants.{zero_time}
use secure_access_relay.Control.Enrollment.{Identity, Certificate, EnrollError, identity_of}
use secure_access_relay.Operator.Sessions.{Reply, ControlError, read_reply}

-- crypto/tls and crypto/x509 on texts in PEM: whether a certificate and a key are a pair, the first
-- certificate of a text, when it ends, and whether a text holds certificates; and what the other files
-- hold, if they are well formed.
pub record Pki : Type 0 where
  pub key_pair : Bytes → Bytes → Bool
  pub leaf : Bytes → Option Certificate
  pub not_after : Bytes → ℕ
  pub has_certificates : Bytes → Bool
  pub server_name : Bytes → Bytes
  pub grant_key : Bytes → Option Bytes

pub data File : Type 0 where
  absent locked : File
  holds : Bytes → File

-- The state directory.
pub record Disk : Type 0 where
  pub key : File
  pub certificate : File
  pub authority : File
  pub server : File
  pub grant_key : File

-- `Identity`.
pub record Holder : Type 0 where
  pub certificate : Bytes
  pub key : Bytes
  pub authority : Bytes
  pub id : Identity
  pub server_name : Bytes
  pub not_after : ℕ
  pub grant_key : Option Bytes

pub data LoadFault : Type 0 where
  not_enrolled unreadable key_mismatch no_leaf unusable_authority : LoadFault
  unnamed : EnrollError → LoadFault

-- A file that must be there.
abbrev pub required {ℓ} : {A : Type ℓ} → File → (Bytes → Except LoadFault A) → Except LoadFault A
required absent k = err not_enrolled
required locked k = err unreadable
required (holds b) k = k b

abbrev pub contents {ℓ} : {A : Type ℓ} → (Bytes → A) → A → File → A
contents f a (holds b) = f b
contents f a _ = a

module _ (pki : Pki) where
  abbrev pub with_identity :
      Disk → Bytes → Bytes → Bytes → Except EnrollError Identity → Except LoadFault Holder
  with_identity d key cert authority (err e) = err (unnamed e)
  with_identity d key cert authority (ok id) =
      if not (pki.has_certificates authority)
      then err unusable_authority
      else ok (record {
        certificate = cert;
        key = key;
        authority = authority;
        id = id;
        server_name = contents pki.server_name [] d.server;
        not_after = pki.not_after cert;
        grant_key = contents pki.grant_key none d.grant_key;
      })

  abbrev pub with_leaf : Disk → Bytes → Bytes → Bytes → Option Certificate → Except LoadFault Holder
  with_leaf d key cert authority none = err no_leaf
  with_leaf d key cert authority (some c) = with_identity d key cert authority (identity_of c)

  abbrev pub with_files : Disk → Bytes → Bytes → Bytes → Except LoadFault Holder
  with_files d key cert authority =
      if not (pki.key_pair cert key)
      then err key_mismatch
      else with_leaf d key cert authority (pki.leaf cert)

  -- `Load`.
  unfoldable pub load : Disk → Except LoadFault Holder
  unfolding identity_of
  load d = required d.key (λ key.
      required d.certificate
        (λ cert. required d.authority (λ authority. with_files d key cert authority)))

abbrev pub renew_before : ℕ
renew_before = 10 * (24 * 3600) * second

unfoldable pub is_due : ℕ → ℕ → Bool
is_due not_after now =
    if not_after == zero_time
    then false
    else if leb not_after now
    then false
    else ltb (not_after - now) renew_before

unfoldable pub has_expired : ℕ → ℕ → Bool
has_expired not_after now = if not_after == zero_time then false else leb not_after now

-- `enrollResponse`, as far as a renewal reads it.
pub record Renewal : Type 0 where
  pub certificate : Bytes
  pub authority : Bytes
  pub grant_key : Bytes

pub data RenewError : Type 0 where
  no_key no_certificate mismatch unwritten : RenewError
  control : ControlError → RenewError
  unloadable : LoadFault → RenewError

abbrev pub with_certificate : Except ControlError Renewal → Except RenewError Renewal
with_certificate (err e) = err (control e)
with_certificate (ok r) = if is_empty r.certificate then err no_certificate else ok r

-- `postRenew`, of what came back for its request.
unfoldable pub post_renew : Option (Reply Renewal) → Except RenewError Renewal
post_renew reply = with_certificate (read_reply reply)

-- What a renewal meets: the new key, if it and its request could be made, the answer, whether there is a
-- directory, whether the key could be saved, and for each other file what a failed write leaves of it.
pub record Chance : Type 0 where
  pub new_key : Option Bytes
  pub reply : Option (Reply Renewal)
  pub has_directory : Bool
  pub key_saved : Bool
  pub certificate_left : Option File
  pub authority_left : Option File
  pub grant_key_left : Option File

abbrev pub loaded : Except LoadFault Holder → Except RenewError Holder
loaded (err e) = err (unloadable e)
loaded (ok h) = ok h

module _ (pki : Pki) where
  abbrev pub write_grant_key : Bytes → Option File → Disk → Disk × Except RenewError Holder
  write_grant_key b left d = if is_empty b then (d, loaded (load pki d)) else elim left [
    | some f ↦ (record d { grant_key = f }, err unwritten)
    | none ↦ let d' = record d { grant_key = holds b } in (d', loaded (load pki d'))
  ]

  abbrev pub write_authority : Renewal → Chance → Disk → Disk × Except RenewError Holder
  write_authority r w d =
      if is_empty r.authority
      then write_grant_key r.grant_key w.grant_key_left d
      else elim w.authority_left [
        | some f ↦ (record d { authority = f }, err unwritten)
        | none ↦
            write_grant_key r.grant_key w.grant_key_left
              (record d { authority = holds r.authority })
      ]

  abbrev pub write_certificate :
      Renewal → Chance → Option File → Disk → Disk × Except RenewError Holder
  write_certificate r w (some f) d = (record d { certificate = f }, err unwritten)
  write_certificate r w none d =
      write_authority r w (record d { certificate = holds r.certificate })

  abbrev pub write_key :
      Chance → Bytes → Disk → Except RenewError Renewal → Disk × Except RenewError Holder
  write_key w key d (err e) = (d, err e)
  write_key w key d (ok r) =
      if not (pki.key_pair r.certificate key)
      then (d, err mismatch)
      else if not w.has_directory
      then (d, err unwritten)
      else if not w.key_saved
      then (d, err unwritten)
      else write_certificate r w w.certificate_left (record d { key = holds key })

  abbrev pub with_key : Chance → Disk → Option Bytes → Disk × Except RenewError Holder
  with_key w d none = (d, err no_key)
  with_key w d (some key) = write_key w key d (post_renew w.reply)

  -- `Renew`: the directory after it, and its result.
  unfoldable pub renew_holder : Chance → Disk → Disk × Except RenewError Holder
  unfolding load post_renew
  renew_holder w d = with_key w d w.new_key

  abbrev pub or_current : Holder → Disk × Except RenewError Holder → Disk × Holder
  or_current h (d, err e) = (d, h)
  or_current h (d, ok renewed) = (d, renewed)

  -- `RenewIfDue`, and `renewIfDue` of the agent, which reads the clock before it: the directory, and the
  -- identity that the agent goes on with.
  unfoldable pub renew_if_due : Bytes → Bytes → ℕ → ℕ → Chance → Holder → Disk → Disk × Holder
  unfolding is_due renew_holder
  renew_if_due control_addr state_dir now later w h d =
      if is_empty control_addr || is_empty state_dir
      then (d, h)
      else if not (is_due h.not_after now)
      then (d, h)
      else if not (is_due h.not_after later)
      then (d, h)
      else or_current h (renew_holder w d)
