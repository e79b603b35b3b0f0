-- ===== src/E2ee.antt =====
-- internal/e2ee/e2ee.go: the inner session, by which the two ends of a stream know one another.
use secure_access_relay.Common.{
  not, ◌&&◌, Bool, true, Bool-cases, if◌then◌else◌, Bytes, bytes_eq, bytes_eq→eq, codes, List, [],
  ◌∷◌, Option, none, some, ◌≡◌, refl, sym, inl, inr, arith,
}
use secure_access_relay.Common.Except.{Except, ok, err, ok_injective}
use secure_access_relay.Control.Enrollment.{Identity, Certificate, EnrollError, identity_of}

unfoldable pub alpn : Bytes
alpn = codes "sar/e2ee/1"

-- What the other side shows: its certificates, the leaf first, and whether crypto/x509 verifies the leaf
-- against the roots for the part that the other side has.
pub record Peer : Type 0 where
  pub certificates : List Certificate
  pub chain_good : Bool

pub data InnerError : Type 0 where
  no_certificate untrusted other_identity handshake_failed wrong_protocol : InnerError
  unnamed : EnrollError → InnerError

abbrev pub same_identity : Identity → Identity → Bool
same_identity a b = bytes_eq a.role b.role && bytes_eq a.id b.id

abbrev pub is_expected : Identity → Except EnrollError Identity → Option InnerError
is_expected expect (err e) = some (unnamed e)
is_expected expect (ok got) = if not (same_identity got expect) then some other_identity else none

abbrev pub verify_chain : Identity → Bool → List Certificate → Option InnerError
verify_chain expect good [] = some no_certificate
verify_chain expect good (leaf ∷ rest) =
    if not good then some untrusted else is_expected expect (identity_of leaf)

-- `verifyPeer`; `none` is a nil error.
unfoldable pub verify_peer : Identity → Peer → Option InnerError
unfolding identity_of
verify_peer expect p = verify_chain expect p.chain_good p.certificates

-- A handshake of crypto/tls, which calls `verifyPeer` and fails if that does: whether it completes
-- otherwise, and the protocol that was agreed on.
pub record Exchange : Type 0 where
  pub peer : Peer
  pub completes : Bool
  pub protocol : Bytes

abbrev pub finish : Identity → Exchange → Option InnerError → Except InnerError Identity
finish expect x (some e) = err e
finish expect x none =
    if not x.completes
    then err handshake_failed
    else if not (bytes_eq x.protocol alpn)
    then err wrong_protocol
    else ok expect

-- `Client` and `Server`, with the peer that they name.
unfoldable pub inner_session : Identity → Exchange → Except InnerError Identity
unfolding verify_peer alpn
inner_session expect x = finish expect x (verify_peer expect x.peer)

-- The other end of an inner session has shown a certificate that verifies and names it alone.
pub record IsPeer (expect : Identity) (x : Exchange) : Type 0 where
  pub leaf : Certificate
  pub rest : List Certificate
  pub shown : x.peer.certificates ≡ leaf ∷ rest
  pub trusted : x.peer.chain_good ≡ true
  pub named : identity_of leaf ≡ ok expect
  pub spoken : x.protocol ≡ alpn

is_expected-none :
    (expect : Identity) (o : Except EnrollError Identity)
    → is_expected expect o ≡ none
    → o ≡ ok expect
is_expected-none expect (err e) h = absurd (cc h)
is_expected-none expect (ok got) h =
    ground (arith, bytes_eq→eq got.role expect.role, bytes_eq→eq got.id expect.id)

finish-ok :
    (expect peer : Identity) (x : Exchange) (o : Option InnerError)
    → finish expect x o ≡ ok peer
    → (o ≡ none) × (peer ≡ expect) × (x.protocol ≡ alpn)
finish-ok expect peer x (some e) h = absurd (cc h)
finish-ok expect peer x none h = elim (Bool-cases x.completes) [
  | inr f ↦ absurd (cc (rw f at h))
  | inl t ↦ elim (Bool-cases (bytes_eq x.protocol alpn)) [
    | inr f ↦ absurd (cc (rw (t, f) at h))
    | inl u ↦ (refl, sym (ok_injective (rw (t, u) at h)), bytes_eq→eq x.protocol alpn u)
  ]
]

-- The other end of an inner session is the one that was expected.
pub inner_session-IsPeer :
    (expect peer : Identity) (x : Exchange)
    → inner_session expect x ≡ ok peer
    → (peer ≡ expect) × IsPeer expect x
unfolding inner_session verify_peer
inner_session-IsPeer expect peer x h = go x.peer.certificates refl h
  where
    go :
        (cs : List Certificate)
        → x.peer.certificates ≡ cs
        → finish expect x (verify_chain expect x.peer.chain_good cs) ≡ ok peer
        → (peer ≡ expect) × IsPeer expect x
    go [] e h = absurd (cc h)
    go (leaf ∷ rest) e h =
        let (q, same, spoken) = finish-ok expect peer x _ h in
        elim (Bool-cases x.peer.chain_good) [
          | inr f ↦ absurd (cc (rw f at q))
          | inl t ↦ (
            same,
            record {
              leaf = leaf;
              rest = rest;
              shown = e;
              trusted = t;
              named = is_expected-none expect (identity_of leaf) (rw t at q);
              spoken = spoken;
            },
          )
        ]
