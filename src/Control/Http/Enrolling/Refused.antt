-- ===== src/Control/Http/Enrolling/Refused.antt =====
-- What a refused token tells its holder (internal/control/httpapi/httpapi.go, `handleEnroll`).
use secure_access_relay.Common.{
  ℕ, Bool, true, false, Bytes, codes, Option, none, some, ◌≡◌, refl, ◌↔◌, arith, ◌≢◌, ◌<◌, ◌⊎◌, inl,
  inr, ltb, ltb→lt, ltb→le, Bool-cases, ap, ◌∙◌,
}
use secure_access_relay.Common.Except.{Except, ok, err, err_injective}
use secure_access_relay.Common.Named.{Named, find}
use secure_access_relay.Storage.{
  Database, StoreError, failed, token_unknown, token_consumed, token_expired, is_set,
}
use secure_access_relay.Storage.Tokens.{Token, consume_token, consume_over, usable, mark}
use secure_access_relay.Storage.Identities.{put_record}
use secure_access_relay.Control.Enrollment.{
  Identity, Certificate, Csr, Control, EnrollError, stores, certify, sign_certificate, enroll_with,
  after_consume, enroll,
}
use secure_access_relay.Control.Http.{Server, Plane, Request, Refusal, refused}
use secure_access_relay.Control.Http.Enrolling.{
  EnrollAsk, Signing, enroll_refused, enrolled, handle_enroll,
}

abbrev pub is_token_error : StoreError → Bool
is_token_error token_unknown = true
is_token_error token_consumed = true
is_token_error token_expired = true
is_token_error _ = false

abbrev pub token_refused : Except Refusal Certificate
token_refused = refused 403 (codes "enrollment refused")

abbrev of_token : EnrollError → Bool
of_token (stores e) = is_token_error e
of_token _ = false

abbrev is_of_token : Except EnrollError Certificate → Bool
is_of_token (ok c) = false
is_of_token (err e) = of_token e

-- What comes after the token has been spent fails otherwise.
enroll_with-certify :
    (db : Database) (now : ℕ) (id : Identity) (c : Control) (csr : Csr) (serial : Option Bytes)
    → is_of_token (enroll_with db now id c (certify csr id serial)).1 ≡ false
unfolding put_record certify sign_certificate
enroll_with-certify db now id c csr none = ground arith
enroll_with-certify db now id c csr (some n) = ground arith

of_store-token_refused :
    (s : Server) (v : Signing) (remote : Bytes) (p : Plane) (x : StoreError)
    → ((enroll_refused s v remote (stores x) p).1 ≡ token_refused) ↔ (is_token_error x ≡ true)
of_store-token_refused s v remote p token_unknown = ((λ _. refl), λ _. refl)
of_store-token_refused s v remote p token_consumed = ((λ _. refl), λ _. refl)
of_store-token_refused s v remote p token_expired = ((λ _. refl), λ _. refl)
of_store-token_refused s v remote p x = ground arith

-- The answer is this one for the errors of a token, and for no other outcome.
enrolled-token_refused :
    (s : Server) (v : Signing) (remote : Bytes) (p : Plane) (c : Control)
    (o : Except EnrollError Certificate)
    → ((enrolled s v remote p (c, o)).1 ≡ token_refused) ↔ (is_of_token o ≡ true)
enrolled-token_refused s v remote p c (ok cert) = ground arith
enrolled-token_refused s v remote p c (err (stores x)) =
    of_store-token_refused s v remote (record p { control = c }) x
enrolled-token_refused s v remote p c (err e) = ground arith

module _ (db : Database) (now : ℕ) (csr : Csr) (serial : Option Bytes) (c : Control) where
  -- A token error leaves the identities as they are.
  after_consume-token :
      (x : Named Token × Except StoreError Token)
      → (is_of_token (after_consume db now csr serial c x).1 ≡ true)
        ↔ ((e : StoreError) × (x.1 ≡ err e) × (is_token_error e ≡ true))
  after_consume-token (tokens, err e) = (λ h. (e, refl, h), λ (e', q, h). rw (err_injective q) h)
  after_consume-token (tokens, ok t) =
      let k =
        enroll_with-certify db now (record { role = t.role; id = t.id })
          (record c { tokens = tokens }) csr serial in
      (λ h. absurd (cc (h, k)), λ (e', q, h). absurd (cc q))

-- Of a row of the table of tokens: there is none, it was used before, or its time is over.
abbrev pub IsSpent : ℕ → Option Token → Type 0
IsSpent now none = Unit {0}
IsSpent now (some t) = (t.consumed_at ≢ none) ⊎ (t.expires_at < now)

is_set_iff : (o : Option ℕ) → (is_set o ≡ true) ↔ (o ≢ none)
is_set_iff none = (λ h. absurd (cc h), λ n. absurd (n refl))
is_set_iff (some t) = (λ h e. absurd (cc e), λ n. refl)

-- The row that is found decides, if the database answers.
module _ (hash_token : Bytes → Bytes) (db : Database) (checked_at consumed_at : ℕ) (token : Bytes)
    (tokens : Named Token) where
  abbrev Answers : Except StoreError Token → Type 0
  Answers o = (e : StoreError) × (o ≡ err e) × (is_token_error e ≡ true)

  mark-usable :
      (t : Token)
      → find (hash_token token) tokens ≡ some t
      → is_set t.consumed_at ≡ false
      → ¬ Answers (mark db consumed_at (hash_token token) tokens (ok t)).1
  mark-usable t f n (e, q, h) = elim (Bool-cases db.writes) [
    | inr w ↦ wrong_error (err_injective (rw w at q)) h
    | inl w ↦ absurd (cc (rw (w, f, n) at q))
  ]
    where
      wrong_error : {e : StoreError} → failed ≡ e → is_token_error e ≡ true → ⊥
      wrong_error p k = absurd (cc (ap is_token_error p ∙ k))

  row-IsSpent :
      (o : Option Token)
      → find (hash_token token) tokens ≡ o
      → Answers (mark db consumed_at (hash_token token) tokens (usable checked_at o)).1
        ↔ IsSpent checked_at o
  row-IsSpent none f = (λ a. tt, λ s. (token_unknown, refl, refl))
  row-IsSpent (some t) f = elim (Bool-cases (is_set t.consumed_at)) [
    | inl u ↦ rw u ((λ a. inl ((is_set_iff t.consumed_at).0 u)), λ s. (token_consumed, refl, refl))
    | inr u ↦ elim (Bool-cases (ltb t.expires_at checked_at)) [
      | inl x ↦
          rw (u, x)
            ((λ a. inr (ltb→lt t.expires_at checked_at x)), λ s. (token_expired, refl, refl))
      | inr x ↦
          rw (u, x)
            (
              λ a. absurd (mark-usable t f u a),
              λ s. absurd (elim s [
                | inl n ↦ cc ((is_set_iff t.consumed_at).1 n, u)
                | inr l ↦ omega (arith, l, ltb→le t.expires_at checked_at x)
              ]),
            )
    ]
  ]

  consume_token-IsSpent :
      Answers (consume_token hash_token db checked_at consumed_at token tokens).1
      ↔ ((db.reads ≡ true) × IsSpent checked_at (find (hash_token token) tokens))
  unfolding consume_token consume_over
  consume_token-IsSpent = elim (Bool-cases db.reads) [
    | inr n ↦ rw n ((λ (e, q, h). absurd (cc (q, h))), λ (r, s). absurd (cc r))
    | inl r ↦
        let (to, from) = row-IsSpent (find (hash_token token) tokens) refl in
        rw r ((λ a. (refl, to a)), λ (q, s). from s)
  ]

-- An enrollment whose request could be read is answered "enrollment refused" with status 403 exactly
-- when the table of tokens could be read and its token is not in it, was used before or has run out,
-- whichever it is.
pub handle_enroll-token_refused :
    (hash_token : Bytes → Bytes) (s : Server) (v : Signing) (r : Request EnrollAsk) (p : Plane)
    (ask : EnrollAsk)
    → r.body ≡ some ask
    → ((handle_enroll hash_token s v r p).1 ≡ token_refused) ↔ (
        (v.first_db.reads ≡ true)
        × IsSpent v.checked_at (find (hash_token ask.token) p.control.tokens))
unfolding handle_enroll enroll
handle_enroll-token_refused hash_token s v r p ask b =
    let x =
      consume_token hash_token v.first_db v.checked_at v.consumed_at ask.token p.control.tokens in
    let y = after_consume v.then_db v.signed_at ask.csr v.serial p.control x in
    let (to, from) = enrolled-token_refused s v r.remote p y.0 y.1 in
    let (to', from') = after_consume-token v.then_db v.signed_at ask.csr v.serial p.control x in
    let (spent, refusal) =
      consume_token-IsSpent hash_token v.first_db v.checked_at v.consumed_at ask.token
        p.control.tokens in
    rw b ((λ h. spent (to' (to h))), λ h. from (from' (refusal h)))
