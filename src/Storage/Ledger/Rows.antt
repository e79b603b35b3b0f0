-- ===== src/Storage/Ledger/Rows.antt =====
-- Rows that are found, added and updated (internal/storage).
use secure_access_relay.Common.{
  ℕ, Bool, true, false, if◌then◌else◌, List, [], ◌∷◌, ◌++◌, Option, none, some,
}
use secure_access_relay.Common.Except.{ok, ok_injective}
use secure_access_relay.Storage.{Database, StoreError}
use secure_access_relay.Common.{◌≡◌, refl, Bool-cases, arith, inl, inr}
use secure_access_relay.Storage.Ledger.{
  AuditEvent, Ledger, first, update, has, commit_with, returned,
}

-- The first row of a table that was found stays it when rows are added.
module _ {ℓ} {A : Type ℓ} (p : A → Bool) where
  pub first-append :
      (rows more : List A) (r : A) → first p rows ≡ some r → first p (rows ++ more) ≡ some r
  unfolding first
  first-append [] more r e = absurd (cc e)
  first-append (x ∷ rows) more r e = elim (Bool-cases (p x)) [
    | inl k ↦ rw k (rw k at e)
    | inr k ↦ rw k (first-append rows more r (rw k at e))
  ]

  abbrev pub changed : (A → Bool) → (A → A) → Option A → Option A
  changed q f none = none
  changed q f (some r) = some (if q r then f r else r)

  -- An UPDATE that keeps the columns of the WHERE of a SELECT changes the row that is found.
  pub first-update :
      (q : A → Bool) (f : A → A) (rows : List A)
      → ((r : A) → p (f r) ≡ p r)
      → first p (update q f rows) ≡ changed q f (first p rows)
  unfolding first update
  first-update q f [] same = refl
  first-update q f (x ∷ rows) same = elim (Bool-cases (p x)) [
    | inl k ↦ elim (Bool-cases (q x)) [
      | inl j ↦ rw (j, same x, k, j) refl
      | inr j ↦ rw (j, k, j) refl
    ]
    | inr k ↦ elim (Bool-cases (q x)) [
      | inl j ↦ rw (j, same x, k) (first-update q f rows same)
      | inr j ↦ rw (j, k) (first-update q f rows same)
    ]
  ]

-- The row that was found is one that was looked for.
pub first-holds :
    {A : Type 0} (p : A → Bool) (rows : List A) (r : A) → first p rows ≡ some r → p r ≡ true
unfolding first
first-holds p [] r e = absurd (cc e)
first-holds p (x ∷ rows) r e = elim (Bool-cases (p x)) [
  | inl k ↦ let same : x ≡ r = cc (rw k at e) in rw⁻¹ same k
  | inr k ↦ first-holds p rows r (rw k at e)
]

pub returned-none :
    {A : Type 0} (a b : A) (r : Ledger × Option StoreError)
    → (returned a r).1 ≡ ok b
    → (r.1 ≡ none) × ((returned a r).0 ≡ r.0) × (a ≡ b)
returned-none a b (l, none) h = (refl, refl, ok_injective h)
returned-none a b (l, some e) h = absurd (cc h)

-- What was committed is there.
pub commit_with-none :
    (db : Database) (now : ℕ) (e : AuditEvent) (l m : Ledger)
    → (commit_with db now e l m).1 ≡ none
    → ((commit_with db now e l m).0.grants ≡ m.grants)
      × ((commit_with db now e l m).0.sessions ≡ m.sessions)
unfolding commit_with
commit_with-none db now e l m h = (ground arith, ground arith)

pub has-none : {A : Type 0} (o : Option A) → has o ≡ false → o ≡ none
has-none none h = refl
has-none (some r) h = absurd (cc h)

-- A row that is added is found, if none was before.
pub first-added :
    {A : Type 0} (p : A → Bool) (rows : List A) (r : A)
    → first p rows ≡ none
    → p r ≡ true
    → first p (rows ++ r ∷ []) ≡ some r
unfolding first
first-added p [] r e h = rw h refl
first-added p (x ∷ rows) r e h = elim (Bool-cases (p x)) [
  | inl k ↦ absurd (cc (rw k at e))
  | inr k ↦ rw k (first-added p rows r (rw k at e) h)
]
