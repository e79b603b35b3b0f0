-- ===== src/Storage/Tokens/SingleUse.antt =====
-- A token is used once (internal/storage/identities.go, `ConsumeToken`).
use secure_access_relay.Common.{
  ℕ, ◌+◌, ◌≤◌, not, Bool, true, false, Bool-cases, if◌then◌else◌, if_intro, Bytes, bytes_eq,
  bytes_eq→eq, List, [], ◌∷◌, Option, none, some, ◌≡◌, refl, sym, ◌∙◌, ap, subst, ◌⊎◌, ◌↔◌, inl,
  inr, arith,
}
use secure_access_relay.Common.Except.{Except, ok, err}
use secure_access_relay.Common.Named.{Named, find, put, find-put}
use secure_access_relay.Storage.{Database, StoreError, failed, is_set}
use secure_access_relay.Storage.Tokens.{
  Token, put_token, on_conflict, usable, mark_row, mark, consume_over, consume_token,
}

abbrev pub is_used : Option Token → Bool
is_used none = false
is_used (some t) = is_set t.consumed_at

-- Writing a used row, or one that has no used row to replace, keeps what was used.
used-put :
    (h k : Bytes) (t : Token) (tokens : Named Token)
    → (is_used (find k tokens) ≡ true → is_set t.consumed_at ≡ true)
    → is_used (find h tokens) ≡ true
    → is_used (find h (put k t tokens)) ≡ true
used-put h k t tokens keeps u =
    subst (λ o. is_used o ≡ true) (sym (find-put k h t tokens))
      (if_intro (λ o. is_used o ≡ true) (bytes_eq k h)
        (λ e. keeps (subst (λ z. is_used (find z tokens) ≡ true) (sym (bytes_eq→eq k h e)) u))
        (λ _. u))

conflict-used :
    (t : Token) (o : Option Token) → is_used o ≡ true → is_set (on_conflict t o).consumed_at ≡ true
conflict-used t none u = absurd (cc)
conflict-used t (some old) u = u

put_token-used :
    (h : Bytes) (db : Database) (t : Token) (tokens : Named Token)
    → is_used (find h tokens) ≡ true
    → is_used (find h (put_token db t tokens).0) ≡ true
unfolding put_token
put_token-used h db t tokens u =
    if_intro (λ (r : Named Token × Option StoreError). is_used (find h r.0) ≡ true) (not db.writes)
      (λ _. u) (λ _. used-put h t.hash _ tokens (λ v. conflict-used t (find t.hash tokens) v) u)

-- What an UPDATE does: a success meets a row of the token that was not consumed and consumes it, a
-- failure changes nothing.
data Marked (hash : Bytes) (tokens : Named Token) (r : Named Token × Except StoreError Token)
    : Type 0 where
  refuses : (e : StoreError) → r.1 ≡ err e → r.0 ≡ tokens → Marked hash tokens r
  wins :
      (t row : Token)
      → r.1 ≡ ok t
      → is_used (find hash tokens) ≡ false
      → r.0 ≡ put hash row tokens
      → is_set row.consumed_at ≡ true
      → Marked hash tokens r

mark_row-Marked :
    (now : ℕ) (hash : Bytes) (t : Token) (tokens : Named Token) (o : Option Token)
    → find hash tokens ≡ o
    → Marked hash tokens (mark_row now hash t o tokens)
mark_row-Marked now hash t tokens none e = refuses _ refl refl
mark_row-Marked now hash t tokens (some r) e =
    if_intro (Marked hash tokens) (is_set r.consumed_at) (λ _. refuses _ refl refl)
      (λ u. wins _ _ refl (ap is_used e ∙ u) refl refl)

mark-Marked :
    (db : Database) (now : ℕ) (hash : Bytes) (tokens : Named Token) (o : Except StoreError Token)
    → Marked hash tokens (mark db now hash tokens o)
mark-Marked db now hash tokens (err e) = refuses _ refl refl
mark-Marked db now hash tokens (ok t) =
    if_intro (Marked hash tokens) (not db.writes) (λ _. refuses _ refl refl)
      (λ _. mark_row-Marked now hash t tokens (find hash tokens) refl)

-- What happens to the table: a token is issued, or somebody tries to use one, who may have looked at
-- the table at any earlier time.
pub data Event : Type 0 where
  issues : Database → Token → Event
  tries : Database → ℕ → ℕ → Bytes → Named Token → Event

-- The table, and the hashes under which tokens were used with success, the last first.
pub record History : Type 0 where
  pub tokens : Named Token
  pub used : List Bytes

abbrev pub uses : Bytes → List Bytes → ℕ
uses h [] = 0
uses h (x ∷ xs) = (if bytes_eq x h then 1 else 0) + uses h xs

module _ (hash_token : Bytes → Bytes) where
  abbrev after_try : Bytes → Named Token × Except StoreError Token → History → History
  after_try token (tokens, ok t) s = record { tokens = tokens; used = hash_token token ∷ s.used }
  after_try token (tokens, err e) s = record s { tokens = tokens }

  unfoldable pub step : Event → History → History
  step (issues db t) s = record s { tokens = (put_token db t s.tokens).0 }
  step (tries db checked_at now token seen) s =
      after_try token (consume_over hash_token db checked_at now token seen s.tokens) s

  unfoldable pub run : List Event → History → History
  unfolding step
  run [] s = s
  run (e ∷ es) s = run es (step e s)

  -- A token that was used is marked, and none was used twice.
  abbrev Inv : Bytes → History → Type 0
  Inv h s = (uses h s.used ≡ 0) ⊎ ((uses h s.used ≡ 1) × (is_used (find h s.tokens) ≡ true))

  -- The row that a success wrote is there, and marked.
  row-used :
      (k h : Bytes) (row : Token) (tokens : Named Token)
      → is_set row.consumed_at ≡ true
      → bytes_eq k h ≡ true
      → is_used (find h (put k row tokens)) ≡ true
  row-used k h row tokens m e = rw (find-put k h row tokens, e) m

  won-Inv :
      (h k : Bytes) (s : History) (row : Token)
      → is_used (find k s.tokens) ≡ false
      → is_set row.consumed_at ≡ true
      → Inv h s
      → Inv h (record { tokens = put k row s.tokens; used = k ∷ s.used })
  won-Inv h k s row free m v = elim (Bool-cases (bytes_eq k h)) [
    | inl e ↦ elim v [
      | inl z ↦ inr (rw (e, z) refl, row-used k h row s.tokens m e)
      | inr w ↦ absurd (cc (w.1, free, bytes_eq→eq k h e))
    ]
    | inr e ↦ elim v [
      | inl z ↦ inl (rw (e, z) refl)
      | inr w ↦ inr (rw (e, w.0) refl, rw (find-put k h row s.tokens, e) (w.1))
    ]
  ]

  tried-Inv :
      (h token : Bytes) (s : History) (r : Named Token × Except StoreError Token)
      → Marked (hash_token token) s.tokens r
      → Inv h s
      → Inv h (after_try token r s)
  tried-Inv h token s (tokens, o) (refuses e a b) v = rw (a, b) v
  tried-Inv h token s (tokens, o) (wins t row a free b m) v =
      rw (a, b) (won-Inv h (hash_token token) s row free m v)

  step-Inv : (h : Bytes) (e : Event) (s : History) → Inv h s → Inv h (step e s)
  unfolding step consume_over
  step-Inv h (issues db t) s (inl z) = inl z
  step-Inv h (issues db t) s (inr w) = inr (w.0, put_token-used h db t s.tokens w.1)
  step-Inv h (tries db checked_at now token seen) s v =
      tried-Inv h token s _ (mark-Marked db now (hash_token token) s.tokens _) v

  run-Inv : (h : Bytes) (es : List Event) (s : History) → Inv h s → Inv h (run es s)
  unfolding run
  run-Inv h [] s v = v
  run-Inv h (e ∷ es) s v = run-Inv h es (step e s) (step-Inv h e s v)

  -- From any table, however many try to use a token, whatever table each of them looked at before its
  -- UPDATE, and even if it is issued again in between, at most one use of it succeeds.
  pub used_once :
      (h : Bytes) (es : List Event) (tokens : Named Token)
      → uses h (run es (record { tokens = tokens; used = [] })).used ≤ 1
  used_once h es tokens = elim (run-Inv h es (record { tokens = tokens; used = [] }) (inl refl)) [
    | inl z ↦ omega (arith, z)
    | inr w ↦ omega (arith, w.0)
  ]

  -- What a token needs to be accepted, and what is returned for it.
  pub record IsUsable (db : Database) (checked_at now : ℕ) (o : Option Token) (t : Token)
      : Type 0 where
    pub reads : db.reads ≡ true
    pub writes : db.writes ≡ true
    pub row : Token
    pub found : o ≡ some row
    pub unused : row.consumed_at ≡ none
    pub in_time : checked_at ≤ row.expires_at
    pub returned : t ≡ record row { consumed_at = some now }

  consumed :
      (db : Database) (checked_at now : ℕ) (hash : Bytes) (tokens : Named Token) (o : Option Token)
      (t : Token)
      → find hash tokens ≡ o
      → (mark db now hash tokens (if not db.reads then err failed else usable checked_at o)).1
        ≡ ok t
      → IsUsable db checked_at now o t
  consumed db checked_at now hash tokens none t e h = ground arith
  consumed db checked_at now hash tokens (some r) t e h = ground arith

  -- A token is accepted exactly when the database answers and has it, not used and not past its end;
  -- it is returned with the time of its use.
  pub consume_token_iff :
      (db : Database) (checked_at now : ℕ) (token : Bytes) (tokens : Named Token) (t : Token)
      → ((consume_token hash_token db checked_at now token tokens).1 ≡ ok t)
        ↔ IsUsable db checked_at now (find (hash_token token) tokens) t
  unfolding consume_token consume_over
  consume_token_iff db checked_at now token tokens t = (
    λ h. consumed db checked_at now (hash_token token) tokens _ t refl h,
    λ v. rw (v.reads, v.writes, v.found, v.unused, v.returned) (ground arith),
  )
