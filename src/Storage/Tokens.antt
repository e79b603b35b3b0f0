-- ===== src/Storage/Tokens.antt =====
-- internal/storage/identities.go: enrollment tokens, which are stored under a hash.
pub mod SingleUse
use secure_access_relay.Common.{
  ℕ, ltb, not, Bool, true, false, if◌then◌else◌, Bytes, Option, none, some,
}
use secure_access_relay.Common.Except.{Except, ok, err}
use secure_access_relay.Common.Named.{Named, find, put}
use secure_access_relay.Storage.{
  Database, StoreError, failed, token_unknown, token_consumed, token_expired, stored, stored_time,
  is_set,
}

pub record Token : Type 0 where
  pub hash : Bytes
  pub role : Bytes
  pub id : Bytes
  pub issued_at : ℕ
  pub expires_at : ℕ
  pub consumed_at : Option ℕ

abbrev pub row_of : Token → Token
row_of t = record t {
  issued_at = stored t.issued_at;
  expires_at = stored t.expires_at;
  consumed_at = stored_time t.consumed_at;
}

-- A row that is there is overwritten, but for the time it was consumed.
abbrev pub on_conflict : Token → Option Token → Token
on_conflict t none = row_of t
on_conflict t (some old) = record (row_of t) { consumed_at = old.consumed_at }

unfoldable pub put_token : Database → Token → Named Token → Named Token × Option StoreError
put_token db t tokens =
    if not db.writes
    then (tokens, some failed)
    else (put t.hash (on_conflict t (find t.hash tokens)) tokens, none)

-- The row that the SELECT of `ConsumeToken` found can be used.
abbrev pub usable : ℕ → Option Token → Except StoreError Token
usable now none = err token_unknown
usable now (some t) =
    if is_set t.consumed_at
    then err token_consumed
    else if ltb t.expires_at now
    then err token_expired
    else ok t

-- The UPDATE of `ConsumeToken`, which affects no row that was consumed before.
abbrev pub mark_row :
    ℕ → Bytes → Token → Option Token → Named Token → Named Token × Except StoreError Token
mark_row now hash t none tokens = (tokens, err token_consumed)
mark_row now hash t (some r) tokens =
    if is_set r.consumed_at then (tokens, err token_consumed) else (
      put hash (record r { consumed_at = some (stored now) }) tokens,
      ok (record t { consumed_at = some now }),
    )

abbrev pub mark :
    Database
    → ℕ
    → Bytes
    → Named Token
    → Except StoreError Token
    → Named Token × Except StoreError Token
mark db now hash tokens (err e) = (tokens, err e)
mark db now hash tokens (ok t) =
    if not db.writes then (tokens, err failed) else mark_row now hash t (find hash tokens) tokens

module _ (hash_token : Bytes → Bytes) where
  -- `ConsumeToken` whose SELECT sees one table and whose UPDATE meets another, with its two readings
  -- of the clock.
  unfoldable pub consume_over :
      Database → ℕ → ℕ → Bytes → Named Token → Named Token → Named Token × Except StoreError Token
  consume_over db checked_at now token seen tokens =
      let hash = hash_token token in
      mark db now hash tokens
        (if not db.reads then err failed else usable checked_at (find hash seen))

  -- `ConsumeToken`, whose transaction locks the table from its start.
  unfoldable pub consume_token :
      Database → ℕ → ℕ → Bytes → Named Token → Named Token × Except StoreError Token
  unfolding consume_over
  consume_token db checked_at now token tokens = consume_over db checked_at now token tokens tokens
