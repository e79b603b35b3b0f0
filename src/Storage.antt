-- ===== src/Storage.antt =====
-- internal/storage: the tables of the control plane, and the statements that it runs on them.
pub mod Tokens
pub mod Identities
pub mod Ledger
use secure_access_relay.Common.{ℕ, Bool, true, false, Option, none, some}
use secure_access_relay.Proto.Grant.{truncate_second}

-- Whether the database answers the SELECT of a call, and whether it runs its other statements and
-- commits them. What is not committed is rolled back.
pub record Database : Type 0 where
  pub reads : Bool
  pub writes : Bool

pub data StoreError : Type 0 where
  failed token_unknown token_consumed token_expired : StoreError
  identity_revoked not_enrolled : StoreError
  session_unknown session_expired session_revoked grant_unknown : StoreError

-- `unix`, then `fromUnix`: a time in whole seconds.
abbrev pub stored : ℕ → ℕ
stored t = truncate_second t

abbrev pub stored_time : Option ℕ → Option ℕ
stored_time none = none
stored_time (some t) = some (stored t)

abbrev pub is_set : Option ℕ → Bool
is_set none = false
is_set (some t) = true
