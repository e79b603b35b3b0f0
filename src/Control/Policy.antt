-- ===== src/Control/Policy.antt =====
-- internal/control/policy: rules, and the decision on a request.
pub mod Allowing
pub mod Sound
pub mod Order
use secure_access_relay.Common.{
  ℕ, ltb, ◌==◌, not, ◌||◌, ◌&&◌, Bool, true, false, if◌then◌else◌, Bytes, bytes_eq, codes, List, [],
  ◌∷◌, Option, none, some,
}
use secure_access_relay.Common.Except.{Except, ok, err}
use secure_access_relay.Proto.Reason
use secure_access_relay.Proto.Reason.{Reason}
use secure_access_relay.Proto.Grant.{max_grant_ttl, is_empty}

-- `Effect` is a string, of which one value is known.
unfoldable pub effect_allow : Bytes
effect_allow = codes "allow"

-- A duration of an `int64`, in nanoseconds; below zero it is `negative`.
pub data Duration : Type 0 where
  nanoseconds : ℕ → Duration
  negative : ℕ → Duration

pub record Rule : Type 0 where
  pub policy_id : Bytes
  pub principals : List Bytes
  pub devices : List Bytes
  pub resources : List Bytes
  pub max_ttl : Duration
  pub effect : Bytes

pub record Decision : Type 0 where
  pub allowed : Bool
  pub max_ttl : ℕ
  pub policy_id : Bytes
  pub reason : Reason

unfoldable pub contains : List Bytes → Bytes → Bool
contains [] want = false
contains (v ∷ list) want = bytes_eq v want || contains list want

abbrev pub denied : Decision
denied = record { allowed = false; max_ttl = 0; policy_id = []; reason = Reason.policy_denied }

-- The lifetime that a rule allows: the ceiling, if it names none or more than that.
unfoldable pub effective_ttl : Duration → ℕ
effective_ttl (negative n) = max_grant_ttl
effective_ttl (nanoseconds n) = if n == 0 || ltb max_grant_ttl n then max_grant_ttl else n

-- A rule that allows, for this user, device and resource.
unfoldable pub matches : Bytes → Bytes → Bytes → Rule → Bool
unfolding contains
matches user_id device_id resource_id r =
    bytes_eq r.effect effect_allow
    && (contains r.principals user_id
        && (contains r.devices device_id && contains r.resources resource_id))

abbrev pub allow : Rule → Decision
allow r = record {
  allowed = true;
  max_ttl = effective_ttl r.max_ttl;
  policy_id = r.policy_id;
  reason = Reason.ok;
}

-- One round of the loop of `Evaluate`.
unfoldable pub consider : Bytes → Bytes → Bytes → Decision → Rule → Decision
unfolding matches effective_ttl
consider user_id device_id resource_id best r =
    if not (matches user_id device_id resource_id r)
    then best
    else if not best.allowed || ltb best.max_ttl (effective_ttl r.max_ttl)
    then allow r
    else best

unfoldable pub evaluate_from : Bytes → Bytes → Bytes → Decision → List Rule → Decision
evaluate_from user_id device_id resource_id best [] = best
evaluate_from user_id device_id resource_id best (r ∷ rules) =
    evaluate_from user_id device_id resource_id (consider user_id device_id resource_id best r)
      rules

unfoldable pub evaluate : List Rule → Bytes → Bytes → Bytes → Decision
unfolding evaluate_from
evaluate rules user_id device_id resource_id =
    if is_empty user_id || (is_empty device_id || is_empty resource_id)
    then denied
    else evaluate_from user_id device_id resource_id denied rules

pub data LoadError : Type 0 where
  unnamed unsupported_effect empty_list : LoadError

abbrev pub no_items {ℓ} : {A : Type ℓ} → List A → Bool
no_items [] = true
no_items (x ∷ xs) = false

-- The checks of `LoadRules` on the rules that were parsed.
unfoldable pub check_rules : List Rule → Except LoadError (List Rule)
check_rules [] = ok []
check_rules (r ∷ rules) =
    if is_empty r.policy_id
    then err unnamed
    else if not (bytes_eq r.effect effect_allow)
    then err unsupported_effect
    else if no_items r.principals || (no_items r.devices || no_items r.resources)
    then err empty_list
    else elim (check_rules rules) [ ok rs ↦ ok (r ∷ rs) | err e ↦ err e ]
