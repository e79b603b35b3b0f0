-- ===== src/Agent/Allowlist.antt =====
-- internal/agent/resources.go, `LoadAllowlist`: the checks of the resources that a file declares.
pub mod Loaded
use secure_access_relay.Common.{
  ℕ, not, Bool, true, false, if◌then◌else◌, Bytes, bytes_eq, codes, List, [], ◌∷◌, Option, none,
  some,
}
use secure_access_relay.Common.Except.{Except, ok, err}
use secure_access_relay.Common.Named.{Named, find, put}
use secure_access_relay.Proto.Grant.{is_empty}
use secure_access_relay.Control.Policy.{Duration, nanoseconds, negative}
use secure_access_relay.Agent.{Net, Resource, validate_target}

-- A `Resource` as it was parsed, whose duration may be negative.
pub record Declared : Type 0 where
  pub resource_id : Bytes
  pub protocol : Bytes
  pub target : Bytes
  pub max_bytes : ℕ
  pub max_duration : Duration

pub data AllowlistError : Type 0 where
  unnamed protocol_unsupported target_invalid duration_negative duplicate no_resources :
      AllowlistError

unfoldable pub protocol_tcp : Bytes
protocol_tcp = codes "tcp"

abbrev pub with_duration : Declared → Duration → Except AllowlistError Resource
with_duration d (negative n) = err duration_negative
with_duration d (nanoseconds n) = ok (record {
  resource_id = d.resource_id;
  target = d.target;
  max_bytes = d.max_bytes;
  max_duration = n;
})

-- One round of the loop.
abbrev pub insert_resource :
    Named Resource
    → Except AllowlistError Resource
    → Option Resource
    → Except AllowlistError (Named Resource)
insert_resource list (err e) dup = err e
insert_resource list (ok r) none = ok (put r.resource_id r list)
insert_resource list (ok r) (some other) = err duplicate

abbrev pub insert_all :
    (Named Resource → Except AllowlistError (Named Resource))
    → Except AllowlistError (Named Resource)
    → Except AllowlistError (Named Resource)
insert_all next (err e) = err e
insert_all next (ok list) = next list

abbrev pub non_empty :
    Except AllowlistError (Named Resource) → Except AllowlistError (Named Resource)
non_empty (err e) = err e
non_empty (ok []) = err no_resources
non_empty (ok (r ∷ list)) = ok (r ∷ list)

module _ (net : Net) where
  -- `validateResource`, with the resource that it accepts.
  unfoldable pub validate_resource : Declared → Except AllowlistError Resource
  validate_resource d =
      if is_empty d.resource_id
      then err unnamed
      else if not (bytes_eq d.protocol protocol_tcp)
      then err protocol_unsupported
      else if not (validate_target net d.target)
      then err target_invalid
      else with_duration d d.max_duration

  unfoldable pub add_resources :
      List Declared → Named Resource → Except AllowlistError (Named Resource)
  unfolding validate_resource
  add_resources [] list = ok list
  add_resources (d ∷ declared) list =
      insert_all (add_resources declared)
        (insert_resource list (validate_resource d) (find d.resource_id list))

  -- `LoadAllowlist`, of the resources that the file declares.
  unfoldable pub load_allowlist : List Declared → Except AllowlistError (Named Resource)
  unfolding add_resources
  load_allowlist declared = non_empty (add_resources declared [])
