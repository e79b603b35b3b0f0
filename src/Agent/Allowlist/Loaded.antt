-- ===== src/Agent/Allowlist/Loaded.antt =====
-- A list that was loaded serves loopback targets only (internal/agent/resources.go).
use secure_access_relay.Common.{
  not, Bool, true, false, Bool-cases, if_intro, Bytes, bytes_eq, bytes_eq→eq, List, [], ◌∷◌, Option,
  none, some, ◌≡◌, refl, sym, ap, inl, inr,
}
use secure_access_relay.Common.Except.{Except, ok, err, ok_injective}
use secure_access_relay.Common.Named.{Named, find, put, find-put}
use secure_access_relay.Proto.Grant.{is_empty}
use secure_access_relay.Control.Policy.{Duration, nanoseconds, negative}
use secure_access_relay.Agent.{
  Net, Resource, LookupError, resource_unknown, validate_target, checked, lookup_resource,
}
use secure_access_relay.Agent.Allowlist.{
  Declared, AllowlistError, protocol_tcp, with_duration, validate_resource, insert_resource,
  insert_all, add_resources, non_empty, load_allowlist,
}

module _ (net : Net) where
  -- Every resource stands under its own name and has a valid target.
  abbrev pub Safe : Named Resource → Type 0
  Safe list =
      (id : Bytes) (r : Resource)
      → find id list ≡ some r
      → (r.resource_id ≡ id) × (validate_target net r.target ≡ true)

  with_duration-target :
      (d : Declared) (o : Duration) (r : Resource)
      → with_duration d o ≡ ok r
      → (r.target ≡ d.target)
  with_duration-target d (negative n) r h = absurd (cc h)
  with_duration-target d (nanoseconds n) r h = ap (λ x. x.target) (sym (ok_injective h))

  validate_resource-target :
      (d : Declared) (r : Resource)
      → validate_resource net d ≡ ok r
      → validate_target net r.target ≡ true
  unfolding validate_resource
  validate_resource-target d r =
      if_intro Accepted (is_empty d.resource_id) (λ _ h. absurd (cc h))
        (λ _.
          if_intro Accepted (not (bytes_eq d.protocol protocol_tcp)) (λ _ h. absurd (cc h))
            (λ _.
              if_intro Accepted (not (validate_target net d.target)) (λ _ h. absurd (cc h))
                (λ n h.
                  rw (with_duration-target d d.max_duration r h)
                    (valid (validate_target net d.target) n))))
    where
      Accepted : Except AllowlistError Resource → Type 0
      Accepted o = o ≡ ok r → validate_target net r.target ≡ true

      valid : (b : Bool) → not b ≡ false → b ≡ true
      valid true e = refl
      valid false e = absurd (cc e)

  put-Safe :
      (r : Resource) (list : Named Resource)
      → validate_target net r.target ≡ true
      → Safe list
      → Safe (put r.resource_id r list)
  put-Safe r list t v id q e = elim (Bool-cases (bytes_eq r.resource_id id)) [
    | inl k ↦
        let same : r ≡ q = cc (rw (find-put r.resource_id id r list, k) at e) in
        rw⁻¹ same (bytes_eq→eq r.resource_id id k, t)
    | inr k ↦ v id q (rw (find-put r.resource_id id r list, k) at e)
  ]

  add_resources-Safe :
      (declared : List Declared) (list all : Named Resource)
      → Safe list
      → add_resources net declared list ≡ ok all
      → Safe all
  unfolding add_resources
  add_resources-Safe [] list all v h = rw⁻¹ (ok_injective h) v
  add_resources-Safe (d ∷ declared) list all v h =
      go (λ more w k. add_resources-Safe declared more all w k) (validate_resource net d) refl
        (find d.resource_id list) h
    where
      go :
          ((more : Named Resource)
            → Safe more
            → add_resources net declared more ≡ ok all
            → Safe all)
          → (o : Except AllowlistError Resource) → validate_resource net d ≡ o
          → (dup : Option Resource)
          → insert_all (add_resources net declared) (insert_resource list o dup) ≡ ok all
          → Safe all
      go rest (err x) e dup h = absurd (cc h)
      go rest (ok r) e (some other) h = absurd (cc h)
      go rest (ok r) e none h =
          rest (put r.resource_id r list) (put-Safe r list (validate_resource-target d r e) v) h

  none-Safe : Safe []
  unfolding find
  none-Safe id r e = absurd (cc e)

  -- What `Lookup` answers: the resource of that name, with a loopback target, or that there is none.
  pub data Served (id : Bytes) (o : Except LookupError Resource) : Type 0 where
    missing : o ≡ err resource_unknown → Served id o
    served :
        (r : Resource)
        → o ≡ ok r
        → r.resource_id ≡ id
        → validate_target net r.target ≡ true
        → Served id o

  loaded :
      (declared : List Declared) (list : Named Resource)
      → load_allowlist net declared ≡ ok list
      → Safe list
  unfolding load_allowlist
  loaded declared list = go (add_resources net declared []) refl
    where
      go :
          (o : Except AllowlistError (Named Resource))
          → add_resources net declared [] ≡ o
          → non_empty o ≡ ok list
          → Safe list
      go (err x) e h = absurd (cc h)
      go (ok []) e h = absurd (cc h)
      go (ok (r ∷ l)) e h =
          rw⁻¹ (ok_injective h) (add_resources-Safe declared [] (r ∷ l) none-Safe e)

  -- A list that was loaded never stops a stream for a target that is not a loopback address: a lookup
  -- finds the resource of that very name, whose target is one, or no resource at all.
  pub lookup_resource-Served :
      (declared : List Declared) (list : Named Resource) (id : Bytes)
      → load_allowlist net declared ≡ ok list
      → Served id (lookup_resource net id list)
  unfolding lookup_resource
  lookup_resource-Served declared list id h = go (find id list) refl
    where
      go : (o : Option Resource) → find id list ≡ o → Served id (checked net o)
      go none e = missing refl
      go (some r) e = let (n, t) = loaded declared list h id r e in served r (rw t refl) n t
