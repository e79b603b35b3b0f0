-- ===== src/Control/Policy/Sound.antt =====
-- A request is allowed exactly when some rule allows it (internal/control/policy/policy.go).
use mathlib.Core.List.{cons≢nil}
use mathlib.Core.List.Memᴰ
use mathlib.Core.List.Memᴰ.{Memᴰ}
use secure_access_relay.Common.{
  ℕ, ◌<◌, ◌≤◌, ltb, true, Bytes, List, [], ◌∷◌, ◌≡◌, ◌≢◌, refl, sym, ap, arith, inl, inr, ◌⊎◌,
  Bool-cases, subst, ltb→lt, ltb→le,
}
use secure_access_relay.Proto.Grant.{max_grant_ttl}
use secure_access_relay.Control.Policy.{
  Rule, Decision, Duration, negative, nanoseconds, denied, allow, matches, consider, evaluate_from,
  evaluate, effective_ttl,
}
use secure_access_relay.Control.Policy.Allowing.{Allows, matches-Allows}

pub effective_ttl_bounds :
    (d : Duration) → (0 < effective_ttl d) × (effective_ttl d ≤ max_grant_ttl)
unfolding effective_ttl
effective_ttl_bounds (negative n) = (omega arith, omega arith)
effective_ttl_bounds (nanoseconds n) = ground arith

-- The decision that the rules make, with their lifetimes.
module _ (user_id device_id resource_id : Bytes) where
  -- A decision that allows names a rule of the list that does, with the longest lifetime of all
  -- such rules.
  pub record IsBest (rules : List Rule) (d : Decision) : Type 0 where
    pub rule : Rule
    pub listed : Memᴰ rule rules
    pub matches : Allows user_id device_id resource_id rule
    pub decision : d ≡ allow rule
    pub longest :
        (r : Rule)
        → Memᴰ r rules
        → Allows user_id device_id resource_id r
        → effective_ttl r.max_ttl ≤ d.max_ttl

  -- No rule of the list allows more than the decision does already.
  pub record IsKept (rules : List Rule) (best d : Decision) : Type 0 where
    pub same : d ≡ best
    pub covers :
        (r : Rule)
        → Memᴰ r rules
        → Allows user_id device_id resource_id r
        → (best.allowed ≡ true) × (effective_ttl r.max_ttl ≤ best.max_ttl)

  abbrev pub Outcome : List Rule → Decision → Decision → Type 0
  Outcome rules best d =
      IsKept rules best d ⊎ (IsBest rules d × (best.allowed ≡ true → best.max_ttl ≤ d.max_ttl))

  -- What one round does with the rule: nothing, as the rule does not allow or brings nothing, or
  -- it takes the rule's decision.
  data Round (best : Decision) (r : Rule) : Type 0 where
    keeps :
        consider user_id device_id resource_id best r ≡ best
        → (Allows user_id device_id resource_id r
            → (best.allowed ≡ true) × (effective_ttl r.max_ttl ≤ best.max_ttl))
        → Round best r
    takes :
        consider user_id device_id resource_id best r ≡ allow r
        → Allows user_id device_id resource_id r
        → (best.allowed ≡ true → best.max_ttl ≤ effective_ttl r.max_ttl)
        → Round best r

  consider-cases : (best : Decision) (r : Rule) → Round best r
  unfolding consider
  consider-cases best r = elim (Bool-cases (matches user_id device_id resource_id r)) [
    | inr miss ↦
        keeps (rw miss refl)
          (λ also. absurd (cc ((matches-Allows user_id device_id resource_id r).1 also, miss)))
    | inl hit ↦ elim (Bool-cases best.allowed) [
      | inr first ↦
          takes (rw (hit, first) refl) ((matches-Allows user_id device_id resource_id r).0 hit)
            (λ a. cc)
      | inl later ↦ elim (Bool-cases (ltb best.max_ttl (effective_ttl r.max_ttl))) [
        | inl longer ↦
            takes (rw (hit, later, longer) refl)
              ((matches-Allows user_id device_id resource_id r).0 hit)
              (λ _. omega (arith, ltb→lt best.max_ttl (effective_ttl r.max_ttl) longer))
        | inr shorter ↦
            keeps (rw (hit, later, shorter) refl)
              (λ _. (later, ltb→le best.max_ttl (effective_ttl r.max_ttl) shorter))
      ]
    ]
  ]

  -- A property of the rules of a longer list.
  for_all :
      {P : Rule → Type 0} {r : Rule} {rules : List Rule}
      → P r
      → ((q : Rule) → Memᴰ q rules → P q)
      → (q : Rule) → Memᴰ q (r ∷ rules)
      → P q
  for_all {P} p f q (Memᴰ.head e) = subst P (sym e) p
  for_all p f q (Memᴰ.tail m) = f q m

  keeps_Outcome :
      {best d : Decision} {r : Rule} {rules : List Rule}
      → (Allows user_id device_id resource_id r
          → (best.allowed ≡ true) × (effective_ttl r.max_ttl ≤ best.max_ttl))
      → Outcome rules best d
      → Outcome (r ∷ rules) best d
  keeps_Outcome {best} now (inl k) = inl (record {
    same = k.same;
    covers =
        for_all
          {P = λ q.
            Allows user_id device_id resource_id q
            → (best.allowed ≡ true) × (effective_ttl q.max_ttl ≤ best.max_ttl)}
          now k.covers;
  })
  keeps_Outcome {best} {d} now (inr (b, more)) = inr (
    record {
      rule = b.rule;
      listed = Memᴰ.tail b.listed;
      matches = b.matches;
      decision = b.decision;
      longest =
          for_all
            {P = λ q. Allows user_id device_id resource_id q → effective_ttl q.max_ttl ≤ d.max_ttl}
            (λ a. omega (arith, (now a).1, more (now a).0)) b.longest;
    },
    more,
  )

  takes_Outcome :
      {best d : Decision} {r : Rule} {rules : List Rule}
      → Allows user_id device_id resource_id r
      → (best.allowed ≡ true → best.max_ttl ≤ effective_ttl r.max_ttl)
      → Outcome rules (allow r) d
      → Outcome (r ∷ rules) best d
  takes_Outcome {best} {d} {r} {rules} a now (inl k) = inr (
    record {
      rule = r;
      listed = Memᴰ.head refl;
      matches = a;
      decision = k.same;
      longest =
          for_all
            {P = λ q. Allows user_id device_id resource_id q → effective_ttl q.max_ttl ≤ d.max_ttl}
            (λ _. kept (effective_ttl r.max_ttl) (omega arith))
            (λ q m h. kept (effective_ttl q.max_ttl) (k.covers q m h).1);
    },
    λ x. kept best.max_ttl (now x),
  )
    where
      kept : (n : ℕ) → n ≤ effective_ttl r.max_ttl → n ≤ d.max_ttl
      kept n h = subst (λ z. n ≤ z) (sym (ap (λ z. z.max_ttl) k.same)) h
  takes_Outcome {best} {d} a now (inr (b, more)) = inr (
    record {
      rule = b.rule;
      listed = Memᴰ.tail b.listed;
      matches = b.matches;
      decision = b.decision;
      longest =
          for_all
            {P = λ q. Allows user_id device_id resource_id q → effective_ttl q.max_ttl ≤ d.max_ttl}
            (λ _. more refl) b.longest;
    },
    λ x. omega (arith, now x, more refl),
  )

  evaluate_from-Outcome :
      (rules : List Rule) (best : Decision)
      → Outcome rules best (evaluate_from user_id device_id resource_id best rules)
  unfolding evaluate_from
  evaluate_from-Outcome [] best =
      inl (record { same = refl; covers = λ r m. absurd (Memᴰ.not-nil m) })
  evaluate_from-Outcome (r ∷ rules) best = elim (consider-cases best r) [
    | keeps e now ↦ keeps_Outcome now (
        subst
          (λ b. Outcome rules b (
            evaluate_from user_id device_id resource_id
              (consider user_id device_id resource_id best r) rules))
          e (evaluate_from-Outcome rules (consider user_id device_id resource_id best r)))
    | takes e a now ↦ takes_Outcome a now (
        subst
          (λ b. Outcome rules b (
            evaluate_from user_id device_id resource_id
              (consider user_id device_id resource_id best r) rules))
          e (evaluate_from-Outcome rules (consider user_id device_id resource_id best r)))
  ]

-- A request that names a user, a device and a resource.
pub evaluate_complete :
    (rules : List Rule) (user_id device_id resource_id : Bytes)
    → user_id ≢ []
    → device_id ≢ []
    → resource_id ≢ []
    → ((evaluate rules user_id device_id resource_id ≡ denied)
        × ((r : Rule) → Memᴰ r rules → ¬ Allows user_id device_id resource_id r))
      ⊎ IsBest user_id device_id resource_id rules (evaluate rules user_id device_id resource_id)
unfolding evaluate
evaluate_complete rules [] d r u v w = absurd (u refl)
evaluate_complete rules (x ∷ u) [] r hu v w = absurd (v refl)
evaluate_complete rules (x ∷ u) (y ∷ d) [] hu hd w = absurd (w refl)
evaluate_complete rules (x ∷ u) (y ∷ d) (z ∷ q) hu hd hq =
    elim (evaluate_from-Outcome (x ∷ u) (y ∷ d) (z ∷ q) rules denied) [
      | inl k ↦
          inl
            (k.same, λ r m a. omega (arith, (k.covers r m a).1, (effective_ttl_bounds r.max_ttl).0))
      | inr b ↦ inr b.0
    ]

-- The decision on a request. One that names no user, no device or no resource is denied. Another is
-- denied and no rule of the set allows it, or it is allowed by a rule of the set with the longest
-- lifetime that such a rule gives. A rule allows a request if that is its effect and it lists the
-- user, the device and the resource.
pub evaluate-IsBest :
    (rules : List Rule) (user_id device_id resource_id : Bytes)
    → ((evaluate rules user_id device_id resource_id ≡ denied)
        × ((user_id ≡ []) ⊎ ((device_id ≡ []) ⊎ (resource_id ≡ []))))
      ⊎ ((user_id ≢ [])
          × (device_id ≢ [])
          × (resource_id ≢ [])
          × (((evaluate rules user_id device_id resource_id ≡ denied)
                × ((r : Rule) → Memᴰ r rules → ¬ Allows user_id device_id resource_id r))
              ⊎ IsBest user_id device_id resource_id rules
                  (evaluate rules user_id device_id resource_id)))
unfolding evaluate
evaluate-IsBest rules [] d r = inl (refl, inl refl)
evaluate-IsBest rules (x ∷ u) [] r = inl (refl, inr (inl refl))
evaluate-IsBest rules (x ∷ u) (y ∷ d) [] = inl (refl, inr (inr refl))
evaluate-IsBest rules (x ∷ u) (y ∷ d) (z ∷ q) = inr (
  λ e. cons≢nil e,
  λ e. cons≢nil e,
  λ e. cons≢nil e,
  evaluate_complete rules (x ∷ u) (y ∷ d) (z ∷ q) cons≢nil cons≢nil cons≢nil,
)
