-- ===== src/Control/Policy/Order.antt =====
-- The order of the rules does not matter (internal/control/policy/policy.go, `Evaluate`).
use mathlib.Core.List.{cons≢nil}
use mathlib.Core.List.Memᴰ.{Memᴰ}
use secure_access_relay.Common.{Bytes, List, [], ◌∷◌, ◌≡◌, refl, sym, ◌∙◌, ap, arith, inl, inr, ◌⊎◌}
use secure_access_relay.Control.Policy.{Rule, Decision, denied, evaluate}
use secure_access_relay.Control.Policy.Allowing.{Allows}
use secure_access_relay.Control.Policy.Sound.{IsBest, evaluate_complete}

-- What an operator gets of a decision: whether it allows, and for how long.
abbrev pub Agree : Decision → Decision → Type 0
Agree d e = (d.allowed ≡ e.allowed) × (d.max_ttl ≡ e.max_ttl)

abbrev pub Within : List Rule → List Rule → Type 0
Within a b = (r : Rule) → Memᴰ r a → Memᴰ r b

module _ (user_id device_id resource_id : Bytes) {a b : List Rule} (ab : Within a b)
    (ba : Within b a) where
  best-Agree :
      {d e : Decision}
      → IsBest user_id device_id resource_id a d
      → IsBest user_id device_id resource_id b e
      → Agree d e
  best-Agree {d} {e} x y = (
    ap (λ z. z.allowed) x.decision ∙ sym (ap (λ z. z.allowed) y.decision),
    omega (
      arith,
      ap (λ z. z.max_ttl) x.decision,
      ap (λ z. z.max_ttl) y.decision,
      x.longest y.rule (ba y.rule y.listed) y.matches,
      y.longest x.rule (ab x.rule x.listed) x.matches,
    ),
  )

-- Two rule sets with the same rules, in any order and any number of times, agree on every request.
pub evaluate_order :
    (a b : List Rule) (user_id device_id resource_id : Bytes)
    → Within a b
    → Within b a
    → Agree (evaluate a user_id device_id resource_id) (evaluate b user_id device_id resource_id)
unfolding evaluate
evaluate_order a b [] d r ab ba = (refl, refl)
evaluate_order a b (x ∷ u) [] r ab ba = (refl, refl)
evaluate_order a b (x ∷ u) (y ∷ d) [] ab ba = (refl, refl)
evaluate_order a b (x ∷ u) (y ∷ d) (z ∷ r) ab ba =
    both (evaluate_complete a (x ∷ u) (y ∷ d) (z ∷ r) cons≢nil cons≢nil cons≢nil)
      (evaluate_complete b (x ∷ u) (y ∷ d) (z ∷ r) cons≢nil cons≢nil cons≢nil)
  where
    both :
        {p q : Decision}
        → ((p ≡ denied) × ((r' : Rule) → Memᴰ r' a → ¬ Allows (x ∷ u) (y ∷ d) (z ∷ r) r'))
          ⊎ IsBest (x ∷ u) (y ∷ d) (z ∷ r) a p
        → ((q ≡ denied) × ((r' : Rule) → Memᴰ r' b → ¬ Allows (x ∷ u) (y ∷ d) (z ∷ r) r'))
          ⊎ IsBest (x ∷ u) (y ∷ d) (z ∷ r) b q
        → Agree p q
    both (inl h) (inl k) =
        (ap (λ z. z.allowed) (h.0 ∙ sym k.0), ap (λ z. z.max_ttl) (h.0 ∙ sym k.0))
    both (inl h) (inr k) = absurd (h.1 k.rule (ba k.rule k.listed) k.matches)
    both (inr h) (inl k) = absurd (k.1 h.rule (ab h.rule h.listed) h.matches)
    both (inr h) (inr k) = best-Agree (x ∷ u) (y ∷ d) (z ∷ r) ab ba h k
