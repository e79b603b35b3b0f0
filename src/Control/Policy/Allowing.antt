-- ===== src/Control/Policy/Allowing.antt =====
-- Which rules allow a request (internal/control/policy/policy.go).
use mathlib.Core.List.Memᴰ
use mathlib.Core.List.Memᴰ.{Memᴰ}
use secure_access_relay.Common.{
  true, Bytes, List, [], ◌∷◌, ◌≡◌, refl, sym, ap, inl, inr, Bool-cases, Bool, false, ◌&&◌, ◌↔◌,
  bytes_eq, bytes_eq→eq, bytes_eq_refl, ◌∙◌,
}
use secure_access_relay.Control.Policy.{Rule, matches, contains, effect_allow}

and_true : (a b : Bool) → a && b ≡ true → (a ≡ true) × (b ≡ true)
and_true true b h = (refl, h)
and_true false b h = absurd (cc h)

in_tail :
    (v want : Bytes) (list : List Bytes)
    → bytes_eq v want ≡ false
    → Memᴰ want (v ∷ list)
    → Memᴰ want list
in_tail v want list e (Memᴰ.head q) =
    absurd (cc (e, ap (λ z. bytes_eq z want) (sym q) ∙ bytes_eq_refl want))
in_tail v want list e (Memᴰ.tail m) = m

contains-Memᴰ : (list : List Bytes) (want : Bytes) → (contains list want ≡ true) ↔ Memᴰ want list
unfolding contains
contains-Memᴰ [] want = (λ h. absurd (cc h), λ m. absurd (Memᴰ.not-nil m))
contains-Memᴰ (v ∷ list) want = elim (Bool-cases (bytes_eq v want)) [
  | inl e ↦ (λ h. Memᴰ.head (sym (bytes_eq→eq v want e)), λ m. rw e refl)
  | inr e ↦
      let (to, from) = contains-Memᴰ list want in
      (λ h. Memᴰ.tail (to (rw e at h)), λ m. rw e (from (in_tail v want list e m)))
]

-- The rules that allow the request, with their lifetimes.
module _ (user_id device_id resource_id : Bytes) where
  abbrev pub Allows : Rule → Type 0
  Allows r =
      (r.effect ≡ effect_allow)
      × Memᴰ user_id r.principals
      × Memᴰ device_id r.devices
      × Memᴰ resource_id r.resources

  pub matches-Allows : (r : Rule) → (matches user_id device_id resource_id r ≡ true) ↔ Allows r
  unfolding matches
  matches-Allows r =
      let (p, p') = contains-Memᴰ r.principals user_id in
      let (d, d') = contains-Memᴰ r.devices device_id in
      let (q, q') = contains-Memᴰ r.resources resource_id in
      (
        λ h.
            let (e, k) = and_true (bytes_eq r.effect effect_allow) _ h in
            let (x, k') = and_true (contains r.principals user_id) _ k in
            let (y, z) = and_true (contains r.devices device_id) _ k' in
            (bytes_eq→eq r.effect effect_allow e, p x, d y, q z),
        λ (e, x, y, z).
            rw (ap (λ b. bytes_eq b effect_allow) e ∙ bytes_eq_refl effect_allow, p' x, d' y, q' z)
              refl,
      )
